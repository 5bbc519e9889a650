-- ===== src/Authenticators/TokenFile/Waiting.antt =====
-- The loop of waitForTextFile ends (conjurapi/authn/wait_for_file.go), and what the authenticator
-- then does (conjurapi/authn/token_file_authenticator.go).
use Prim.Native.String.{String}
use conjur_api_go.Common.{
  ℕ, zero, suc, ◌+◌, ◌≤◌, ◌<◌, Bool, true, false, Option, none, some, eqb, Result, ok, err, ◌≡◌,
  ◌⊎◌, inl, inr, refl, ap, subst, ◌∙◌, arith, Bool-cases,
}
use conjur_api_go.Authenticators.TokenFile.{
  Look, missing, present, timed_out, round, or_later, wait_for_text_file,
}

-- A round at which the program goes on waiting
abbrev pub IsIdle : Bool → Look → Type 0
IsIdle late seen = (late ≡ false) × (seen ≡ missing)

-- A round that ends the wait, and the result: the timer goes before the file.
abbrev pub EndsWith : Bool → Look → Result String → Type 0
EndsWith late seen r =
    ((late ≡ true) × (r ≡ err timed_out))
    ⊎ ((bytes : String) × (error : Option String) × (late ≡ false)
        × (seen ≡ present bytes error)
        × (r ≡ ok bytes))

-- A round either ends the wait or is idle.
round-cases :
    (late : Bool) (seen : Look)
    → ((r : Result String) × (round late seen ≡ some r) × EndsWith late seen r)
      ⊎ ((round late seen ≡ none) × IsIdle late seen)
unfolding round
round-cases true seen = inl (err timed_out, refl, inl (refl, refl))
round-cases false missing = inr (refl, (refl, refl))
round-cases false (present bytes error) = inl (ok bytes, refl, inr (bytes, error, refl, refl, refl))

module _ (expired : ℕ → Bool) (look : ℕ → Look) where
  -- The first round, from one on, at which the timer has fired or the file is there, and the result
  abbrev pub Decides : ℕ → ℕ → Result String → Type 0
  Decides from at r =
      (from ≤ at)
      × EndsWith (expired at) (look at) r
      × ((k : ℕ) → from ≤ k → k < at → IsIdle (expired k) (look k))

  Decides-later :
      (from at : ℕ) (r : Result String)
      → IsIdle (expired from) (look from)
      → Decides (suc from) at r
      → Decides from at r
  Decides-later from at r now (le, here, before) = (
    omega arith,
    here,
    (λ k low high. elim (Bool-cases (eqb from k)) [
      | inl same ↦
          let e : from ≡ k = ground (arith, same) in subst (λ n. IsIdle (expired n) (look n)) e now
      | inr other ↦ before k (ground (arith, other, low)) high
    ]),
  )

  not_idle :
      (from n : ℕ)
      → IsIdle (expired from) (look from)
      → from ≤ n
      → ¬ IsIdle (expired n) (look n)
      → suc from ≤ n
  not_idle from n now le ready = elim (Bool-cases (eqb from n)) [
    | inl same ↦
        let e : from ≡ n = ground (arith, same) in
        absurd (ready (subst (λ m. IsIdle (expired m) (look m)) e now))
    | inr other ↦ ground (arith, other, le)
  ]

  -- If the timer fires or the file appears at some round, then waitForTextFile ends by that round:
  -- it returns once it may go on to it. It ends at the first such round, with the error of the timeout if the timer has fired by then, and otherwise with the bytes that
  -- were read from the file, without an error, whatever the error of reading them was.
  pub wait_for_text_file-Decides :
      (rounds from n : ℕ)
      → ¬ IsIdle (expired n) (look n)
      → from ≤ n
      → n < from + rounds
      → (at : ℕ) × (r : Result String) × (wait_for_text_file expired look rounds from ≡ some r)
        × Decides from at r
        × (at ≤ n)
  unfolding wait_for_text_file
  wait_for_text_file-Decides zero from n ready le lt = absurd (omega arith)
  wait_for_text_file-Decides (suc rounds) from n ready le lt =
      elim (round-cases (expired from) (look from)) [
        | inl (r, e, ends) ↦ (
          from,
          r,
          ap (λ o. or_later o (wait_for_text_file expired look rounds (suc from))) e,
          (omega arith, ends, (λ k low high. absurd (omega arith))),
          le,
        )
        | inr (e, idle) ↦
            let (at, r, f, decides, early) =
              wait_for_text_file-Decides rounds (suc from) n ready (not_idle from n idle le ready)
                (omega arith) in
            (
              at,
              r,
              ap (λ o. or_later o (wait_for_text_file expired look rounds (suc from))) e ∙ f,
              Decides-later from at r idle decides,
              early,
            )
      ]

-- ===== src/Common/Text/Lemmas.antt =====
-- Laws of the string functions.
use Prim.Native.Nat.{ℕ, zero, suc}
use Prim.Native.Char.{Char, code}
use Prim.Native.String.{String, [], ◌∷◌, ◌++◌}
use mathlib.Core.Path.{◌≡◌, refl, ap, ◌∙◌, sym, subst}
use mathlib.Core.Bool.{true, false}
use mathlib.Core.Option.{Option, none, some}
use mathlib.Core.List.{[], ◌∷◌}
use native.Mathlib.Omega.{arith}
use text.Mathlib.TextEquality.{Char-path}
use text.Mathlib.TextLemmas.{nil-append, cons-append}
use conjur_api_go.Common.Tests.{eqb, Bool-cases, Option-cases}
use mathlib.Core.Logic.{inl, inr}
use conjur_api_go.Common.Text.{has_char, cut, cons_first, split_n, join}

-- What does not hold the separator is not cut.
pub cut-of_clean : (d : ℕ) (s : String) → has_char d s ≡ false → cut d s ≡ none
unfolding cut has_char
cut-of_clean d [] h = refl
cut-of_clean d (c ∷ s) h = ground (arith, cut-of_clean d s)

-- A text is cut at its first separator.
pub cut-append :
    (d : Char) (s t : String)
    → has_char (code d) s ≡ false
    → cut (code d) (s ++ (d ∷ t)) ≡ some (s, t)
unfolding cut has_char
cut-append d [] t h = rw nil-append (ground arith)
cut-append d (c ∷ s) t h = rw cons-append (ground (arith, cut-append d s t))

-- What `cut` promises: the two parts and the separator make up the text, and the first part holds
-- no separator; or the text holds none.
abbrev pub IsCut : Char → String → Option (String × String) → Type 0
IsCut d s none = has_char (code d) s ≡ false
IsCut d s (some (a, b)) = (s ≡ a ++ (d ∷ b)) × (has_char (code d) a ≡ false)

IsCut-cons :
    (d c : Char) (s : String) (o : Option (String × String))
    → eqb (code c) (code d) ≡ false
    → IsCut d s o
    → IsCut d (c ∷ s) (cons_first c o)
unfolding has_char
IsCut-cons d c s none other h = rw other h
IsCut-cons d c s (some (a, b)) other (e, h) = (rw cons-append (ap (λ t. c ∷ t) e), rw other h)

pub cut-IsCut : (d : Char) (s : String) → IsCut d s (cut (code d) s)
unfolding cut has_char
cut-IsCut d [] = refl
cut-IsCut d (c ∷ s) = elim (Bool-cases (eqb (code c) (code d))) [
  | inl same ↦
      let e : c ≡ d = Char-path c d (ground arith) in
      rw same (rw nil-append (ap (λ x. x ∷ s) e), refl)
  | inr other ↦ rw other (IsCut-cons d c s (cut (code d) s) other (cut-IsCut d s))
]

join-cons-split_n :
    (a b sep : String) (d n : ℕ)
    → join (a ∷ split_n b d (suc n)) sep ≡ a ++ sep ++ join (split_n b d (suc n)) sep
unfolding join split_n
join-cons-split_n a b sep d zero = refl
join-cons-split_n a b sep d (suc n) =
    elim (cut d b)
      as (λ o.
        join (a ∷ (elim o [ none ↦ b ∷ [] | some (x, y) ↦ x ∷ split_n y d (suc n) ])) sep
        ≡ a ++ sep ++ join (elim o [ none ↦ b ∷ [] | some (x, y) ↦ x ∷ split_n y d (suc n) ]) sep) [
          | none ↦ refl
          | some (x, y) ↦ refl
        ]

-- Splitting with a positive limit loses nothing.
pub join-split_n : (s : String) (d : Char) (n : ℕ) → join (split_n s (code d) (suc n)) (d ∷ []) ≡ s
unfolding join split_n
join-split_n s d zero = refl
join-split_n s d (suc n) = elim (Option-cases (cut (code d) s)) [
  | inl none_left ↦ rw (none_left, split_n)
  | inr ((a, b), found) ↦
      let h : IsCut d s (some (a, b)) = subst (IsCut d s) found (cut-IsCut d s) in
      rw (found, split_n)
        (join-cons-split_n a b (d ∷ []) (code d) n
          ∙ (rw (join-split_n b d n, cons-append, nil-append) (sym h.0)))
]

pub has_char-middle : (d : Char) (s t : String) → has_char (code d) (s ++ (d ∷ t)) ≡ true
unfolding has_char
has_char-middle d [] t = rw nil-append (ground arith)
has_char-middle d (c ∷ s) t = rw cons-append (ground (arith, has_char-middle d s t))

-- The first separator of a text is in one place only.
pub cut_unique :
    (d : Char) (a b s t : String)
    → has_char (code d) a ≡ false
    → has_char (code d) b ≡ false
    → a ++ (d ∷ s) ≡ b ++ (d ∷ t)
    → (a ≡ b) × (s ≡ t)
cut_unique d a b s t ha hb e =
    let same : ◌≡◌ {A = Option (String × String)} (some (a, s)) (some (b, t)) =
      sym (cut-append d a s ha) ∙ ap (cut (code d)) e ∙ cut-append d b t hb in
    (cc, cc)

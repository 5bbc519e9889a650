-- ===== src/AuthToken/Refresh.antt =====
-- When a token is refreshed (ShouldRefresh, conjurapi/authn/auth_token.go).
use native.Mathlib.Nat.{div-add-mod', mod-lt, suc-mul}
use Prim.Native.String.{String}
use conjur_api_go.Common.{
  ℕ, zero, suc, ◌+◌, ◌-◌, ◌*◌, ◌/◌, ◌%◌, ◌≤◌, ◌<◌, Bool, true, false, Option, none, some, ◌≡◌, ◌||◌,
  ◌&&◌, ltb, eqb, if◌then◌else◌, ◌⊎◌, inl, inr, refl, arith, Bool-cases,
}
use conjur_api_go.AuthToken.{
  Token, second, max_duration, unit_of, round_to, to_float, refresh_after, min_of, should_refresh,
}

-- The unit is 1, or the number has at least 24 binary digits above it.
abbrev IsUnit : ℕ → ℕ → Type 0
IsUnit x u = (0 < u) × ((u ≡ 1) ⊎ (8388608 * u ≤ x))

unit_of-IsUnit : (fuel x u : ℕ) → IsUnit x u → IsUnit x (unit_of fuel x u)
unfolding unit_of
unit_of-IsUnit zero x u h = h
unit_of-IsUnit (suc fuel) x u h = elim (Bool-cases (ltb x (16777216 * u))) [
  | inl small ↦ rw small h
  | inr large ↦ rw large (unit_of-IsUnit fuel x (2 * u) (ground arith))
]

near :
    (u x low rem : ℕ) (up : Bool)
    → low + rem ≡ x
    → (up ≡ true) × (u ≤ 2 * rem) × (rem < u) ⊎ (up ≡ false) × (2 * rem ≤ u)
    → (2 * (if up then low + u else low) ≤ 2 * x + u)
      × (2 * x ≤ 2 * (if up then low + u else low) + u)
near u x low rem up e h = ground arith

-- Rounding moves a number by no more than half a unit.
round_to_bounds :
    (u x : ℕ) → 0 < u → (2 * round_to u x ≤ 2 * x + u) × (2 * x ≤ 2 * round_to u x + u)
unfolding round_to
round_to_bounds u x h =
    let up : Bool = ltb u (2 * (x % u)) || (eqb (2 * (x % u)) u && eqb (x / u % 2) 1) in
    let part : x % u < u = mod-lt x h in
    let side : (up ≡ true) × (u ≤ 2 * (x % u)) × (x % u < u) ⊎ (up ≡ false) × (2 * (x % u) ≤ u) =
      which (2 * (x % u)) u (x % u) (eqb (x / u % 2) 1) part in
    rw (suc-mul (x / u) u) (near u x (x / u * u) (x % u) up (div-add-mod' x u) side)
  where
    which :
        (twice u rem : ℕ) (odd : Bool)
        → rem < u
        → ((ltb u twice || (eqb twice u && odd)) ≡ true) × (u ≤ twice) × (rem < u)
          ⊎ ((ltb u twice || (eqb twice u && odd)) ≡ false) × (twice ≤ u)
    which twice u rem odd h = ground arith

-- A float32 is within one part in 2^24 of the number.
to_float_bounds :
    (x : ℕ) → (16777216 * to_float x ≤ 16777217 * x) × (16777215 * x ≤ 16777216 * to_float x)
unfolding to_float
to_float_bounds x =
    let unit : IsUnit x (unit_of 64 x 1) = unit_of-IsUnit 64 x 1 (omega arith, inl refl) in
    relative (unit_of 64 x 1) (round_to (unit_of 64 x 1) x) unit
      (round_to_bounds (unit_of 64 x 1) x unit.0)
  where
    relative :
        (u r : ℕ)
        → IsUnit x u
        → (2 * r ≤ 2 * x + u) × (2 * x ≤ 2 * r + u)
        → (16777216 * r ≤ 16777217 * x) × (16777215 * x ≤ 16777216 * r)
    relative u r (h, inl e) (k, l) = (omega arith, omega arith)
    relative u r (h, inr e) (k, l) = (omega arith, omega arith)

-- The part of the lifespan after which a token is refreshed is at least 84 percent of it, up to a
-- nanosecond, and no more than the whole.
refresh_after_bounds :
    (lifespan : ℕ)
    → (refresh_after lifespan ≤ lifespan) × (84 * lifespan ≤ 100 * refresh_after lifespan + 100)
unfolding refresh_after
refresh_after_bounds lifespan =
    linear lifespan (to_float lifespan) (to_float (to_float lifespan * 14260634))
      (to_float_bounds lifespan) (to_float_bounds (to_float lifespan * 14260634))
  where
    linear :
        (l f g : ℕ)
        → (16777216 * f ≤ 16777217 * l) × (16777215 * l ≤ 16777216 * f)
        → (16777216 * g ≤ 16777217 * (f * 14260634)) × (16777215 * (f * 14260634) ≤ 16777216 * g)
        → (g / 16777216 ≤ l) × (84 * l ≤ 100 * (g / 16777216) + 100)
    linear l f g (a, b) (c, d) = (omega arith, omega arith)

-- The end of a token's life: its expiry, or else eight minutes after it was issued.
abbrev pub expiry : Token → ℕ
expiry t = elim t.exp [ some e ↦ e | none ↦ t.iat + 480 ]

-- A token is not issued after it expires, as FromJSON sees to.
abbrev pub IsOrdered : Token → Type 0
IsOrdered t = t.iat ≤ expiry t

-- When ShouldRefresh may begin to say so.
abbrev pub IsLate : ℕ → ℕ → Option ℕ → Type 0
IsLate now iat (some e) =
    84 * min_of ((e - iat) * second) max_duration < 100 * (now - iat * second) + 100
IsLate now iat none = (iat + 300) * second < now

min_of_bounds : (a b : ℕ) → min_of a b ≤ a
min_of_bounds a b = ground arith

ltb_of_lt : (a b : ℕ) → a < b → ltb a b ≡ true
ltb_of_lt a b h = ground arith

lt_of_ltb : (a b : ℕ) → ltb a b ≡ true → a < b
lt_of_ltb a b h = ground arith

refresh_by :
    (now iat : ℕ) (exp : Option ℕ) (raw protected payload signature : String)
    → let t : Token = record {
      raw = raw;
      protected = protected;
      payload = payload;
      signature = signature;
      iat = iat;
      exp = exp;
    } in
      IsOrdered t → expiry t * second < now → should_refresh now t ≡ true
unfolding should_refresh
refresh_by now iat (some e) raw protected payload signature h late =
    let lifespan : ℕ = (e - iat) * second in
    let cut : ℕ = min_of lifespan max_duration in
    let part : refresh_after cut ≤ cut = (refresh_after_bounds cut).0 in
    let whole : cut ≤ lifespan = min_of_bounds lifespan max_duration in
    ltb_of_lt (iat * second + refresh_after cut) now
      (passed iat e (refresh_after cut) cut now h late part whole)
  where
    passed :
        (i x s m n : ℕ) → i ≤ x → x * second < n → s ≤ m → m ≤ (x - i) * second → i * second + s < n
    passed i x s m n a b c d = omega arith
refresh_by now iat none raw protected payload signature h late = ground arith

IsLate-by :
    (now iat : ℕ) (exp : Option ℕ) (raw protected payload signature : String)
    → let t : Token = record {
      raw = raw;
      protected = protected;
      payload = payload;
      signature = signature;
      iat = iat;
      exp = exp;
    } in
      should_refresh now t ≡ true → IsLate now iat exp
unfolding should_refresh
IsLate-by now iat (some e) raw protected payload signature h =
    let cut : ℕ = min_of ((e - iat) * second) max_duration in
    reached cut (refresh_after cut) (refresh_after_bounds cut).1
      (lt_of_ltb (iat * second + refresh_after cut) now h)
  where
    reached :
        (m s : ℕ)
        → 84 * m ≤ 100 * s + 100
        → iat * second + s < now
        → 84 * m < 100 * (now - iat * second) + 100
    reached m s a b = omega arith
IsLate-by now iat none raw protected payload signature h = ground arith

-- ShouldRefresh holds of every token whose expiry is past, or, if it has none, that was issued more
-- than eight minutes ago, when the token is not issued after it expires.
pub should_refresh_of_expired :
    (now : ℕ) (t : Token) → IsOrdered t → expiry t * second < now → should_refresh now t ≡ true
should_refresh_of_expired now t h late =
    refresh_by now t.iat t.exp t.raw t.protected t.payload t.signature h late

-- ShouldRefresh holds of a token only after 84 percent of its lifespan, up to a nanosecond, for all
-- roundings to a float32, where the lifespan is cut at the longest time.Duration; and of a token
-- without expiry only when it was issued more than five minutes ago.
pub should_refresh-IsLate :
    (now : ℕ) (t : Token) → should_refresh now t ≡ true → IsLate now t.iat t.exp
should_refresh-IsLate now t h = IsLate-by now t.iat t.exp t.raw t.protected t.payload t.signature h

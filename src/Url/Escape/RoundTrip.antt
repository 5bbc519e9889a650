-- ===== src/Url/Escape/RoundTrip.antt =====
-- Percent-decoding an escaped text gives its bytes back.
use Prim.Native.Char.{Char, code}
use Prim.Native.Nat.{compare, Ordering}
use Prim.Native.Char.{IsLt, char}
use Prim.Native.String.{String, [], ◌∷◌}
use mathlib.Core.List.{append_assoc}
use conjur_api_go.Common.{
  ℕ, ◌+◌, ◌*◌, ◌/◌, ◌%◌, ◌<◌, Bool, true, false, Option, none, some, List, [], ◌∷◌, ◌++◌, ◌≡◌, refl,
  sym, ap, ◌∙◌, arith, eqb, Bool-cases, inl, inr, All, holds_below, holds_below_lem,
}
use conjur_api_go.Url.Escape.{
  is_path_safe, char_bytes, utf8, hex_digit, escape_bytes, escape_by, path_escape, unhex, plain,
  after_percent, after_digit, put_bytes, unescape_from, unescape,
}

found_is : Option ℕ → ℕ → Bool
found_is none n = false
found_is (some m) n = eqb m n

unhex_table : holds_below (λ n. found_is (unhex (code (hex_digit n))) n) 16 ≡ true
unfolding holds_below found_is unhex hex_digit
unhex_table = refl

found_is_sound : (o : Option ℕ) (n : ℕ) → found_is o n ≡ true → o ≡ some n
unfolding found_is
found_is_sound none n h = cc
found_is_sound (some m) n h = ground arith

unhex-hex_digit : (n : ℕ) → n < 16 → unhex (code (hex_digit n)) ≡ some n
unhex-hex_digit n h = found_is_sound _ n (holds_below_lem _ 16 h unhex_table)

put_bytes-append :
    (bs cs : List ℕ) (o : Option (List ℕ)) → put_bytes bs (put_bytes cs o) ≡ put_bytes (bs ++ cs) o
unfolding put_bytes
put_bytes-append bs cs none = refl
put_bytes-append bs cs (some m) = ap some (sym (append_assoc bs cs m))

put_bytes-nil : (o : Option (List ℕ)) → put_bytes [] o ≡ o
unfolding put_bytes
put_bytes-nil none = refl
put_bytes-nil (some m) = refl

abbrev IsByte : ℕ → Type 0
IsByte b = b < 256

first_digit :
    (c : Char) (s : String) (n : ℕ)
    → unhex (code c) ≡ some n
    → unescape_from after_percent (c ∷ s) ≡ unescape_from (after_digit n) s
unfolding unescape_from
first_digit c s n e = rw (e, unescape_from)

second_digit :
    (c : Char) (s : String) (high n : ℕ)
    → unhex (code c) ≡ some n
    → unescape_from (after_digit high) (c ∷ s)
      ≡ put_bytes ((high * 16 + n) ∷ []) (unescape_from plain s)
unfolding unescape_from
second_digit c s high n e = rw (e, unescape_from)

unescape-escape_bytes :
    (bs : List ℕ) (rest : String)
    → All IsByte bs
    → unescape_from plain (escape_bytes bs rest) ≡ put_bytes bs (unescape_from plain rest)
unfolding escape_bytes unescape_from
unescape-escape_bytes [] rest h = sym (put_bytes-nil (unescape_from plain rest))
unescape-escape_bytes (b ∷ bs) rest (h, hs) =
    let whole : b / 16 * 16 + b % 16 ≡ b = omega arith in
    let second : String = hex_digit (b % 16) ∷ escape_bytes bs rest in
    first_digit (hex_digit (b / 16)) second (b / 16) (unhex-hex_digit (b / 16) (omega arith))
    ∙ second_digit (hex_digit (b % 16)) (escape_bytes bs rest) (b / 16) (b % 16)
        (unhex-hex_digit (b % 16) (omega arith))
    ∙ rw (whole, unescape-escape_bytes bs rest hs)
        (put_bytes-append (b ∷ []) bs (unescape_from plain rest))

abbrev Both : Ordering → Ordering → Type 0
Both Ordering.lt o = IsLt o
Both Ordering.eq _ = ⊥
Both Ordering.gt _ = ⊥

abbrev Scalar : Ordering → Ordering → Ordering → Type 0
Scalar Ordering.lt _ _ = Unit
Scalar Ordering.eq o p = Both o p
Scalar Ordering.gt o p = Both o p

bound_by :
    (n : ℕ) (o p q : Ordering)
    → compare n 55296 ≡ o
    → compare n 1114112 ≡ q
    → Scalar o p q
    → n < 1114112
bound_by n Ordering.lt p q e f s = ground arith
bound_by n Ordering.eq Ordering.lt Ordering.lt e f s = ground arith
bound_by n Ordering.eq Ordering.lt Ordering.eq e f s = absurd s
bound_by n Ordering.eq Ordering.lt Ordering.gt e f s = absurd s
bound_by n Ordering.eq Ordering.eq q e f s = absurd s
bound_by n Ordering.eq Ordering.gt q e f s = absurd s
bound_by n Ordering.gt Ordering.lt Ordering.lt e f s = ground arith
bound_by n Ordering.gt Ordering.lt Ordering.eq e f s = absurd s
bound_by n Ordering.gt Ordering.lt Ordering.gt e f s = absurd s
bound_by n Ordering.gt Ordering.eq q e f s = absurd s
bound_by n Ordering.gt Ordering.gt q e f s = absurd s

code_bound : (c : Char) → code c < 1114112
code_bound (char n p) =
    bound_by n (compare n 55296) (compare 57343 n) (compare n 1114112) refl refl p

char_bytes-IsByte : (c : ℕ) → c < 1114112 → All IsByte (char_bytes c)
unfolding char_bytes
char_bytes-IsByte c h = ground arith

-- Escaping by a test that does not leave the percent sign loses nothing.
unescape-escape_by :
    (safe : ℕ → Bool) (s : String)
    → safe b'%' ≡ false
    → unescape_from plain (escape_by safe s) ≡ some (utf8 s)
unfolding escape_by utf8 put_bytes unescape_from
unescape-escape_by safe [] h = refl
unescape-escape_by safe (c ∷ s) h =
    let ih = unescape-escape_by safe s h in
    elim (Bool-cases (safe (code c))) [
      | inl kept ↦
          let literal : eqb (code c) b'%' ≡ false = ground arith in
          rw kept (rw literal (rw ih refl))
      | inr escaped ↦ rw escaped (
          unescape-escape_bytes (char_bytes (code c)) (escape_by safe s)
            (char_bytes-IsByte (code c) (code_bound c))
          ∙ rw ih refl)
    ]

-- Percent-decoding what url.PathEscape returns gives the bytes of the text.
pub unescape-path_escape : (s : String) → unescape (path_escape s) ≡ some (utf8 s)
unfolding unescape path_escape
unescape-path_escape s = unescape-escape_by is_path_safe s refl

-- ===== src/Url/Escape/Safe.antt =====
-- Which characters an escaped text holds.
use Prim.Native.Char.{Char, code}
use Prim.Native.String.{String, [], ◌∷◌}
use conjur_api_go.Common.{
  ℕ, zero, suc, ◌/◌, ◌%◌, Bool, true, false, List, [], ◌∷◌, ◌&&◌, ◌≡◌, ◌≢◌, refl, sym, ap, ◌∙◌,
  arith, eqb, Bool-cases, inl, inr,
}
use conjur_api_go.Common.Text.{has_char, nth_char}
use conjur_api_go.Url.Escape.{
  is_unreserved, is_path_safe, char_bytes, hex_digit, escape_bytes, escape_by, path_escape,
}
use conjur_api_go.Url.Path.Joined.{IsSegment}

all_unreserved : String → Bool
all_unreserved [] = true
all_unreserved (c ∷ s) = is_unreserved (code c) && all_unreserved s

nth_char_unreserved :
    (s : String) (n : ℕ) (c : Char)
    → all_unreserved s ≡ true
    → is_unreserved (code c) ≡ true
    → is_unreserved (code (nth_char s n c)) ≡ true
unfolding all_unreserved
nth_char_unreserved [] n c h k = k
nth_char_unreserved (d ∷ s) zero c h k = ground arith
nth_char_unreserved (d ∷ s) (suc n) c h k = ground (arith, nth_char_unreserved s n c)

hex_digit_unreserved : (n : ℕ) → is_unreserved (code (hex_digit n)) ≡ true
unfolding hex_digit all_unreserved is_unreserved
hex_digit_unreserved n = nth_char_unreserved "0123456789ABCDEF" n "0" refl refl

module _ (d : ℕ) (reserved : is_unreserved d ≡ false) (other : d ≢ b'%') where
  no_hex_digit : (n : ℕ) → eqb (code (hex_digit n)) d ≡ false
  no_hex_digit n = elim (Bool-cases (eqb (code (hex_digit n)) d)) [
    | inl same ↦
        let e : code (hex_digit n) ≡ d = ground arith in ground (arith, hex_digit_unreserved n)
    | inr differ ↦ differ
  ]

  escape_bytes-without :
      (bs : List ℕ) (rest : String)
      → has_char d rest ≡ false
      → has_char d (escape_bytes bs rest) ≡ false
  unfolding escape_bytes has_char
  escape_bytes-without [] rest h = h
  escape_bytes-without (b ∷ bs) rest h =
      rw (no_hex_digit (b / 16), no_hex_digit (b % 16))
        (ground (arith, escape_bytes-without bs rest h))

  escape_by-without :
      (safe : ℕ → Bool) (s : String) → safe d ≡ false → has_char d (escape_by safe s) ≡ false
  unfolding escape_by has_char
  escape_by-without safe [] h = refl
  escape_by-without safe (c ∷ s) h =
      let rest = escape_by-without safe s h in
      elim (Bool-cases (safe (code c))) [
        | inl kept ↦ rw kept (ground arith)
        | inr escaped ↦
            rw escaped (escape_bytes-without (char_bytes (code c)) (escape_by safe s) rest)
      ]

-- A segment of a path escaped by url.PathEscape holds the percent sign, the unreserved characters
-- and $ & + : = @ only; so no slash, question mark, number sign or space.
pub path_escape-without :
    (d : ℕ) (s : String) → is_path_safe d ≡ false → d ≢ b'%' → has_char d (path_escape s) ≡ false
unfolding path_escape
path_escape-without d s h other = escape_by-without d (ground arith) other is_path_safe s h

escape_bytes-percent :
    (c : ℕ) (rest : String) → has_char b'%' (escape_bytes (char_bytes c) rest) ≡ true
unfolding escape_bytes char_bytes has_char
escape_bytes-percent c rest = ground arith

-- What holds no percent sign was not escaped.
escape_by_of_no_percent :
    (safe : ℕ → Bool) (s : String) → has_char b'%' (escape_by safe s) ≡ false → escape_by safe s ≡ s
unfolding escape_by has_char
escape_by_of_no_percent safe [] h = refl
escape_by_of_no_percent safe (c ∷ s) h = elim (Bool-cases (safe (code c))) [
  | inl kept ↦
      let h' = rw kept at h in
      rw kept (ap (λ t. c ∷ t) (escape_by_of_no_percent safe s (ground arith)))
  | inr escaped ↦ let h' = rw escaped at h in cc (escape_bytes-percent (code c) (escape_by safe s))
]

path_escape_of_no_percent : (s t : String) → has_char b'%' t ≡ false → path_escape s ≡ t → s ≡ t
unfolding path_escape
path_escape_of_no_percent s t h e =
    sym (escape_by_of_no_percent is_path_safe s (ap (has_char b'%') e ∙ h)) ∙ e

-- A text that is not empty, "." or ".." is escaped to one proper segment of a path.
pub path_escape-IsSegment : (s : String) → s ≢ "" → s ≢ "." → s ≢ ".." → IsSegment (path_escape s)
unfolding has_char is_path_safe
path_escape-IsSegment s h0 h1 h2 = (
  λ e. h0 (path_escape_of_no_percent s "" refl e),
  λ e. h1 (path_escape_of_no_percent s "." refl e),
  λ e. h2 (path_escape_of_no_percent s ".." refl e),
  path_escape-without b'/' s refl (omega arith),
)

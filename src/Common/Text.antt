-- ===== src/Common/Text.antt =====
-- Go's package strings, over texts as lists of characters: what the program calls of it.
pub mod Lemmas
use Prim.Native.Nat.{ℕ, zero, suc, ◌-◌}
use Prim.Native.Char.{Char, code}
use Prim.Native.String
use Prim.Native.String.{String, [], ◌∷◌, ◌++◌}
use mathlib.Core.Bool.{Bool, true, false, ◌&&◌, ◌||◌}
use mathlib.Core.Option.{Option, none, some}
use mathlib.Core.Path.{◌≡◌, refl}
use mathlib.Core.List.{List, [], ◌∷◌}
use text.Mathlib.Text.{◌==◌}
use conjur_api_go.Common.Tests.{leb, eqb, if◌then◌else◌, is_some}

-- What is left of `s` behind the prefix `p`, if `s` begins with it.
unfoldable pub cut_prefix : String → String → Option String
cut_prefix s [] = some s
cut_prefix [] (d ∷ p) = none
cut_prefix (c ∷ s) (d ∷ p) = if eqb (code c) (code d) then cut_prefix s p else none

-- strings.HasPrefix(s, p)
unfoldable pub has_prefix : String → String → Bool
unfolding cut_prefix
has_prefix s p = is_some (cut_prefix s p)

-- strings.TrimPrefix(s, p)
unfoldable pub trim_prefix : String → String → String
unfolding cut_prefix
trim_prefix s p = elim (cut_prefix s p) [ none ↦ s | some rest ↦ rest ]

-- strings.HasSuffix(s, p)
unfoldable pub has_suffix : String → String → Bool
has_suffix [] p = [] == p
has_suffix (c ∷ s) p = (c ∷ s) == p || has_suffix s p

-- strings.TrimSuffix(s, p)
unfoldable pub trim_suffix : String → String → String
trim_suffix [] p = []
trim_suffix (c ∷ s) p = let rest = trim_suffix s p in if (c ∷ s) == p then [] else c ∷ rest

-- strings.Contains(s, p)
unfoldable pub contains : String → String → Bool
unfolding has_prefix
contains [] p = p == []
contains (c ∷ s) p = has_prefix (c ∷ s) p || contains s p

-- Does the character with the code `d` occur?
unfoldable pub has_char : ℕ → String → Bool
has_char d [] = false
has_char d (c ∷ s) = eqb (code c) d || has_char d s

abbrev cons_first : Char → Option (String × String) → Option (String × String)
cons_first c none = none
cons_first c (some (a, b)) = some (c ∷ a, b)

-- The texts before and behind the first character with the code `d`.
unfoldable pub cut : ℕ → String → Option (String × String)
cut d [] = none
cut d (c ∷ s) = let rest = cut d s in if eqb (code c) d then some ([], s) else cons_first c rest

-- strings.SplitN(s, sep, n) for a separator of one character, which is given by its code
unfoldable pub split_n : String → ℕ → ℕ → List String
unfolding cut
split_n s d zero = []
split_n s d (suc zero) = s ∷ []
split_n s d (suc (suc n)) = elim (cut d s) [ none ↦ s ∷ [] | some (a, b) ↦ a ∷ split_n b d (suc n) ]

-- strings.Join(parts, sep)
unfoldable pub join : List String → String → String
join [] sep = []
join (s ∷ []) sep = s
join (s ∷ (t ∷ more)) sep = s ++ sep ++ join (t ∷ more) sep

-- unicode.IsSpace
unfoldable pub is_space : ℕ → Bool
is_space c =
    (leb 9 c && leb c 13)
    || eqb c 32
    || eqb c 0x85
    || eqb c 0xA0
    || eqb c 0x1680
    || (leb 0x2000 c && leb c 0x200a)
    || eqb c 0x2028
    || eqb c 0x2029
    || eqb c 0x202f
    || eqb c 0x205f
    || eqb c 0x3000

trim_left : String → String
unfolding is_space
trim_left [] = []
trim_left (c ∷ s) = let rest = trim_left s in if is_space (code c) then rest else c ∷ s

trim_right : String → String
unfolding is_space
trim_right [] = []
trim_right (c ∷ s) =
    let rest = trim_right s in if is_space (code c) && rest == [] then [] else c ∷ rest

-- strings.TrimSpace(s)
unfoldable pub trim_space : String → String
unfolding trim_left trim_right
trim_space s = trim_left (trim_right s)

abbrev pub nth_char : String → ℕ → Char → Char
nth_char [] n c = c
nth_char (d ∷ s) zero c = d
nth_char (d ∷ s) (suc n) c = nth_char s n c

-- unicode.ToLower, where the result is ASCII: the two last tests are the letters U+0130 and U+212A.
-- Other capitals outside ASCII are left as they are; their lower case is outside ASCII too.
lower_char : Char → Char
lower_char c =
    if leb b'A' (code c) && leb (code c) b'Z'
    then nth_char "abcdefghijklmnopqrstuvwxyz" (code c - b'A') c
    else if eqb (code c) 0x130
    then nth_char "i" 0 c
    else if eqb (code c) 0x212A
    then nth_char "k" 0 c
    else c

-- strings.ToLower(s)
unfoldable pub to_lower : String → String
unfolding lower_char
to_lower [] = []
to_lower (c ∷ s) = lower_char c ∷ to_lower s

text_tests :
    (to_lower (trim_space " ReadOnly ") == "readonly")
      && (trim_suffix "a/b/" "/" == "a/b")
      && has_suffix "x.cyberark.cloud" ".cyberark.cloud"
      && contains "a/api/b" "/api"
      && (join (split_n "a:b:c:d" b':' 3) "|" == "a|b|c:d")
      && (trim_prefix "v1.2" "v" == "1.2")
    ≡ true
unfolding to_lower trim_space trim_suffix has_suffix contains split_n join trim_prefix
text_tests = refl

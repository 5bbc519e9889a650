-- ===== src/Url/Escape.antt =====
-- Go's url.PathEscape and url.QueryEscape, which the request builders call
-- (conjurapi/router_url.go, conjurapi/requests.go), and percent-decoding.
pub mod Safe
pub mod RoundTrip
use Prim.Native.Char.{Char, code}
use Prim.Native.String.{String, [], ◌∷◌}
use conjur_api_go.Common.{
  ℕ, zero, suc, ◌+◌, ◌-◌, ◌*◌, ◌/◌, ◌%◌, Bool, true, false, Option, none, some, List, [], ◌∷◌, ◌++◌,
  ◌&&◌, ◌||◌, leb, ltb, eqb, ◌≡◌, refl, if◌then◌else◌,
}
use conjur_api_go.Common.Text.{nth_char}

-- The letters, the digits and - _ . ~
unfoldable pub is_unreserved : ℕ → Bool
is_unreserved c =
    (leb b'a' c && leb c b'z')
    || (leb b'A' c && leb c b'Z')
    || (leb b'0' c && leb c b'9')
    || eqb c b'-'
    || eqb c b'_'
    || eqb c b'.'
    || eqb c b'~'

-- What url.PathEscape leaves: the unreserved characters and $ & + : = @
unfoldable pub is_path_safe : ℕ → Bool
unfolding is_unreserved
is_path_safe c =
    is_unreserved c
    || eqb c b'$'
    || eqb c b'&'
    || eqb c b'+'
    || eqb c b':'
    || eqb c b'='
    || eqb c b'@'

-- The bytes of a character in UTF-8.
unfoldable pub char_bytes : ℕ → List ℕ
char_bytes c =
    if ltb c 0x80
    then c ∷ []
    else if ltb c 0x800
    then (0xC0 + c / 64) ∷ (0x80 + c % 64) ∷ []
    else if ltb c 0x10000
    then (0xE0 + c / 4096) ∷ (0x80 + c / 64 % 64) ∷ (0x80 + c % 64) ∷ []
    else (0xF0 + c / 262144) ∷ (0x80 + c / 4096 % 64) ∷ (0x80 + c / 64 % 64) ∷ (0x80 + c % 64) ∷ []

-- []byte(s)
unfoldable pub utf8 : String → List ℕ
unfolding char_bytes
utf8 [] = []
utf8 (c ∷ s) = char_bytes (code c) ++ utf8 s

unfoldable pub hex_digit : ℕ → Char
hex_digit n = nth_char "0123456789ABCDEF" n "0"

abbrev pub percent : Char
percent = "%"

abbrev pub plus : Char
plus = "+"

-- Each byte as a percent sign and two digits, in front of a text.
unfoldable pub escape_bytes : List ℕ → String → String
escape_bytes [] rest = rest
escape_bytes (b ∷ bs) rest =
    percent ∷ (hex_digit (b / 16) ∷ (hex_digit (b % 16) ∷ escape_bytes bs rest))

-- Escaping by a test for the characters that are left as they are.
unfoldable pub escape_by : (ℕ → Bool) → String → String
unfolding escape_bytes char_bytes
escape_by safe [] = []
escape_by safe (c ∷ s) =
    let rest = escape_by safe s in
    if safe (code c) then c ∷ rest else escape_bytes (char_bytes (code c)) rest

-- url.PathEscape(s)
unfoldable pub path_escape : String → String
unfolding escape_by hex_digit is_path_safe
path_escape s = escape_by is_path_safe s

-- url.QueryEscape(s): a space becomes "+".
unfoldable pub query_escape : String → String
unfolding escape_bytes hex_digit char_bytes is_unreserved
query_escape [] = []
query_escape (c ∷ s) =
    let rest = query_escape s in
    if eqb (code c) b' '
    then plus ∷ rest
    else if is_unreserved (code c)
    then c ∷ rest
    else escape_bytes (char_bytes (code c)) rest

-- Percent-decoding, which a server applies to a segment of a path: the bytes, or nothing where a
-- percent sign is not followed by two hexadecimal digits.
unfoldable pub unhex : ℕ → Option ℕ
unhex c =
    if leb b'0' c && leb c b'9'
    then some (c - b'0')
    else if leb b'A' c && leb c b'F'
    then some (c - b'A' + 10)
    else if leb b'a' c && leb c b'f'
    then some (c - b'a' + 10)
    else none

pub data Mode : Type 0 where
  plain after_percent : Mode
  after_digit : ℕ → Mode

unfoldable pub put_bytes : List ℕ → Option (List ℕ) → Option (List ℕ)
put_bytes bs none = none
put_bytes bs (some more) = some (bs ++ more)

unfoldable pub unescape_from : Mode → String → Option (List ℕ)
unescape_from plain [] = some []
unescape_from plain (c ∷ s) =
    let escaped = unescape_from after_percent s in
    let literal = put_bytes (char_bytes (code c)) (unescape_from plain s) in
    if eqb (code c) b'%' then escaped else literal
unescape_from after_percent [] = none
unescape_from after_percent (c ∷ s) = elim (unhex (code c)) [
  | none ↦ none
  | some high ↦ unescape_from (after_digit high) s
]
unescape_from (after_digit high) [] = none
unescape_from (after_digit high) (c ∷ s) = elim (unhex (code c)) [
  | none ↦ none
  | some low ↦ put_bytes ((high * 16 + low) ∷ []) (unescape_from plain s)
]

unfoldable pub unescape : String → Option (List ℕ)
unfolding unescape_from put_bytes unhex char_bytes
unescape s = unescape_from plain s

escape_tests :
    (path_escape "a/b c%é" ≡ "a%2Fb%20c%25%C3%A9")
    × (query_escape "a/b c+é" ≡ "a%2Fb+c%2B%C3%A9")
    × (unescape "a%2Fb" ≡ some (97 ∷ 47 ∷ 98 ∷ []))
unfolding path_escape query_escape unescape
escape_tests = (refl, refl, refl)

-- ===== src/Version/Page.antt =====
-- The version in the page that older servers show at their root (parseVersionFromHTML,
-- conjurapi/info.go): the regular expression <dd>\s*Version\s*([^\s<]+)\s*<\/dd> and its capture.
use Prim.Native.Char.{code}
use Prim.Native.String.{String, [], ◌∷◌}
use conjur_api_go.Common.{ℕ, Bool, Option, none, some, ◌==◌, ◌||◌, ◌≡◌, refl, eqb, if◌then◌else◌}
use conjur_api_go.Common.Text.{cut_prefix, has_prefix}

-- \s
unfoldable pub is_blank : ℕ → Bool
is_blank c = eqb c 9 || eqb c 10 || eqb c 12 || eqb c 13 || eqb c 32

-- \s*
unfoldable pub skip_blanks : String → String
unfolding is_blank
skip_blanks [] = []
skip_blanks (c ∷ s) = let rest = skip_blanks s in if is_blank (code c) then rest else c ∷ s

-- [^\s<]*, and what is left behind it
unfoldable pub take_word : String → String × String
unfolding is_blank
take_word [] = ([], [])
take_word (c ∷ s) =
    let (word, rest) = take_word s in
    if is_blank (code c) || eqb (code c) b'<' then ([], c ∷ s) else (c ∷ word, rest)

closed : String × String → Option String
closed (word, rest) =
    if word == "" then none else if has_prefix (skip_blanks rest) "</dd>" then some word else none

versioned : Option String → Option String
unfolding closed
versioned none = none
versioned (some s) = closed (take_word (skip_blanks s))

opened : Option String → Option String
unfolding versioned
opened none = none
opened (some s) = versioned (cut_prefix (skip_blanks s) "Version")

-- The capture of a match at the beginning. No choice of the expression is ever taken back: a
-- shorter word would be followed by neither a blank nor "<".
unfoldable pub match_here : String → Option String
unfolding opened
match_here s = opened (cut_prefix s "<dd>")

first_of : Option String → Option String → Option String
first_of none later = later
first_of (some v) later = some v

-- parseVersionFromHTML: the capture of the leftmost match
unfoldable pub parse_version_from_html : String → Option String
unfolding match_here first_of
parse_version_from_html [] = none
parse_version_from_html (c ∷ s) = first_of (match_here (c ∷ s)) (parse_version_from_html s)

page_test :
    parse_version_from_html "<dl><dd>Status</dd> <dd>\n Version 1.21.0.1-25 </dd></dl>"
    ≡ some "1.21.0.1-25"
unfolding parse_version_from_html cut_prefix has_prefix skip_blanks take_word
page_test = refl

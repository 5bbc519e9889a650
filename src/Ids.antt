-- ===== src/Ids.antt =====
-- Resource identifiers, <account>:<kind>:<identifier> (conjurapi/requests.go).
pub mod Full
pub mod Parse
mod Examples
use conjur_api_go.Common.{
  ℕ, zero, suc, String, Bool, true, false, ◌&&◌, ◌||◌, not, List, [], ◌∷◌, ◌==◌, ltb, length,
  if◌then◌else◌, Result, ok, err,
}
use conjur_api_go.Common.Text.{split_n, join}
use Prim.Native.String.{◌++◌}

-- tokens[i]; an index out of range does not occur (three tokens stand there, see `Full`).
unfoldable pub token : List String → ℕ → String
token [] i = ""
token (t ∷ ts) zero = t
token (t ∷ ts) (suc i) = token ts i

-- The switch of makeFullID on the number of tokens.
unfoldable pub qualify : String → String → List String → List String
qualify account kind (t ∷ []) = account ∷ kind ∷ t ∷ []
qualify account kind (t ∷ (u ∷ [])) = account ∷ t ∷ u ∷ []
qualify account kind tokens = tokens

-- The last test of makeFullID and what it returns.
unfoldable pub settle : String → String → String → List String → String
unfolding token
settle account kind id tokens =
    if (not (account == "") && not (account == token tokens 0))
      || (not (kind == "") && not (kind == token tokens 1))
    then join (account ∷ kind ∷ id ∷ []) ":"
    else join tokens ":"

unfoldable pub make_full_id : String → String → String → String
unfolding qualify settle
make_full_id account kind id = settle account kind id (qualify account kind (split_n id b':' 3))

-- for len(tokens) < 3: three rounds are enough for any list.
unfoldable pub pad : ℕ → List String → List String
pad zero tokens = tokens
pad (suc rounds) tokens = elim (ltb (length tokens) 3) [
  | true ↦ pad rounds ("" ∷ tokens)
  | false ↦ tokens
]

-- account, kind and identifier
abbrev pub IdParts : Type 0
IdParts = String × String × String

unfoldable pub unopinionated_parse_id : String → IdParts
unfolding pad token
unopinionated_parse_id id =
    let tokens = pad 3 (split_n id b':' 3) in (token tokens 0, token tokens 1, token tokens 2)

abbrev malformed : String → String
malformed id =
    "Malformed ID '" ++ id
    ++ "': must be fully- or partially-qualified, of form [<account>:]<kind>:<identifier>"

-- `config_account` is c.config.Account.
parse_parts : String → String → IdParts → Result IdParts
parse_parts config_account id (account, kind, identifier) =
    if identifier == "" || kind == ""
    then err (malformed id)
    else ok (if account == "" then config_account else account, kind, identifier)

unfoldable pub parse_id : String → String → Result IdParts
unfolding parse_parts unopinionated_parse_id
parse_id config_account id = parse_parts config_account id (unopinionated_parse_id id)

abbrev malformed_kind : String → String → String
malformed_kind id enforced =
    "Malformed ID '" ++ id ++ "', must represent a " ++ enforced ++ ", of form [[<account>:]"
    ++ enforced ++ ":]<identifier>"

enforce_parts : String → String → String → IdParts → Result IdParts
enforce_parts config_account id enforced (account, kind, identifier) =
    if identifier == "" || (not (kind == "") && not (kind == enforced))
    then err (malformed_kind id enforced)
    else ok (
      if account == "" then config_account else account,
      if kind == "" then enforced else kind,
      identifier,
    )

unfoldable pub parse_id_and_enforce_kind : String → String → String → Result IdParts
unfolding enforce_parts unopinionated_parse_id
parse_id_and_enforce_kind config_account id enforced =
    enforce_parts config_account id enforced (unopinionated_parse_id id)

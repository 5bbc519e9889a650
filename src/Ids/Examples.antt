-- ===== src/Ids/Examples.antt =====
-- Runs of the identifier functions of conjurapi/requests.go, and the theorems at these inputs.
use conjur_api_go.Common.{String, ◌&&◌, ◌==◌, ◌≡◌, ◌≢◌, ◌↔◌, refl, true, arith, eq_iff, ok}
use conjur_api_go.Common.Text.{has_char, split_n, join}
use conjur_api_go.Ids.{make_full_id, parse_id, parse_id_and_enforce_kind}
use conjur_api_go.Ids.Full.{
  Denotes, Denotes-of_clean, full_id, make_full_id-Made, parse_id-make_full_id,
}
use conjur_api_go.Ids.Parse.{Accepted, AcceptedAs, parse_id_iff, parse_id_and_enforce_kind_iff}

full_tests :
    (make_full_id "dev" "variable" "a/b" == "dev:variable:a/b")
      && (make_full_id "dev" "variable" "variable:a/b" == "dev:variable:a/b")
      && (make_full_id "dev" "variable" "dev:variable:a:b" == "dev:variable:a:b")
      && (make_full_id "dev" "variable" "foo:bar:baz" == "dev:variable:foo:bar:baz")
    ≡ true
unfolding make_full_id split_n join
full_tests = refl

full_test_policy : make_full_id "dev" "variable" "policy:x" ≡ "dev:variable:policy:x"
unfolding make_full_id split_n join
full_test_policy = refl

parse_tests :
    (parse_id "dev" "prod:user:alice" ≡ ok ("prod", "user", "alice"))
    × (parse_id "dev" "user:alice" ≡ ok ("dev", "user", "alice"))
    × (parse_id_and_enforce_kind "dev" "alice" "user" ≡ ok ("dev", "user", "alice"))
unfolding parse_id split_n parse_id_and_enforce_kind
parse_tests = (refl, refl, refl)

dev_named : ◌≢◌ {A = String} "dev" ""
dev_named = ground (arith, eq_iff "dev" "")

variable_named : ◌≢◌ {A = String} "variable" ""
variable_named = ground (arith, eq_iff "variable" "")

make_full_id-Made_example :
    (i : String) × Denotes "dev" "variable" "foo:bar:baz" i
    × (make_full_id "dev" "variable" "foo:bar:baz" ≡ full_id "dev" "variable" i)
unfolding has_char
make_full_id-Made_example =
    make_full_id-Made "dev" "variable" dev_named variable_named refl refl "foo:bar:baz"

denoted_named : (i : String) → Denotes "dev" "variable" "a/b" i → i ≢ ""
unfolding has_char
denoted_named i d =
    ground (arith, Denotes-of_clean "dev" "variable" "a/b" i refl d, eq_iff "a/b" "")

parse_id-make_full_id_example :
    (i : String) × Denotes "dev" "variable" "a/b" i
    × (parse_id "prod" (make_full_id "dev" "variable" "a/b") ≡ ok ("dev", "variable", i))
unfolding has_char
parse_id-make_full_id_example =
    parse_id-make_full_id "dev" "variable" dev_named variable_named refl refl "prod" "a/b"
      denoted_named

parse_id_iff_example :
    (parse_id "dev" "user:alice" ≡ ok ("dev", "user", "alice"))
    ↔ Accepted "dev" "user:alice" ("dev", "user", "alice")
parse_id_iff_example = parse_id_iff "dev" "user:alice" ("dev", "user", "alice")

parse_id_and_enforce_kind_iff_example :
    (parse_id_and_enforce_kind "dev" "alice" "user" ≡ ok ("dev", "user", "alice"))
    ↔ AcceptedAs "dev" "alice" "user" ("dev", "user", "alice")
parse_id_and_enforce_kind_iff_example =
    parse_id_and_enforce_kind_iff "dev" "alice" "user" ("dev", "user", "alice")

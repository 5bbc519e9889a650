-- ===== src/Requests/Json.antt =====
-- encoding/json, as far as the payloads of requests need it (conjurapi/client_v2.go and the files
-- beside it that build requests with a JSON body). Numbers are integers.
use Prim.Native.Char.{Char, code}
use Prim.Native.String.{String, [], ◌∷◌, ◌++◌}
use conjur_api_go.Common.{
  ℕ, ℤ, pos, ◌/◌, ◌%◌, Bool, true, false, Option, none, some, Result, ok, err, List, [], ◌∷◌, ◌≡◌,
  refl, ◌==◌, ◌||◌, ltb, eqb, if◌then◌else◌,
}
use conjur_api_go.Common.Text.{nth_char}
use conjur_api_go.Requests.{itoa}

mutual
  pub data Json : Type 0 where
    null : Json
    bool : Bool → Json
    number : ℤ → Json
    text : String → Json
    array : Items → Json
    object : Fields → Json
    -- A value that json.Marshal refuses, with its error: a channel, a function, a number that is
    -- not finite
    unsupported : String → Json

  pub data Items : Type 0 where
    nil : Items
    item : Json → Items → Items

  -- The fields of an object, in the order in which they are written.
  pub data Fields : Type 0 where
    end : Fields
    field : String → Json → Fields → Fields

abbrev zero_digit : Char
zero_digit = "0"

abbrev hex_digit : ℕ → Char
hex_digit n = nth_char "0123456789abcdef" n zero_digit

-- \u and four hexadecimal digits
hex_escape : ℕ → String
hex_escape n =
    "\\u"
    ++ (hex_digit (n / 4096)
        ∷ hex_digit (n / 256 % 16)
        ∷ hex_digit (n / 16 % 16)
        ∷ hex_digit (n % 16)
        ∷ [])

-- One character of a string of json.Marshal, which escapes for HTML too
escape_char : Char → String
unfolding hex_escape
escape_char c =
    let n = code c in
    if eqb n b'"'
    then "\\\""
    else if eqb n b'\\'
    then "\\\\"
    else if eqb n 8
    then "\\b"
    else if eqb n 12
    then "\\f"
    else if eqb n 10
    then "\\n"
    else if eqb n 13
    then "\\r"
    else if eqb n 9
    then "\\t"
    else if ltb n 32 || eqb n b'<' || eqb n b'>' || eqb n b'&' || eqb n 0x2028 || eqb n 0x2029
    then hex_escape n
    else c ∷ []

unfoldable pub escape : String → String
unfolding escape_char
escape [] = ""
escape (c ∷ s) = escape_char c ++ escape s

quote : String → String
unfolding escape
quote s = "\"" ++ escape s ++ "\""

-- What json.Marshal writes where it refuses nothing
unfoldable mutual
  unfolding quote

  pub print : Json → String
  print null = "null"
  print (bool true) = "true"
  print (bool false) = "false"
  print (number n) = itoa n
  print (text s) = quote s
  print (array items) = "[" ++ print_items true items ++ "]"
  print (object fields) = "{" ++ print_fields true fields ++ "}"
  print (unsupported e) = ""

  pub print_items : Bool → Items → String
  print_items first nil = ""
  print_items first (item x more) = (if first then "" else ",") ++ print x ++ print_items false more

  pub print_fields : Bool → Fields → String
  print_fields first end = ""
  print_fields first (field key x more) =
      (if first then "" else ",") ++ quote key ++ ":" ++ print x ++ print_fields false more

abbrev first_error : Option String → Option String → Option String
first_error none later = later
first_error (some e) later = some e

-- The first value that json.Marshal refuses, by its error
unfoldable mutual
  pub refusal : Json → Option String
  refusal null = none
  refusal (bool b) = none
  refusal (number n) = none
  refusal (text s) = none
  refusal (array items) = items_refusal items
  refusal (object fields) = fields_refusal fields
  refusal (unsupported e) = some e

  pub items_refusal : Items → Option String
  items_refusal nil = none
  items_refusal (item x more) = first_error (refusal x) (items_refusal more)

  pub fields_refusal : Fields → Option String
  fields_refusal end = none
  fields_refusal (field key x more) = first_error (refusal x) (fields_refusal more)

-- json.Marshal
unfoldable pub marshal : Json → Result String
unfolding print refusal
marshal json = elim (refusal json) [ none ↦ ok (print json) | some e ↦ err e ]

-- A field with the option omitempty: it is left out where the value is empty.
abbrev pub unless_empty : Bool → String → Json → Fields → Fields
unless_empty empty key x more = if empty then more else field key x more

abbrev pub text_unless_empty : String → String → Fields → Fields
text_unless_empty key s more = unless_empty (s == "") key (text s) more

abbrev pub texts : List String → Items
texts [] = nil
texts (s ∷ ss) = item (text s) (texts ss)

-- A map from texts to texts, as the list of its entries in the order of the keys
abbrev pub text_fields : List (String × String) → Fields
text_fields [] = end
text_fields ((k, v) ∷ more) = field k (text v) (text_fields more)

abbrev pub is_empty {ℓ} : {A : Type ℓ} → List A → Bool
is_empty [] = true
is_empty (x ∷ xs) = false

print_test :
    print (
      object (
        field "a<" (text "q\"\n") (field "b" (array (item (number (pos 12)) (item null nil))) end)))
    ≡ "{\"a\\u003c\":\"q\\\"\\n\",\"b\":[12,null]}"
unfolding print itoa
print_test = refl

marshal_test :
    marshal (object (field "a" (array (item (unsupported "json: unsupported value: NaN") nil)) end))
    ≡ err "json: unsupported value: NaN"
unfolding marshal
marshal_test = refl

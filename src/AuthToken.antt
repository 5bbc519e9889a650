-- ===== src/AuthToken.antt =====
-- Access tokens (conjurapi/authn/auth_token.go). Decoding JSON and base64 is a parameter.
--
-- An instant counts from the zero of Go's time.Time (the first of January of the year 1): seconds
-- for `iat` and `exp`, nanoseconds for the clock; earlier instants are left out.
pub mod Issued
pub mod Refresh
mod Examples
use Prim.Native.String.{String, ◌++◌}
use conjur_api_go.Common.{
  ℕ, zero, suc, ◌+◌, ◌-◌, ◌*◌, ◌/◌, ◌%◌, Bool, true, false, Option, none, some, List, [], ◌∷◌, ◌==◌,
  ◌&&◌, ◌||◌, ltb, leb, eqb, is_some, if◌then◌else◌,
}

pub record Token : Type 0 where
  pub raw : String
  pub protected : String
  pub payload : String
  pub signature : String
  pub iat : ℕ
  pub exp : Option ℕ

-- A call may end in a panic.
pub data Outcome {ℓ} (A : Type ℓ) : Type ℓ where
  done : A → Outcome A
  failed : String → Outcome A
  panics : Outcome A

infixl 5 ◌>>=◌
abbrev pub ◌>>=◌ {ℓ κ} : {A : Type ℓ} {B : Type κ} → Outcome A → (A → Outcome B) → Outcome B
done a >>= f = f a
failed e >>= f = failed e
panics >>= f = panics

-- A value of the payload: a number, as int64(v.(float64)) gives it, or another one.
pub data Value : Type 0 where
  number : ℕ → Value
  other : Value

-- What json.Unmarshal and base64.StdEncoding.DecodeString give; `none` is their error.
pub record Codec : Type 0 where
  pub string_fields : String → Option (List (String × String))
  pub token_fields : String → Option (String × String × String)
  pub decode_base64 : String → Option String
  pub payload_fields : String → Option (List (String × Value))

abbrev pub lookup {ℓ} : {A : Type ℓ} → List (String × A) → String → Option A
lookup [] key = none
lookup ((k, v) ∷ fields) key = if k == key then some v else lookup fields key

-- hasField
unfoldable pub has_field : List (String × String) → String → Bool
has_field fields name = is_some (lookup fields name)

abbrev pub has_token_fields : List (String × String) → Bool
has_token_fields fields =
    has_field fields "protected" && has_field fields "payload" && has_field fields "signature"

abbrev required {ℓ} : {A : Type ℓ} → String → Option A → Outcome A
required message none = failed message
required message (some a) = done a

-- v.(float64)
abbrev seconds : Value → Outcome ℕ
seconds (number n) = done n
seconds other = panics

-- The end of FromJSON, from the value of "exp".
with_expiry : Token → Option Value → Outcome Token
with_expiry t none = done t
with_expiry t (some v) = seconds v >>= λ e.
    if ltb e t.iat
    then failed "access token expired before it was issued"
    else done (record t { exp = some e })

-- FromJSON
unfoldable pub from_json : Codec → String → Outcome Token
unfolding with_expiry
from_json codec bytes = do
  (protected, payload, signature) ←
      required "Unable to unmarshal access token" (codec.token_fields bytes)
  payload_json ←
      required "access token field 'payload' is not valid base64" (codec.decode_base64 payload)
  fields ←
      required "Unable to unmarshal access token field 'payload'"
        (codec.payload_fields payload_json)
  iat_v ← required "access token field 'payload' does not contain 'iat'" (lookup fields "iat")
  iat ← seconds iat_v
  with_expiry
      (record {
        raw = bytes;
        protected = protected;
        payload = payload;
        signature = signature;
        iat = iat;
        exp = none;
      })
      (lookup fields "exp")

-- Does the text, decoded, look like a token?
looks_encoded : Codec → Option String → Bool
looks_encoded codec none = false
looks_encoded codec (some decoded) = elim (codec.string_fields decoded) [
  | none ↦ false
  | some fields ↦ has_token_fields fields
]

new_token_from : Codec → String → Option (List (String × String)) → Outcome Token
unfolding from_json looks_encoded
new_token_from codec bytes none =
    if looks_encoded codec (codec.decode_base64 bytes)
    then failed
        "CONJUR_AUTHN_TOKEN appears to be base64-encoded; it should be the raw JSON access token string, not a base64-encoded one"
    else failed "CONJUR_AUTHN_TOKEN is not valid JSON"
new_token_from codec bytes (some fields) =
    let parsed = from_json codec bytes in
    if has_token_fields fields
    then parsed
    else failed
        "CONJUR_AUTHN_TOKEN is missing required fields — expected 'protected', 'payload', and 'signature'"

-- NewToken
unfoldable pub new_token : Codec → String → Outcome Token
unfolding new_token_from
new_token codec bytes = new_token_from codec bytes (codec.string_fields bytes)

abbrev pub second : ℕ
second = 1000000000

-- time.Time.Sub gives no more than the largest time.Duration.
abbrev pub max_duration : ℕ
max_duration = 9223372036854775807

-- The unit in the last place of a float32: the power of two that leaves 24 binary digits. 64
-- doublings are enough below 2^88.
unfoldable pub unit_of : ℕ → ℕ → ℕ → ℕ
unit_of zero x u = u
unit_of (suc fuel) x u =
    let next = unit_of fuel x (2 * u) in if ltb x (16777216 * u) then u else next

-- The nearest multiple of `u`; of two as near, the even one.
unfoldable pub round_to : ℕ → ℕ → ℕ
round_to u x =
    let q = x / u in
    let r = x % u in if ltb u (2 * r) || (eqb (2 * r) u && eqb (q % 2) 1) then suc q * u else q * u

-- float32(x)
unfoldable pub to_float : ℕ → ℕ
unfolding unit_of round_to
to_float x = round_to (unit_of 64 x 1) x

-- time.Duration(float32(lifespan) * 0.85): 0.85 is 14260634 / 2^24 as a float32, and the product is
-- rounded to a float32 and then cut off.
unfoldable pub refresh_after : ℕ → ℕ
unfolding to_float
refresh_after lifespan = to_float (to_float lifespan * 14260634) / 16777216

abbrev pub min_of : ℕ → ℕ → ℕ
min_of a b = if leb a b then a else b

-- ShouldRefresh at an instant of the clock
unfoldable pub should_refresh : ℕ → Token → Bool
unfolding refresh_after
should_refresh now t = elim t.exp [
  | some e ↦ ltb (t.iat * second + refresh_after (min_of ((e - t.iat) * second) max_duration)) now
  | none ↦ ltb (t.iat * second + 300 * second) now
]

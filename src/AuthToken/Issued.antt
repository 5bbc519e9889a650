-- ===== src/AuthToken/Issued.antt =====
-- What a token that NewToken returns is (conjurapi/authn/auth_token.go).
use Prim.Native.String.{String}
use conjur_api_go.Common.{
  ℕ, true, Option, none, some, List, ltb, ◌≡◌, inl, inr, refl, sym, ap, subst, ◌∙◌, arith,
  Bool-cases,
}
use conjur_api_go.AuthToken.{
  Token, Outcome, ◌>>=◌, done, failed, panics, Codec, Value, number, other, lookup,
  has_token_fields, required, seconds, with_expiry, from_json, new_token_from, new_token,
  looks_encoded,
}
use conjur_api_go.AuthToken.Refresh.{IsOrdered}

-- The expiry that the payload names.
abbrev pub Expires : Option Value → Option ℕ → Type 0
Expires none exp = exp ≡ none
Expires (some v) exp = (e : ℕ) × (v ≡ number e) × (exp ≡ some e)

-- A token that holds the data it was read from, with the payload's issue and expiry.
abbrev pub IsIssued : Codec → String → Token → Type 0
IsIssued codec bytes t =
    (t.raw ≡ bytes)
    × IsOrdered t
    × ((payload_json : String) × (fields : List (String × Value)) × (codec.token_fields bytes
          ≡ some (t.protected, t.payload, t.signature))
        × (codec.decode_base64 t.payload ≡ some payload_json)
        × (codec.payload_fields payload_json ≡ some fields)
        × (lookup fields "iat" ≡ some (number t.iat))
        × Expires (lookup fields "exp") t.exp)

-- If the outcome is a value, it has the property.
pub data WhenDone {A : Type 0} (P : A → Type 0) : Outcome A → Type 0 where
  returned : {a : A} → P a → WhenDone P (done a)
  refused : {e : String} → WhenDone P (failed e)
  panicked : WhenDone P panics

WhenDone-bind :
    {A B : Type 0} {P : A → Type 0} {Q : B → Type 0} (m : Outcome A) (f : A → Outcome B)
    → WhenDone P m
    → ((a : A) → P a → WhenDone Q (f a))
    → WhenDone Q (m >>= f)
WhenDone-bind (done a) f (returned h) k = k a h
WhenDone-bind (failed e) f h k = refused
WhenDone-bind panics f h k = panicked

pub WhenDone-map :
    {A : Type 0} {P Q : A → Type 0} (m : Outcome A)
    → ((a : A) → P a → Q a)
    → WhenDone P m
    → WhenDone Q m
WhenDone-map (done a) k (returned h) = returned (k a h)
WhenDone-map (failed e) k h = refused
WhenDone-map panics k h = panicked

required-WhenDone :
    {A : Type 0} (message : String) (o : Option A) → WhenDone (λ a. o ≡ some a) (required message o)
required-WhenDone message none = refused
required-WhenDone message (some a) = returned refl

seconds-WhenDone : (v : Value) → WhenDone (λ n. v ≡ number n) (seconds v)
seconds-WhenDone (number n) = returned refl
seconds-WhenDone other = panicked

abbrev token_of : String → String × String × String → ℕ → Option ℕ → Token
token_of bytes (protected, payload, signature) iat exp = record {
  raw = bytes;
  protected = protected;
  payload = payload;
  signature = signature;
  iat = iat;
  exp = exp;
}

expiry-WhenDone :
    (bytes protected payload signature : String) (iat : ℕ) (v : Option Value)
    → let t : Option ℕ → Token = token_of bytes (protected, payload, signature) iat in
      WhenDone
        (λ u. (exp : Option ℕ) × (u ≡ t exp) × Expires v exp × IsOrdered (t exp))
        (with_expiry (t none) v)
unfolding with_expiry
expiry-WhenDone bytes protected payload signature iat none =
    returned (none, refl, refl, omega arith)
expiry-WhenDone bytes protected payload signature iat (some other) = panicked
expiry-WhenDone bytes protected payload signature iat (some (number e)) =
    elim (Bool-cases (ltb e iat)) [
      | inl early ↦ rw early refused
      | inr late ↦ rw late (returned (some e, refl, (e, refl, refl), ground arith))
    ]

from_json-WhenDone :
    (codec : Codec) (bytes : String) → WhenDone (IsIssued codec bytes) (from_json codec bytes)
unfolding from_json
from_json-WhenDone codec bytes =
    WhenDone-bind _ _
      (required-WhenDone "Unable to unmarshal access token" (codec.token_fields bytes))
      (λ (protected, payload, signature) parts.
        WhenDone-bind _ _
          (required-WhenDone "access token field 'payload' is not valid base64"
            (codec.decode_base64 payload))
          (λ payload_json decoded.
            WhenDone-bind _ _
              (required-WhenDone "Unable to unmarshal access token field 'payload'"
                (codec.payload_fields payload_json))
              (λ fields read.
                WhenDone-bind _ _
                  (required-WhenDone "access token field 'payload' does not contain 'iat'"
                    (lookup fields "iat"))
                  (λ iat_v found. WhenDone-bind _ _ (seconds-WhenDone iat_v) (λ iat issued.
                    WhenDone-map _
                      (λ u (exp, same, expires, ordered). subst (IsIssued codec bytes) (sym same) (
                        refl,
                        ordered,
                        (
                          payload_json,
                          fields,
                          parts,
                          decoded,
                          read,
                          found ∙ ap some issued,
                          expires,
                        ),
                      ))
                      (expiry-WhenDone bytes protected payload signature iat
                        (lookup fields "exp")))))))

new_token-WhenDone :
    (codec : Codec) (bytes : String) (o : Option (List (String × String)))
    → WhenDone
        (λ t.
          IsIssued codec bytes t
          × ((fields : List (String × String)) × (o ≡ some fields)
              × (has_token_fields fields ≡ true)))
        (new_token_from codec bytes o)
unfolding new_token_from
new_token-WhenDone codec bytes none =
    elim (Bool-cases (looks_encoded codec (codec.decode_base64 bytes))) [
      | inl encoded ↦ rw encoded refused
      | inr plain ↦ rw plain refused
    ]
new_token-WhenDone codec bytes (some fields) = elim (Bool-cases (has_token_fields fields)) [
  | inl whole ↦
      rw whole (WhenDone-map _ (λ t h. (h, (fields, refl, whole))) (from_json-WhenDone codec bytes))
  | inr partial ↦ rw partial refused
]

pub WhenDone-done : {A : Type 0} {P : A → Type 0} {a : A} → WhenDone P (done a) → P a
WhenDone-done (returned h) = h

-- A token that NewToken returns without error holds the data itself, whose three fields it was read
-- from; it was issued when its payload, decoded, says, and expires when that says, or never if it
-- does not say; and it does not expire before it was issued.
pub new_token-IsIssued :
    (codec : Codec) (bytes : String) {t : Token}
    → new_token codec bytes ≡ done t
    → IsIssued codec bytes t
      × ((fields : List (String × String)) × (codec.string_fields bytes ≡ some fields)
          × (has_token_fields fields ≡ true))
unfolding new_token
new_token-IsIssued codec bytes e =
    WhenDone-done
      (subst (WhenDone _) e (new_token-WhenDone codec bytes (codec.string_fields bytes)))

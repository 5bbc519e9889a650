-- ===== src/Storage/Names.antt =====
-- Names in the keyring keep namespaces apart (keyringServiceName, conjurapi/storage.go).
use Prim.Native.Char.{Char, code}
use Prim.Native.String.{String, [], ◌∷◌, ◌++◌}
use text.Mathlib.TextLemmas.{nil-append, cons-append, head-eq_of_cons-eq, tail-eq_of_cons-eq}
use conjur_api_go.Common.{
  false, Option, none, ◌==◌, ◌≡◌, ◌≢◌, refl, sym, ap, ap₂, ◌∙◌, arith, eq_iff, inl, inr, Bool-cases,
}
use conjur_api_go.Common.Text.{has_char}
use conjur_api_go.Common.Text.Lemmas.{has_char-middle}
use conjur_api_go.Config.{Config}
use conjur_api_go.Storage.{
  has_invalid_char, validate_keychain_namespace, get_machine_name, keyring_service_name,
}

clash : (d : Char) (b s t : String) → has_char (code d) s ≡ false → s ≢ b ++ (d ∷ t)
clash d b s t h e = cc (sym h ∙ ap (has_char (code d)) e, has_char-middle d b t)

-- The last separator of a text is in one place only.
last_unique :
    (d : Char) (a b s t : String)
    → has_char (code d) s ≡ false
    → has_char (code d) t ≡ false
    → a ++ (d ∷ s) ≡ b ++ (d ∷ t)
    → (a ≡ b) × (s ≡ t)
last_unique d [] [] s t hs ht e =
    (refl, tail-eq_of_cons-eq (sym (nil-append (d ∷ s)) ∙ e ∙ nil-append (d ∷ t)))
last_unique d [] (c ∷ b) s t hs ht e =
    let e' = rw (nil-append, cons-append) at e in absurd (clash d b s t hs (tail-eq_of_cons-eq e'))
last_unique d (c ∷ a) [] s t hs ht e =
    let e' = rw (cons-append, nil-append) at e in
    absurd (clash d a t s ht (sym (tail-eq_of_cons-eq e')))
last_unique d (c ∷ a) (x ∷ b) s t hs ht e =
    let e' = rw (cons-append, cons-append) at e in
    let (p, q) = last_unique d a b s t hs ht (tail-eq_of_cons-eq e') in
    (ap₂ (λ y z. y ∷ z) (head-eq_of_cons-eq e') p, q)

valid-colon_free : (s : String) → has_invalid_char s ≡ false → has_char b':' s ≡ false
unfolding has_invalid_char has_char
valid-colon_free [] h = refl
valid-colon_free (c ∷ s) h = ground (arith, valid-colon_free s)

abbrev colon : Char
colon = ":"

named :
    (c : Config)
    → c.keychain_namespace ≢ ""
    → keyring_service_name c ≡ get_machine_name c ++ (colon ∷ c.keychain_namespace)
unfolding keyring_service_name
named c h =
    let after : ":" ++ c.keychain_namespace ≡ colon ∷ c.keychain_namespace =
      rw (cons-append, nil-append) in
    elim (Bool-cases (c.keychain_namespace == "")) [
      | inl e ↦ absurd (h ((eq_iff c.keychain_namespace "").0 e))
      | inr e ↦ rw (e, after)
    ]

no_invalid :
    (lookup_env : String → Option String) (namespace : String)
    → namespace ≢ ""
    → validate_keychain_namespace lookup_env namespace ≡ none
    → has_invalid_char namespace ≡ false
unfolding validate_keychain_namespace
no_invalid lookup_env namespace h v = elim (Bool-cases (has_invalid_char namespace)) [
  | inr valid ↦ valid
  | inl bad ↦ ground (arith, eq_iff namespace "")
]

validated :
    (lookup_env : String → Option String) (namespace : String)
    → namespace ≢ ""
    → validate_keychain_namespace lookup_env namespace ≡ none
    → has_char b':' namespace ≡ false
validated lookup_env namespace named valid =
    valid-colon_free namespace (no_invalid lookup_env namespace named valid)

-- Two configurations whose namespaces are set and pass validation have the same name in the
-- keyring only if they have the same machine name and the same namespace.
pub keyring_service_name_injective :
    (lookup_env : String → Option String) (a b : Config)
    → a.keychain_namespace ≢ ""
    → b.keychain_namespace ≢ ""
    → validate_keychain_namespace lookup_env a.keychain_namespace ≡ none
    → validate_keychain_namespace lookup_env b.keychain_namespace ≡ none
    → keyring_service_name a ≡ keyring_service_name b
    → (get_machine_name a ≡ get_machine_name b) × (a.keychain_namespace ≡ b.keychain_namespace)
keyring_service_name_injective lookup_env a b ha hb va vb e =
    last_unique ":" (get_machine_name a) (get_machine_name b) a.keychain_namespace
      b.keychain_namespace (validated lookup_env a.keychain_namespace ha va)
      (validated lookup_env b.keychain_namespace hb vb) (sym (named a ha) ∙ e ∙ named b hb)

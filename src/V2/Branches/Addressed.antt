-- ===== src/V2/Branches/Addressed.antt =====
-- Where the URLs of branches lead (conjurapi/branch_v2.go).
use Prim.Native.String.{String, [], ◌∷◌, ◌++◌}
use Prim.Native.Char.{Char, code}
use conjur_api_go.Common.{
  ℕ, Option, some, eqb, false, List, [], ◌∷◌, ◌==◌, if◌then◌else◌, ◌≡◌, inl, inr, refl, sym, ap,
  subst, arith, eq_iff, distinct, All, Bool-cases,
}
use conjur_api_go.Common.Text.{has_char, join, trim_prefix}
use conjur_api_go.Config.{is_saas}
use conjur_api_go.Requests.{Context}
use conjur_api_go.Url.Escape.{unescape, unescape_from, plain, utf8, put_bytes}
use conjur_api_go.Url.Path.{path_join, split_all, cons_first}
use conjur_api_go.Url.Path.Dropped.{
  IsPart, dropped, path_join-parts, dropped-segments, segments_parts,
}
use conjur_api_go.Url.Path.Joined.{IsSegment, join-ne-empty}
use conjur_api_go.Url.Router.{ParsedUrl, make_router_url, normalize_base_url}
use conjur_api_go.Url.Router.Segments.{Addresses, make_router_url-Addresses}
use conjur_api_go.V2.{account_of}
use conjur_api_go.V2.Branches.{branch_url}

-- A proper segment that a URL may hold as it is: it begins no query and no fragment, and holds
-- nothing to be decoded.
abbrev pub IsLiteral : String → Type 0
IsLiteral s =
    IsSegment s × (has_char b'?' s ≡ false) × (has_char b'#' s ≡ false) × (has_char b'%' s ≡ false)

branches-IsSegment : IsSegment "branches"
unfolding has_char
branches-IsSegment =
    (distinct "branches" "" refl, distinct "branches" "." refl, distinct "branches" ".." refl, refl)

branches-IsLiteral : IsLiteral "branches"
unfolding has_char
branches-IsLiteral = (branches-IsSegment, refl, refl, refl)

dropped_segments : (segs : List String) → All IsSegment segs → dropped segs ≡ segs
dropped_segments [] h = refl
dropped_segments (s ∷ ss) (h, hs) =
    let named : (s == "") ≡ false = ground (arith, eq_iff s "") in
    rw named (ap (λ l. s ∷ l) (dropped_segments ss hs))

-- Behind the appliance's URL, the account of a self-hosted server, which the address of Secrets
-- Manager SaaS leaves out
abbrev pub place : Context → List String → List String
place context segs =
    if is_saas context.config then "branches" ∷ segs else "branches" ∷ context.config.account ∷ segs

dropped-place :
    (context : Context) (segs : List String)
    → IsSegment context.config.account
    → All IsSegment segs
    → "branches" ∷ dropped (account_of context ∷ segs) ≡ place context segs
dropped-place context segs a hs = elim (Bool-cases (is_saas context.config)) [
  | inl saas ↦ rw saas (ap (λ l. "branches" ∷ l) (dropped_segments segs hs))
  | inr other ↦
      rw other (ap (λ l. "branches" ∷ l) (dropped_segments (context.config.account ∷ segs) (a, hs)))
]

account-IsPart :
    (context : Context) → IsSegment context.config.account → IsPart (account_of context)
account-IsPart context a = elim (Bool-cases (is_saas context.config)) [
  | inl saas ↦ rw saas (inl refl)
  | inr other ↦ rw other (inr a)
]

same_path :
    (context : Context) (xs ys : List String)
    → path_join xs ≡ path_join ys
    → make_router_url context.parse_url context.config.appliance_url xs
      ≡ make_router_url context.parse_url context.config.appliance_url ys
unfolding make_router_url
same_path context xs ys e =
    ap
      (λ path.
        normalize_base_url context.parse_url context.config.appliance_url
        ++ "/"
        ++ trim_prefix path "/")
      e

-- For proper segments, branchURL joins "branches", the account, if there is one in the URL, and the
-- segments.
branch_url-joined :
    (context : Context) (seg : String) (segs : List String)
    → IsSegment context.config.account
    → All IsSegment (seg ∷ segs)
    → Addresses context.parse_url context.config.appliance_url
        (place context (seg ∷ segs))
        (branch_url context (join (seg ∷ segs) "/"))
unfolding branch_url
branch_url-joined context seg segs a hs =
    let identifier = join (seg ∷ segs) "/" in
    let named : (identifier == "") ≡ false =
      ground (arith, eq_iff (join (seg ∷ segs) "/") "", join-ne-empty seg segs hs.0) in
    let parts : List String = account_of context ∷ seg ∷ segs in
    let joined_path =
      path_join-parts "branches" (account_of context) seg segs branches-IsSegment
        (account-IsPart context a) hs in
    let reached =
      make_router_url-Addresses context.parse_url context.config.appliance_url "branches"
        (dropped parts)
        (
          branches-IsSegment,
          dropped-segments parts (account-IsPart context a, segments_parts (seg ∷ segs) hs),
        ) in
    rw named (
      subst
        (λ l. Addresses context.parse_url context.config.appliance_url l (
          make_router_url context.parse_url context.config.appliance_url
            ("branches" ∷ account_of context ∷ identifier ∷ [])))
        (dropped-place context (seg ∷ segs) a hs)
        (subst
          (λ url.
            Addresses context.parse_url context.config.appliance_url ("branches" ∷ dropped parts)
              url)
          (sym (
            same_path context ("branches" ∷ account_of context ∷ identifier ∷ [])
              ("branches" ∷ dropped parts) joined_path))
          reached))

-- Behind the base URL there is a path alone, without a query and a fragment; its segments are the
-- given ones, and percent-decoding leaves each as it is.
abbrev pub Leads : (String → Option ParsedUrl) → String → List String → String → Type 0
Leads parse_url base segments url =
    (path : String) × (url ≡ normalize_base_url parse_url base ++ "/" ++ path)
    × (has_char b'?' path ≡ false)
    × (has_char b'#' path ≡ false)
    × (split_all b'/' path ≡ segments)
    × All (λ s. unescape s ≡ some (utf8 s)) segments

All-proper : (segs : List String) → All IsLiteral segs → All IsSegment segs
All-proper [] h = tt
All-proper (s ∷ ss) (h, hs) = (h.0, All-proper ss hs)

abbrev Lacks : ℕ → List String → Type 0
Lacks d segs = All (λ s. has_char d s ≡ false) segs

Lacks-question : (segs : List String) → All IsLiteral segs → Lacks b'?' segs
Lacks-question [] h = tt
Lacks-question (s ∷ ss) (h, hs) = (h.1, Lacks-question ss hs)

Lacks-hash : (segs : List String) → All IsLiteral segs → Lacks b'#' segs
Lacks-hash [] h = tt
Lacks-hash (s ∷ ss) (h, hs) = (h.2, Lacks-hash ss hs)

unescape_from-literal :
    (s : String) → has_char b'%' s ≡ false → unescape_from plain s ≡ some (utf8 s)
unfolding unescape_from utf8 put_bytes has_char
unescape_from-literal [] h = refl
unescape_from-literal (c ∷ s) h =
    let here : eqb (code c) b'%' ≡ false = ground (arith, h) in
    rw here (rw (unescape_from-literal s (ground (arith, h))) refl)

decoded : (segs : List String) → All IsLiteral segs → All (λ s. unescape s ≡ some (utf8 s)) segs
unfolding unescape
decoded [] h = tt
decoded (s ∷ ss) (h, hs) = (unescape_from-literal s h.3, decoded ss hs)

Lacks-cons_first :
    (d : ℕ) (c : Char) (l : List String)
    → Lacks d (cons_first c l)
    → (eqb (code c) d ≡ false) × Lacks d l
unfolding has_char
Lacks-cons_first d c [] h = (ground (arith, h.0), tt)
Lacks-cons_first d c (t ∷ ts) (h, hs) = (ground (arith, h), (ground (arith, h), hs))

-- A character other than the slash that no segment of a path holds is not in the path.
has_char-split_all :
    (d : ℕ) (path : String)
    → eqb b'/' d ≡ false
    → Lacks d (split_all b'/' path)
    → has_char d path ≡ false
unfolding split_all has_char
has_char-split_all d [] other h = refl
has_char-split_all d (c ∷ path) other h = elim (Bool-cases (eqb (code c) b'/')) [
  | inl slash ↦
      let split : Lacks d ("" ∷ split_all b'/' path) = rw slash at h in
      let rest : has_char d path ≡ false = has_char-split_all d path other split.1 in
      ground (arith, slash, other, rest)
  | inr other_char ↦
      let split : Lacks d (cons_first c (split_all b'/' path)) = rw other_char at h in
      let (here, more) = Lacks-cons_first d c (split_all b'/' path) split in
      rw here (has_char-split_all d path other more)
]

place-All :
    (context : Context) (segs : List String)
    → IsLiteral context.config.account
    → All IsLiteral segs
    → All IsLiteral (place context segs)
place-All context segs a hs = elim (Bool-cases (is_saas context.config)) [
  | inl saas ↦ rw saas (branches-IsLiteral, hs)
  | inr other ↦ rw other (branches-IsLiteral, (a, hs))
]

-- For an account, and an identifier that is one or more segments joined by slashes, all proper and
-- without "?", "#" and "%", the URL of branchURL is the normalised base URL, a slash and a path,
-- without a query and a fragment. The segments of this path are "branches", the account, unless the
-- client is one of Secrets Manager SaaS, and then exactly those of the identifier; none is changed
-- by percent-decoding.
pub branch_url-Leads :
    (context : Context) (seg : String) (segs : List String)
    → IsLiteral context.config.account
    → All IsLiteral (seg ∷ segs)
    → Leads context.parse_url context.config.appliance_url
        (place context (seg ∷ segs))
        (branch_url context (join (seg ∷ segs) "/"))
branch_url-Leads context seg segs a hs =
    let segments : List String = seg ∷ segs in
    let (path, url, split) = branch_url-joined context seg segs a.0 (All-proper segments hs) in
    let all = place-All context segments a hs in
    (
      path,
      url,
      has_char-split_all b'?' path refl
          (subst (Lacks b'?') (sym split) (Lacks-question (place context segments) all)),
      has_char-split_all b'#' path refl
          (subst (Lacks b'#') (sym split) (Lacks-hash (place context segments) all)),
      split,
      decoded (place context segments) all,
    )

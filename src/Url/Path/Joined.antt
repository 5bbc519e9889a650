-- ===== src/Url/Path/Joined.antt =====
-- path.Join of proper segments is their join by slashes.
use Prim.Native.Char.{Char}
use Prim.Native.String.{String, [], ◌∷◌, ◌++◌}
use mathlib.Core.List.{reverse_aux}
use text.Mathlib.TextLemmas.{nil-append, append-nil, cons-append, append_assoc, append-eq-nil_iff}
use conjur_api_go.Common.{
  false, none, List, [], ◌∷◌, ◌==◌, ◌≡◌, ◌≢◌, refl, sym, ap, ◌∙◌, arith, eq_iff, if◌then◌else◌, All,
}
use conjur_api_go.Common.Text.{has_char, cut_prefix, has_prefix, join}
use conjur_api_go.Url.Path.{split_all, visit, walk, clean, join_from, path_join}

abbrev pub slash : Char
slash = "/"

-- A text that stands for itself as one element of a path.
abbrev pub IsSegment : String → Type 0
IsSegment s = (s ≢ "") × (s ≢ ".") × (s ≢ "..") × (has_char b'/' s ≡ false)

slash-append : (s : String) → "/" ++ s ≡ slash ∷ s
slash-append s = rw (cons-append, nil-append)

join-append :
    (a s : String) (parts : List String) (sep : String)
    → join ((a ++ s) ∷ parts) sep ≡ a ++ join (s ∷ parts) sep
unfolding join
join-append a s [] sep = refl
join-append a s (p ∷ parts) sep = append_assoc a s (sep ++ join (p ∷ parts) sep)

pub join_from-segments :
    (buffer : String) (parts : List String)
    → buffer ≢ ""
    → join_from buffer parts ≡ join (buffer ∷ parts) "/"
unfolding join_from join
join_from-segments buffer [] h = refl
join_from-segments buffer (p ∷ parts) h =
    let longer : (if buffer == "" then p else buffer ++ "/" ++ p) ≡ buffer ++ "/" ++ p =
      ground (arith, eq_iff buffer "") in
    rw longer (
      join_from-segments (buffer ++ "/" ++ p) parts (λ e. h (append-eq-nil_iff.0 e).0)
      ∙ join-append buffer ("/" ++ p) parts "/"
      ∙ ap (λ t. buffer ++ t) (join-append "/" p parts "/"))

split_all-clean : (s : String) → has_char b'/' s ≡ false → split_all b'/' s ≡ s ∷ []
unfolding split_all has_char
split_all-clean [] h = refl
split_all-clean (c ∷ s) h = ground (arith, split_all-clean s)

split_all-append :
    (s t : String)
    → has_char b'/' s ≡ false
    → split_all b'/' (s ++ (slash ∷ t)) ≡ s ∷ split_all b'/' t
unfolding split_all has_char
split_all-append [] t h = rw nil-append (ground arith)
split_all-append (c ∷ s) t h = rw cons-append (ground (arith, split_all-append s t))

pub split_all-join :
    (part : String) (parts : List String)
    → All (λ s. has_char b'/' s ≡ false) (part ∷ parts)
    → split_all b'/' (join (part ∷ parts) "/") ≡ part ∷ parts
unfolding join
split_all-join part [] (h, _) = split_all-clean part h
split_all-join part (q ∷ more) (h, hs) =
    rw (slash-append, split_all-append part (join (q ∷ more) "/") h)
      (ap (λ l. part ∷ l) (split_all-join q more hs))

walk-segments :
    (stack parts : List String)
    → All IsSegment parts
    → walk false stack parts ≡ reverse_aux stack parts
unfolding walk visit
walk-segments stack [] h = refl
walk-segments stack (p ∷ parts) (h, hs) =
    let kept : visit false stack p ≡ p ∷ stack =
      ground (arith, eq_iff p "", eq_iff p ".", eq_iff p "..") in
    ap (λ st. walk false st parts) kept ∙ walk-segments (p ∷ stack) parts hs

pub slash_free :
    (parts : List String) → All IsSegment parts → All (λ s. has_char b'/' s ≡ false) parts
slash_free [] h = tt
slash_free (p ∷ parts) (h, hs) = (h.3, slash_free parts hs)

no_slash_first : (s t : String) → s ≢ "" → has_char b'/' s ≡ false → cut_prefix (s ++ t) "/" ≡ none
unfolding cut_prefix has_char
no_slash_first [] t h k = absurd (h refl)
no_slash_first (c ∷ s) t h k = rw cons-append (ground arith)

join-head :
    (part : String) (parts : List String) → (t : String) × (join (part ∷ parts) "/" ≡ part ++ t)
unfolding join
join-head part [] = ("", sym (append-nil part))
join-head part (q ∷ more) = ("/" ++ join (q ∷ more) "/", refl)

-- Proper segments joined by slashes do not begin with one.
pub cut_prefix-join :
    (part : String) (parts : List String)
    → IsSegment part
    → cut_prefix (join (part ∷ parts) "/") "/" ≡ none
cut_prefix-join part parts h =
    let (t, e) = join-head part parts in rw e (no_slash_first part t h.0 h.3)

pub join-ne-empty :
    (part : String) (parts : List String) → IsSegment part → join (part ∷ parts) "/" ≢ ""
join-ne-empty part parts h e =
    let (t, f) = join-head part parts in h.0 (append-eq-nil_iff.0 (sym f ∙ e)).0

clean-join :
    (part : String) (parts : List String)
    → All IsSegment (part ∷ parts)
    → clean (join (part ∷ parts) "/") ≡ join (part ∷ parts) "/"
unfolding clean has_prefix
clean-join part parts h =
    let path = join (part ∷ parts) "/" in
    let walked : walk false [] (split_all b'/' path) ≡ part ∷ parts =
      ap (walk false []) (split_all-join part parts (slash_free (part ∷ parts) h))
      ∙ walk-segments [] (part ∷ parts) h in
    rw (cut_prefix-join part parts h.0) (
      rw walked (ground (arith, eq_iff (join (part ∷ parts) "/") "", join-ne-empty part parts h.0)))

-- path.Join of proper segments is their join by slashes.
pub path_join-segments :
    (part : String) (parts : List String)
    → All IsSegment (part ∷ parts)
    → path_join (part ∷ parts) ≡ join (part ∷ parts) "/"
unfolding path_join
path_join-segments part parts h =
    let buffered : join_from part parts ≡ join (part ∷ parts) "/" =
      join_from-segments part parts h.0.0 in
    rw buffered (
      ground (
        arith,
        clean-join part parts h,
        join-ne-empty part parts h.0,
        eq_iff (join (part ∷ parts) "/") "",
      ))

-- ===== src/Url/Path/Dropped.antt =====
-- path.Join where some elements are empty and one is itself several segments joined.
use Prim.Native.String.{String}
use mathlib.Core.List.{reverse_aux}
use conjur_api_go.Common.{
  false, List, [], ◌∷◌, ◌==◌, if◌then◌else◌, ◌≡◌, ◌⊎◌, inl, inr, refl, sym, ap, ◌∙◌, arith, eq_iff,
  All,
}
use conjur_api_go.Common.Text.{has_char, join, has_prefix}
use conjur_api_go.Url.Path.{split_all, visit, walk, clean, path_join, join_from}
use conjur_api_go.Url.Path.Joined.{
  IsSegment, cut_prefix-join, split_all-join, join_from-segments, join-ne-empty, path_join-segments,
}

-- A proper segment, or nothing
abbrev pub IsPart : String → Type 0
IsPart s = (s ≡ "") ⊎ IsSegment s

abbrev pub dropped : List String → List String
dropped [] = []
dropped (s ∷ ss) = let rest = dropped ss in if s == "" then rest else s ∷ rest

walk-parts :
    (stack parts : List String)
    → All IsPart parts
    → walk false stack parts ≡ reverse_aux stack (dropped parts)
unfolding walk visit
walk-parts stack [] h = refl
walk-parts stack (p ∷ parts) (inl empty, hs) =
    rw ((eq_iff p "").1 empty) (walk-parts stack parts hs)
walk-parts stack (p ∷ parts) (inr h, hs) =
    let kept : visit false stack p ≡ p ∷ stack =
      ground (arith, eq_iff p "", eq_iff p ".", eq_iff p "..") in
    let named : (p == "") ≡ false = ground (arith, eq_iff p "") in
    let stays : p ∷ dropped parts ≡ dropped (p ∷ parts) = rw named refl in
    ap (λ st. walk false st parts) kept
    ∙ walk-parts (p ∷ stack) parts hs
    ∙ ap (λ l. reverse_aux stack l) stays

slash_free_parts :
    (parts : List String) → All IsPart parts → All (λ s. has_char b'/' s ≡ false) parts
unfolding has_char
slash_free_parts [] h = tt
slash_free_parts (p ∷ parts) (inl empty, hs) = (rw empty refl, slash_free_parts parts hs)
slash_free_parts (p ∷ parts) (inr h, hs) = (h.3, slash_free_parts parts hs)

pub segments_parts : (segs : List String) → All IsSegment segs → All IsPart segs
segments_parts [] h = tt
segments_parts (s ∷ ss) (h, hs) = (inr h, segments_parts ss hs)

pub dropped-segments : (parts : List String) → All IsPart parts → All IsSegment (dropped parts)
dropped-segments [] h = tt
dropped-segments (p ∷ parts) (inl empty, hs) =
    rw ((eq_iff p "").1 empty) (dropped-segments parts hs)
dropped-segments (p ∷ parts) (inr h, hs) =
    let named : (p == "") ≡ false = ground (arith, eq_iff p "") in
    rw named (h, dropped-segments parts hs)

clean-parts :
    (part : String) (parts : List String)
    → IsSegment part
    → All IsPart parts
    → clean (join (part ∷ parts) "/") ≡ join (part ∷ dropped parts) "/"
unfolding clean has_prefix
clean-parts part parts h hs =
    let path = join (part ∷ parts) "/" in
    let named : (part == "") ≡ false = ground (arith, eq_iff part "") in
    let walked : walk false [] (split_all b'/' path) ≡ part ∷ dropped parts =
      ap (walk false []) (split_all-join part parts (slash_free_parts (part ∷ parts) (inr h, hs)))
      ∙ walk-parts [] (part ∷ parts) (inr h, hs)
      ∙ rw named refl in
    rw (cut_prefix-join part parts h) (
      rw walked (
        ground (
          arith,
          eq_iff (join (part ∷ dropped parts) "/") "",
          join-ne-empty part (dropped parts) h,
        )))

-- path.Join of a segment, of elements that may be empty, and of segments that are joined already:
-- the result is the join of all that is not empty.
pub path_join-parts :
    (part middle : String) (seg : String) (segs : List String)
    → IsSegment part
    → IsPart middle
    → All IsSegment (seg ∷ segs)
    → path_join (part ∷ middle ∷ join (seg ∷ segs) "/" ∷ [])
      ≡ path_join (part ∷ dropped (middle ∷ seg ∷ segs))
unfolding path_join join
path_join-parts part middle seg segs h m hs =
    let parts = middle ∷ seg ∷ segs in
    let all : All IsPart parts = (m, segments_parts (seg ∷ segs) hs) in
    let buffered : join_from part (middle ∷ join (seg ∷ segs) "/" ∷ []) ≡ join (part ∷ parts) "/" =
      join_from-segments part (middle ∷ join (seg ∷ segs) "/" ∷ []) h.0 in
    rw buffered (
      ground (
        arith,
        clean-parts part parts h all,
        join-ne-empty part parts h,
        eq_iff (join (part ∷ parts) "/") "",
      ))
    ∙ sym (path_join-segments part (dropped parts) (h, dropped-segments parts all))

-- ===== src/Url/Path.antt =====
-- Go's path.Join and path.Clean, which makeRouterURL calls (conjurapi/router_url.go).
pub mod Dropped
pub mod Joined
use Prim.Native.Char.{Char, code}
use Prim.Native.String.{String, [], ◌∷◌, ◌++◌}
use mathlib.Core.List.{reverse}
use conjur_api_go.Common.{
  ℕ, zero, suc, Bool, true, false, List, [], ◌∷◌, ◌==◌, ◌&&◌, ◌||◌, ◌≡◌, refl, eqb, if◌then◌else◌,
}
use conjur_api_go.Common.Text.{has_prefix, join}

abbrev pub cons_first : Char → List String → List String
cons_first c [] = (c ∷ []) ∷ []
cons_first c (t ∷ ts) = (c ∷ t) ∷ ts

-- All the texts between the characters with the code `d`; strings.Split.
unfoldable pub split_all : ℕ → String → List String
split_all d [] = "" ∷ []
split_all d (c ∷ s) =
    let rest = split_all d s in if eqb (code c) d then "" ∷ rest else cons_first c rest

-- ".." at a stack of kept elements, the last one first: at the root with nothing kept it is dropped,
-- elsewhere it is kept if there is nothing to go back over.
back : Bool → List String → List String
back true [] = []
back false [] = ".." ∷ []
back rooted (top ∷ below) = if top == ".." then ".." ∷ top ∷ below else below

-- One element of a path.
unfoldable pub visit : Bool → List String → String → List String
unfolding back
visit rooted stack part =
    if part == "" || part == "."
    then stack
    else if part == ".."
    then back rooted stack
    else part ∷ stack

unfoldable pub walk : Bool → List String → List String → List String
walk rooted stack [] = reverse stack
walk rooted stack (part ∷ parts) = walk rooted (visit rooted stack part) parts

-- path.Clean
unfoldable pub clean : String → String
unfolding split_all visit walk
clean path =
    let rooted = has_prefix path "/" in
    let body = join (walk rooted [] (split_all b'/' path)) "/" in
    if rooted then "/" ++ body else if body == "" then "." else body

-- The loop of path.Join: elements are appended with slashes once something stands in the buffer.
unfoldable pub join_from : String → List String → String
join_from buffer [] = buffer
join_from buffer (e ∷ es) = join_from (if buffer == "" then e else buffer ++ "/" ++ e) es

-- path.Join
unfoldable pub path_join : List String → String
unfolding join_from clean
path_join elements = let path = join_from "" elements in if path == "" then "" else clean path

path_tests :
    (path_join ("" ∷ "a" ∷ "" ∷ "b/../c" ∷ []) ≡ "a/c")
    × (path_join ("/x/../.." ∷ "y" ∷ []) ≡ "/y")
    × (path_join (".." ∷ "y" ∷ "." ∷ []) ≡ "../y")
    × (path_join [] ≡ "")
unfolding path_join has_prefix join
path_tests = (refl, refl, refl, refl)

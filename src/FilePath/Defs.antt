-- ===== src/FilePath/Defs.antt =====
-- Clean, Join, IsAbs, Dir and Rel: a path is cut at its slashes, and its parts are resolved on a
-- stack.
use Prim.Native.Char.{Char, code}
use mathlib.Core.List.{reverse}
use vulpes_core.Base.{
  String, ◌<>◌, Bool, true, false, ◌||◌, List, [], ◌∷◌, ◌++◌, ◌==◌, ◌≡◌, refl, eqb, if◌then◌else◌,
  Option, none, some, map,
}
use vulpes_core.Base.Text.{strip_prefix}

abbrev pub is_slash : Char → Bool
is_slash c = eqb (code c) b'/'

-- A character in front of the first part.
abbrev pub grow : Char → List String → List String
grow c [] = String.◌∷◌ c String.[] ∷ []
grow c (part ∷ parts) = String.◌∷◌ c part ∷ parts

-- The texts between the slashes.
unfoldable pub split_slash : String → List String
split_slash String.[] = "" ∷ []
split_slash (String.◌∷◌ c s) =
    let rest = split_slash s in if is_slash c then "" ∷ rest else grow c rest

unfoldable pub join_slash : List String → String
join_slash [] = ""
join_slash (part ∷ []) = part
join_slash (part ∷ next ∷ parts) = part <> "/" <> join_slash (next ∷ parts)

-- `filepath.IsAbs`
unfoldable pub is_abs : String → Bool
is_abs String.[] = false
is_abs (String.◌∷◌ c s) = is_slash c

-- What a `..` does to a stack, whose top is its head: at the root it does nothing.
abbrev pub up : Bool → List String → List String
up true [] = []
up false [] = ".." ∷ []
up rooted (top ∷ rest) = if top == ".." then ".." ∷ top ∷ rest else rest

-- One part on the stack.
unfoldable pub resolve : Bool → List String → String → List String
resolve rooted stack part =
    if part == "" || part == "."
    then stack
    else if part == ".."
    then up rooted stack
    else part ∷ stack

unfoldable pub resolve_all : Bool → List String → List String → List String
unfolding resolve
resolve_all rooted stack [] = stack
resolve_all rooted stack (part ∷ parts) = resolve_all rooted (resolve rooted stack part) parts

-- The stack, and the parts, of a path's shortest form.
unfoldable pub stack_of : String → List String
unfolding resolve_all split_slash is_abs
stack_of s = resolve_all (is_abs s) [] (split_slash s)

unfoldable pub components : String → List String
unfolding stack_of
components s = reverse (stack_of s)

-- The text of a path with these parts.
unfoldable pub render : Bool → List String → String
unfolding join_slash
render true parts = "/" <> join_slash parts
render false [] = "."
render false (part ∷ parts) = join_slash (part ∷ parts)

-- `filepath.Clean`
unfoldable pub clean : String → String
unfolding components render is_abs
clean s = render (is_abs s) (components s)

-- `filepath.Join` of two texts.
unfoldable pub join : String → String → String
unfolding clean
join a b = if a == "" then (if b == "" then "" else clean b) else clean (a <> "/" <> b)

-- `filepath.Join`: the texts from the first one that is not empty.
unfoldable pub join_all : List String → String
unfolding clean join_slash
join_all [] = ""
join_all (part ∷ parts) = if part == "" then join_all parts else clean (join_slash (part ∷ parts))

-- All but the last.
abbrev pub but_last : List String → List String
but_last [] = []
but_last (x ∷ []) = []
but_last (x ∷ y ∷ rest) = x ∷ but_last (y ∷ rest)

-- `filepath.Dir`: the text up to its last slash, in its shortest form.
unfoldable pub dir : String → String
unfolding clean split_slash join_slash
dir s = clean (join_slash (but_last (split_slash s) ++ "" ∷ []))

-- What follows the parts that two paths share: the rest of the base, and of the target.
unfoldable pub apart : List String → List String → List String × List String
apart [] target = ([], target)
apart (b ∷ base) [] = (b ∷ base, [])
apart (b ∷ base) (t ∷ target) = if b == t then apart base target else (b ∷ base, t ∷ target)

-- The way from the rest of the base to the rest of the target; there is none from a `..`.
abbrev pub way : List String × List String → Option String
way ([], target) = some (render false target)
way (b ∷ base, target) =
    if b == ".." then none else some (render false (map (λ x. "..") (b ∷ base) ++ target))

-- There is no way between a rooted path and a relative one.
abbrev pub way_between : Bool → Bool → List String → List String → Option String
way_between true false base target = none
way_between false true base target = none
way_between true true base target = way (apart base target)
way_between false false base target = way (apart base target)

-- `filepath.Rel`, with `none` for its error.
unfoldable pub rel : String → String → Option String
unfolding apart components is_abs render
rel base target = way_between (is_abs base) (is_abs target) (components base) (components target)

-- `strings.HasPrefix`
unfoldable pub has_prefix : String → String → Bool
unfolding strip_prefix
has_prefix prefix s = elim (strip_prefix prefix s) [ none ↦ false | some rest ↦ true ]

-- `strings.TrimPrefix`
unfoldable pub trim_prefix : String → String → String
unfolding strip_prefix
trim_prefix prefix s = elim (strip_prefix prefix s) [ none ↦ s | some rest ↦ rest ]

clean_up : clean "a//b/./../c/" ≡ "a/c"
unfolding clean
clean_up = refl

clean_rooted : clean "/../a" ≡ "/a"
unfolding clean
clean_rooted = refl

rel_down : rel "/a/b" "/a/b/c/d" ≡ some "c/d"
unfolding rel
rel_down = refl

dir_of : dir "/a/b" ≡ "/a"
unfolding dir
dir_of = refl

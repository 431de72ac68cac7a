-- ===== src/Plugins/SafeJoin.antt =====
-- Which names of an archive safeJoin takes, and where their paths are.
use text.Mathlib.TextLemmas
use mathlib.Core.List.{reverse, reverse-cons, reverse-reverse}
use vulpes_core.Base.{
  String, ◌<>◌, ◌≡◌, ◌≢◌, ◌⊎◌, inl, inr, refl, ap, sym, ◌∙◌, subst, Bool, true, false, ◌||◌, List,
  [], ◌∷◌, ◌++◌, ◌==◌, eq_iff, arith, if◌then◌else◌, All, Bool-cases, Option-cases, ok, err,
  ok-injective,
}
use vulpes_core.Base.Text.{strip_prefix}
use vulpes_core.Base.Prefix.{strip_prefix-some, strip_prefix-append}
use vulpes_core.FilePath.{is_abs, has_prefix, clean, join, components, stack_of, render, join_slash}
use vulpes_core.FilePath.Clean.{GoesDown, IsStack, stack_of-IsStack}
use vulpes_core.FilePath.Render.{All-append, All-reverse, is_abs-clean}
use vulpes_core.FilePath.Below.{Below, join-Below, rel-join, clean-relative, components-eq-reverse}
use vulpes_core.Plugins.Archive.{safe_join, unsafe_path}

-- A stack whose parts all go down, or whose first part goes up.
stack_cases :
    (rooted : Bool) (stack : List String)
    → IsStack rooted stack
    → All GoesDown (reverse stack) ⊎ ((rest : List String) × (reverse stack ≡ ".." ∷ rest))
stack_cases rooted [] h = inl tt
stack_cases rooted (x ∷ []) h = elim (Bool-cases (x == "..")) [
  | inl e ↦ inr ([], ap (λ y. y ∷ []) ((eq_iff x "..").0 e))
  | inr e ↦ inl ((h.0, (λ dots. ground (arith, e, dots, eq_iff x ".."))), tt)
]
stack_cases rooted (x ∷ y ∷ ys) h = elim (stack_cases rooted (y ∷ ys) h.2) [
  | inr (rest, e) ↦ inr (rest ++ x ∷ [], reverse-cons x (y ∷ ys) ∙ ap (λ l. l ++ x ∷ []) e)
  | inl down ↦
      let first =
        subst (All GoesDown) (reverse-reverse (y ∷ ys))
          (All-reverse GoesDown (reverse (y ∷ ys)) down) in
      let last : GoesDown x = (h.0, (λ dots. first.0.1 ((h.1 dots).1).0)) in
      inl (
        subst (All GoesDown) (sym (reverse-cons x (y ∷ ys)))
          (All-append GoesDown (reverse (y ∷ ys)) (x ∷ []) down (last, tt)))
]

has_prefix-append : (p s : String) → has_prefix p (p <> s) ≡ true
unfolding has_prefix
has_prefix-append p s = ground (arith, strip_prefix-append p s)

has_prefix-some : (p s : String) → has_prefix p s ≡ true → (rest : String) × (s ≡ p <> rest)
unfolding has_prefix
has_prefix-some p s h = elim (Option-cases (strip_prefix p s)) [
  | inl e ↦ ground (arith, h, e)
  | inr (rest, e) ↦ (rest, strip_prefix-some p s rest e)
]

goes_up :
    (rest : List String)
    → let s = render false (".." ∷ rest) in (has_prefix "../" s || s == "..") ≡ true
unfolding render join_slash has_prefix
goes_up [] = refl
goes_up (next ∷ rest) =
    let tail = join_slash (next ∷ rest) in
    let up =
      ap (has_prefix "../") (sym (TextLemmas.append_assoc ".." "/" tail))
      ∙ has_prefix-append "../" tail in
    ground (arith, up)

-- A relative path that the first test lets through goes down.
test-GoesDown :
    (name : String)
    → is_abs name ≡ false
    → (has_prefix "../" (clean name) || clean name == "..") ≡ false
    → All GoesDown (components name)
test-GoesDown name relative h =
    elim (stack_cases (is_abs name) (stack_of name) (stack_of-IsStack name)) [
      | inl down ↦ subst (All GoesDown) (sym (components-eq-reverse name)) down
      | inr (rest, e) ↦
          let same =
            clean-relative name relative ∙ ap (render false) (components-eq-reverse name ∙ e) in
          let up = ap (λ s. has_prefix "../" s || s == "..") same ∙ goes_up rest in
          ground (arith, h, up)
    ]

-- The first of the two tests is part of the second one.
up_prefix :
    (s : String) → has_prefix ".." s ≡ false → (has_prefix "../" s ≡ false) × ((s == "..") ≡ false)
unfolding has_prefix strip_prefix
up_prefix s h = (
  elim (Bool-cases (has_prefix "../" s)) [
    | inr e ↦ e
    | inl e ↦
        let (rest, split) = has_prefix-some "../" s e in
        let again = split ∙ TextLemmas.append_assoc ".." "/" rest in
        let up = ap (has_prefix "..") again ∙ has_prefix-append ".." ("/" <> rest) in
        ground (arith, h, up)
  ],
  elim (Bool-cases (s == "..")) [
    | inr e ↦ e
    | inl e ↦
        let up : has_prefix ".." s ≡ true = ap (has_prefix "..") ((eq_iff s "..").0 e) in
        ground (arith, h, up)
  ],
)

prefix-GoesDown :
    (name : String)
    → is_abs name ≡ false
    → has_prefix ".." (clean name) ≡ false
    → All GoesDown (components name)
prefix-GoesDown name relative h =
    let tests = up_prefix (clean name) h in test-GoesDown name relative (ground (arith, tests))

safe_join-ok :
    (dest name : String)
    → dest ≢ ""
    → is_abs name ≡ false
    → has_prefix ".." (clean name) ≡ false
    → safe_join dest name ≡ ok (join dest (clean name))
unfolding safe_join
safe_join-ok dest name h relative down =
    let (first, second) = up_prefix (clean name) down in
    let way = rel-join dest name h relative (prefix-GoesDown name relative down) in
    ground (arith, is_abs-clean name, relative, first, second, way, down)

safe_join-err :
    (dest name : String)
    → dest ≢ ""
    → (is_abs name || has_prefix ".." (clean name)) ≡ true
    → safe_join dest name ≡ err (unsafe_path name)
unfolding safe_join
safe_join-err dest name h bad = elim (Bool-cases (is_abs name)) [
  | inl rooted ↦ ground (arith, is_abs-clean name, rooted)
  | inr relative ↦ elim (Bool-cases (has_prefix "../" (clean name) || clean name == "..")) [
    | inl up ↦ ground (arith, is_abs-clean name, relative, up)
    | inr inner ↦
        let way = rel-join dest name h relative (test-GoesDown name relative inner) in
        ground (arith, is_abs-clean name, relative, inner, way, bad)
  ]
]

-- With a directory that is not the empty text, safeJoin refuses exactly the rooted names and those
-- whose shortest form begins with two dots. Every other name it joins to the directory, and the
-- path is the directory or below it: its parts are those of the directory and then parts of which
-- none is `..`.
pub safe_join_lem :
    (dest name : String)
    → dest ≢ ""
    → (safe_join dest name ≡ (
        if is_abs name || has_prefix ".." (clean name)
        then err (unsafe_path name)
        else ok (join dest (clean name))))
      × ((p : String) → safe_join dest name ≡ ok p → Below dest p)
safe_join_lem dest name h = elim (Bool-cases (is_abs name || has_prefix ".." (clean name))) [
  | inl bad ↦
      let refused = safe_join-err dest name h bad in
      (rw bad refused, λ p. λ good. ground (arith, refused, good))
  | inr fine ↦
      let relative : is_abs name ≡ false = ground (arith, fine) in
      let down : has_prefix ".." (clean name) ≡ false = ground (arith, fine) in
      let joined = safe_join-ok dest name h relative down in
      let below = join-Below dest name h (prefix-GoesDown name relative down) in
      (rw fine joined, λ p. λ good. subst (Below dest) (ok-injective (sym joined ∙ good)) below)
]

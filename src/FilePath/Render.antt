-- ===== src/FilePath/Render.antt =====
-- The text of a shortest form has the parts that it was made of, so Clean has nothing left to do.
use text.Mathlib.TextLemmas
use mathlib.Core.List.{reverse, reverse-cons}
use vulpes_core.Base.{
  String, ◌<>◌, ◌≡◌, ◌≢◌, refl, ap, sym, ◌∙◌, Bool, true, false, List, [], ◌∷◌, ◌++◌, subst, arith,
  All,
}
use vulpes_core.FilePath.Defs.{
  split_slash, join_slash, is_abs, resolve, resolve_all, stack_of, components, render, clean,
}
use vulpes_core.FilePath.Split.{NoSlash, split_slash-join_slash, split_slash-slash}
use vulpes_core.FilePath.Clean.{IsPart, IsStack, stack_of-IsStack, resolve_all-again}

pub All-append :
    (P : String → Type 0) (xs ys : List String) → All P xs → All P ys → All P (xs ++ ys)
All-append P [] ys h k = k
All-append P (x ∷ xs) ys (h, hs) k = (h, All-append P xs ys hs k)

pub All-reverse : (P : String → Type 0) (xs : List String) → All P xs → All P (reverse xs)
All-reverse P [] h = tt
All-reverse P (x ∷ xs) (h, hs) =
    subst (All P) (sym (reverse-cons x xs))
      (All-append P (reverse xs) (x ∷ []) (All-reverse P xs hs) (h, tt))

pub IsStack-All : (rooted : Bool) (stack : List String) → IsStack rooted stack → All IsPart stack
IsStack-All rooted [] h = tt
IsStack-All rooted (x ∷ xs) h = (h.0, IsStack-All rooted xs h.2)

pub All-NoSlash : (parts : List String) → All IsPart parts → All NoSlash parts
All-NoSlash [] h = tt
All-NoSlash (x ∷ xs) (h, hs) = (h.0, All-NoSlash xs hs)

pub is_abs-append : (s t : String) → s ≢ "" → is_abs (s <> t) ≡ is_abs s
unfolding is_abs
is_abs-append String.[] t h = absurd (h refl)
is_abs-append (String.◌∷◌ c s) t h = ap is_abs (TextLemmas.cons-append c s t)

is_abs-NoSlash : (s : String) → NoSlash s → is_abs s ≡ false
unfolding is_abs
is_abs-NoSlash String.[] h = refl
is_abs-NoSlash (String.◌∷◌ c s) h = ground (arith, h)

is_abs-join_slash :
    (part : String) (parts : List String) → IsPart part → is_abs (join_slash (part ∷ parts)) ≡ false
unfolding join_slash
is_abs-join_slash part [] h = is_abs-NoSlash part h.0
is_abs-join_slash part (next ∷ parts) h =
    is_abs-append part ("/" <> join_slash (next ∷ parts)) h.1 ∙ is_abs-NoSlash part h.0

pub is_abs-render :
    (rooted : Bool) (parts : List String) → All IsPart parts → is_abs (render rooted parts) ≡ rooted
unfolding render is_abs
is_abs-render true parts h = ap is_abs (TextLemmas.cons-append _ String.[] (join_slash parts))
is_abs-render false [] h = refl
is_abs-render false (part ∷ parts) (h, hs) = is_abs-join_slash part parts h

-- What the parts of a text of this form do to a stack.
pub resolve_all-render :
    (rooted : Bool) (parts stack : List String) (r : Bool)
    → All IsPart parts
    → resolve_all r stack (split_slash (render rooted parts)) ≡ resolve_all r stack parts
unfolding render resolve_all resolve split_slash join_slash
resolve_all-render true [] stack r h = refl
resolve_all-render true (part ∷ parts) stack r h =
    ap (λ ps. resolve_all r stack ps) (split_slash-slash (join_slash (part ∷ parts)))
    ∙ ap (λ ps. resolve_all r stack ps)
        (split_slash-join_slash part parts (All-NoSlash (part ∷ parts) h))
resolve_all-render false [] stack r h = refl
resolve_all-render false (part ∷ parts) stack r h =
    ap (λ ps. resolve_all r stack ps)
      (split_slash-join_slash part parts (All-NoSlash (part ∷ parts) h))

pub components_IsPart : (s : String) → All IsPart (components s)
unfolding components
components_IsPart s =
    All-reverse IsPart (stack_of s) (IsStack-All (is_abs s) (stack_of s) (stack_of-IsStack s))

stack_of-clean : (s : String) → stack_of (clean s) ≡ stack_of s
unfolding clean stack_of components
stack_of-clean s =
    let parts = components s in
    let same = is_abs-render (is_abs s) parts (components_IsPart s) in
    ap (λ r. resolve_all r [] (split_slash (render (is_abs s) parts))) same
    ∙ resolve_all-render (is_abs s) parts [] (is_abs s) (components_IsPart s)
    ∙ resolve_all-again (is_abs s) (stack_of s) (stack_of-IsStack s)

pub is_abs-clean : (s : String) → is_abs (clean s) ≡ is_abs s
unfolding clean
is_abs-clean s = is_abs-render (is_abs s) (components s) (components_IsPart s)

pub components-clean : (s : String) → components (clean s) ≡ components s
unfolding components
components-clean s = ap (λ st. reverse st) (stack_of-clean s)

-- Cleaning a path again changes nothing, and keeps its parts and whether it is rooted; no part is
-- empty, a dot, or has a slash.
pub clean_twice :
    (s : String)
    → (clean (clean s) ≡ clean s)
      × (components (clean s) ≡ components s)
      × (is_abs (clean s) ≡ is_abs s)
      × All IsPart (components s)
unfolding clean
clean_twice s = (
  ap (λ r. render r (components (clean s))) (is_abs-clean s)
      ∙ ap (λ parts. render (is_abs s) parts) (components-clean s),
  components-clean s,
  is_abs-clean s,
  components_IsPart s,
)

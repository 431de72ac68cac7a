-- ===== src/FilePath/Below.antt =====
-- A relative path joined to a directory: what Join and Rel make of the two.
use mathlib.Core.List.{reverse, reverse-append, reverse-reverse}
use vulpes_core.Base.{
  String, ◌<>◌, ◌≡◌, ◌≢◌, refl, ap, sym, ◌∙◌, Bool, true, false, some, List, [], ◌∷◌, ◌++◌, eq_refl,
  eq-false, arith, All,
}
use vulpes_core.FilePath.Defs.{
  split_slash, is_abs, resolve_all, stack_of, components, render, clean, join, apart, way,
  way_between, rel,
}
use vulpes_core.FilePath.Split.{split_slash-append}
use vulpes_core.FilePath.Clean.{GoesDown, resolve_all-append, resolve_all-down}
use vulpes_core.FilePath.Render.{
  is_abs-append, is_abs-clean, components-clean, components_IsPart, resolve_all-render, clean_twice,
}

-- The path is the directory or stands below it, and its text is in the shortest form.
pub record Below (dest p : String) : Type 0 where
  pub rooted : is_abs p ≡ is_abs dest
  pub parts : List String
  pub components : components p ≡ components dest ++ parts
  pub down : All GoesDown parts
  pub shortest : clean p ≡ p

-- A relative name whose parts all go down.
abbrev pub IsInner : String → Type 0
IsInner name = (is_abs name ≡ false) × All GoesDown (components name)

join-eq-clean : (dest t : String) → dest ≢ "" → join dest t ≡ clean (dest <> "/" <> t)
unfolding join
join-eq-clean dest t h = rw (eq-false dest "" h)

resolve_all-clean :
    (name : String) (stack : List String) (r : Bool)
    → resolve_all r stack (split_slash (clean name)) ≡ resolve_all r stack (components name)
unfolding clean
resolve_all-clean name stack r =
    resolve_all-render (is_abs name) (components name) stack r (components_IsPart name)

stack_of-under :
    (dest name : String)
    → dest ≢ ""
    → All GoesDown (components name)
    → stack_of (dest <> "/" <> clean name) ≡ reverse (components name) ++ stack_of dest
unfolding stack_of
stack_of-under dest name h down =
    let r = is_abs dest in
    ap (λ b. resolve_all b [] (split_slash (dest <> "/" <> clean name)))
      (is_abs-append dest ("/" <> clean name) h)
    ∙ ap (λ parts. resolve_all r [] parts) (split_slash-append dest (clean name))
    ∙ resolve_all-append r [] (split_slash dest) (split_slash (clean name))
    ∙ resolve_all-clean name (stack_of dest) r
    ∙ resolve_all-down r (stack_of dest) (components name) down

pub components-eq-reverse : (s : String) → components s ≡ reverse (stack_of s)
unfolding components
components-eq-reverse s = refl

components-join :
    (dest name : String)
    → dest ≢ ""
    → All GoesDown (components name)
    → components (join dest (clean name)) ≡ components dest ++ components name
components-join dest name h down =
    ap components (join-eq-clean dest (clean name) h)
    ∙ components-clean (dest <> "/" <> clean name)
    ∙ components-eq-reverse (dest <> "/" <> clean name)
    ∙ ap (λ st. reverse st) (stack_of-under dest name h down)
    ∙ reverse-append (reverse (components name)) (stack_of dest)
    ∙ ap (λ parts. reverse (stack_of dest) ++ parts) (reverse-reverse (components name))
    ∙ ap (λ parts. parts ++ components name) (sym (components-eq-reverse dest))

is_abs-join : (dest name : String) → dest ≢ "" → is_abs (join dest (clean name)) ≡ is_abs dest
is_abs-join dest name h =
    ap is_abs (join-eq-clean dest (clean name) h)
    ∙ is_abs-clean (dest <> "/" <> clean name)
    ∙ is_abs-append dest ("/" <> clean name) h

-- A relative name that goes down stays below the directory that it is joined to.
pub join-Below :
    (dest name : String)
    → dest ≢ ""
    → All GoesDown (components name)
    → Below dest (join dest (clean name))
join-Below dest name h down = record {
  rooted = is_abs-join dest name h;
  parts = components name;
  components = components-join dest name h down;
  down = down;
  shortest =
      ap clean (join-eq-clean dest (clean name) h)
      ∙ (clean_twice (dest <> "/" <> clean name)).0
      ∙ sym (join-eq-clean dest (clean name) h);
}

apart-append : (base parts : List String) → apart base (base ++ parts) ≡ ([], parts)
unfolding apart
apart-append [] parts = refl
apart-append (b ∷ base) parts = ground (arith, eq_refl b, apart-append base parts)

way_between-same :
    (r : Bool) (base target : List String) → way_between r r base target ≡ way (apart base target)
way_between-same true base target = refl
way_between-same false base target = refl

rel-eq-way :
    (base target : String)
    → is_abs target ≡ is_abs base
    → rel base target ≡ way (apart (components base) (components target))
unfolding rel
rel-eq-way base target h =
    ap (λ r. way_between (is_abs base) r (components base) (components target)) h
    ∙ way_between-same (is_abs base) (components base) (components target)

pub clean-relative :
    (name : String) → is_abs name ≡ false → clean name ≡ render false (components name)
unfolding clean
clean-relative name h = ap (λ r. render r (components name)) h

-- Rel finds the name again.
pub rel-join :
    (dest name : String)
    → dest ≢ ""
    → is_abs name ≡ false
    → All GoesDown (components name)
    → rel dest (join dest (clean name)) ≡ some (clean name)
rel-join dest name h relative down =
    rel-eq-way dest (join dest (clean name)) (is_abs-join dest name h)
    ∙ ap (λ parts. way (apart (components dest) parts)) (components-join dest name h down)
    ∙ ap way (apart-append (components dest) (components name))
    ∙ ap some (sym (clean-relative name relative))

-- ===== src/FilePath/Joined.antt =====
-- Parts that go down, joined to a directory one after the other.
use mathlib.Core.List.{reverse, reverse-append, reverse-reverse}
use vulpes_core.Base.{
  String, ◌<>◌, ◌≡◌, ◌≢◌, refl, ap, sym, ◌∙◌, List, [], ◌∷◌, ◌++◌, eq-false, All,
}
use vulpes_core.FilePath.Defs.{
  split_slash, join_slash, is_abs, resolve_all, stack_of, components, clean, join_all,
}
use vulpes_core.FilePath.Split.{NoSlash, split_slash-append, split_slash-join_slash}
use vulpes_core.FilePath.Clean.{GoesDown, resolve_all-append, resolve_all-down}
use vulpes_core.FilePath.Render.{is_abs-append, components-clean}
use vulpes_core.FilePath.Below.{components-eq-reverse}

All-GoesDown-NoSlash : (parts : List String) → All GoesDown parts → All NoSlash parts
All-GoesDown-NoSlash [] h = tt
All-GoesDown-NoSlash (x ∷ xs) (h, hs) = (h.0.0, All-GoesDown-NoSlash xs hs)

join_all-eq-clean :
    (base part : String) (parts : List String)
    → base ≢ ""
    → join_all (base ∷ part ∷ parts) ≡ clean (base <> "/" <> join_slash (part ∷ parts))
unfolding join_all join_slash
join_all-eq-clean base part parts h = rw (eq-false base "" h) refl

stack_of-joined :
    (base part : String) (parts : List String)
    → base ≢ ""
    → All GoesDown (part ∷ parts)
    → stack_of (base <> "/" <> join_slash (part ∷ parts)) ≡ reverse (part ∷ parts) ++ stack_of base
unfolding stack_of
stack_of-joined base part parts h down =
    let text = join_slash (part ∷ parts) in
    let r = is_abs base in
    ap (λ b. resolve_all b [] (split_slash (base <> "/" <> text)))
      (is_abs-append base ("/" <> text) h)
    ∙ ap (λ l. resolve_all r [] l) (split_slash-append base text)
    ∙ resolve_all-append r [] (split_slash base) (split_slash text)
    ∙ ap (λ l. resolve_all r (stack_of base) l)
        (split_slash-join_slash part parts (All-GoesDown-NoSlash (part ∷ parts) down))
    ∙ resolve_all-down r (stack_of base) (part ∷ parts) down

-- The parts stand behind those of the directory.
pub components-join_all :
    (base part : String) (parts : List String)
    → base ≢ ""
    → All GoesDown (part ∷ parts)
    → components (join_all (base ∷ part ∷ parts)) ≡ components base ++ part ∷ parts
components-join_all base part parts h down =
    let all = part ∷ parts in
    let text = base <> "/" <> join_slash all in
    ap components (join_all-eq-clean base part parts h)
    ∙ components-clean text
    ∙ components-eq-reverse text
    ∙ ap (λ st. reverse st) (stack_of-joined base part parts h down)
    ∙ reverse-append (reverse all) (stack_of base)
    ∙ ap (λ l. reverse (stack_of base) ++ l) (reverse-reverse all)
    ∙ ap (λ l. l ++ all) (sym (components-eq-reverse base))

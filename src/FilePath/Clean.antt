-- ===== src/FilePath/Clean.antt =====
-- The shortest form of a path: its parts, and the parts of a path that is already in that form.
use mathlib.Core.List.{reverse, reverse-cons, append_assoc}
use vulpes_core.Base.{
  String, ◌≡◌, ◌≢◌, refl, ap, sym, ◌∙◌, Bool, true, false, List, [], ◌∷◌, ◌++◌, ◌==◌, eq_iff, arith,
  inl, inr, ◌||◌, Bool-cases, All,
}
use vulpes_core.FilePath.Defs.{split_slash, is_abs, up, resolve, resolve_all, stack_of}
use vulpes_core.FilePath.Split.{NoSlash, split_slash-NoSlash}

-- A part of a shortest form.
abbrev pub IsPart : String → Type 0
IsPart x = NoSlash x × (x ≢ "") × (x ≢ ".")

-- A part that goes down.
abbrev pub GoesDown : String → Type 0
GoesDown x = IsPart x × (x ≢ "..")

-- A stack of parts, the top first: the parts `..` stand at the bottom, and only in a relative path.
abbrev pub IsStack : Bool → List String → Type 0
IsStack rooted [] = Unit
IsStack rooted (x ∷ xs) =
    IsPart x × (x ≡ ".." → (rooted ≡ false) × All (λ y. y ≡ "..") xs) × IsStack rooted xs

differ : (s t : String) → (s == t) ≡ false → s ≢ t
differ s t h e = ground (arith, eq_iff s t, h, e)

dots-IsPart : IsPart ".."
dots-IsPart = (refl, differ ".." "" refl, differ ".." "." refl)

up-again : (xs : List String) → All (λ y. y ≡ "..") xs → up false xs ≡ ".." ∷ xs
up-again [] h = refl
up-again (y ∷ ys) (h, hs) = ground (arith, eq_iff y "..", h)

up-IsStack :
    (rooted : Bool) (stack : List String) → IsStack rooted stack → IsStack rooted (up rooted stack)
up-IsStack true [] h = tt
up-IsStack false [] h = (dots-IsPart, (λ _. (refl, tt)), tt)
up-IsStack true (x ∷ xs) h = elim (Bool-cases (x == "..")) [
  | inl e ↦ let bad = (h.1 ((eq_iff x "..").0 e)).0 in ground (arith, bad)
  | inr e ↦ rw e h.2
]
up-IsStack false (x ∷ xs) h = elim (Bool-cases (x == "..")) [
  | inl e ↦
      let dots = (eq_iff x "..").0 e in rw e (dots-IsPart, (λ _. (refl, (dots, (h.1 dots).1))), h)
  | inr e ↦ rw e h.2
]

resolve-IsStack :
    (rooted : Bool) (stack : List String) (part : String)
    → NoSlash part
    → IsStack rooted stack
    → IsStack rooted (resolve rooted stack part)
unfolding resolve
resolve-IsStack rooted stack part n h = elim (Bool-cases (part == "" || part == ".")) [
  | inl e ↦ rw e h
  | inr e ↦ elim (Bool-cases (part == "..")) [
    | inl f ↦ rw (e, f) (up-IsStack rooted stack h)
    | inr f ↦
        let named : (part ≢ "") × (part ≢ ".") × (part ≢ "..") =
          ground (arith, e, f, eq_iff part "", eq_iff part ".", eq_iff part "..") in
        rw (e, f) ((n, named.0, named.1), (λ dots. absurd (named.2 dots)), h)
  ]
]

resolve_all-IsStack :
    (rooted : Bool) (stack parts : List String)
    → All NoSlash parts
    → IsStack rooted stack
    → IsStack rooted (resolve_all rooted stack parts)
unfolding resolve_all
resolve_all-IsStack rooted stack [] n h = h
resolve_all-IsStack rooted stack (part ∷ parts) (n, ns) h =
    resolve_all-IsStack rooted (resolve rooted stack part) parts ns
      (resolve-IsStack rooted stack part n h)

pub stack_of-IsStack : (s : String) → IsStack (is_abs s) (stack_of s)
unfolding stack_of
stack_of-IsStack s = resolve_all-IsStack (is_abs s) [] (split_slash s) (split_slash-NoSlash s) tt

-- What is on a stack is put there again.
resolve-again :
    (rooted : Bool) (x : String) (xs : List String)
    → IsStack rooted (x ∷ xs)
    → resolve rooted xs x ≡ x ∷ xs
unfolding resolve
resolve-again rooted x xs h =
    let named : ((x == "") ≡ false) × ((x == ".") ≡ false) =
      ground (arith, h.0, eq_iff x "", eq_iff x ".") in
    elim (Bool-cases (x == "..")) [
      | inr e ↦ ground (arith, named, e)
      | inl e ↦
          let dots = (eq_iff x "..").0 e in
          let (relative, rest) = h.1 dots in
          let again = ap (λ r. up r xs) relative ∙ up-again xs rest in
          ground (arith, named, e, dots, again)
    ]

pub resolve-down :
    (rooted : Bool) (stack : List String) (x : String)
    → GoesDown x
    → resolve rooted stack x ≡ x ∷ stack
unfolding resolve
resolve-down rooted stack x h = ground (arith, h, eq_iff x "", eq_iff x ".", eq_iff x "..")

pub resolve_all-append :
    (rooted : Bool) (stack parts others : List String)
    → resolve_all rooted stack (parts ++ others)
      ≡ resolve_all rooted (resolve_all rooted stack parts) others
unfolding resolve_all
resolve_all-append rooted stack [] others = refl
resolve_all-append rooted stack (part ∷ parts) others =
    resolve_all-append rooted (resolve rooted stack part) parts others

pub resolve_all-down :
    (rooted : Bool) (stack parts : List String)
    → All GoesDown parts
    → resolve_all rooted stack parts ≡ reverse parts ++ stack
unfolding resolve_all
resolve_all-down rooted stack [] h = refl
resolve_all-down rooted stack (part ∷ parts) (h, hs) =
    ap (λ st. resolve_all rooted st parts) (resolve-down rooted stack part h)
    ∙ resolve_all-down rooted (part ∷ stack) parts hs
    ∙ sym (
        ap (λ r. r ++ stack) (reverse-cons part parts)
        ∙ append_assoc (reverse parts) (part ∷ []) stack)

pub resolve_all-again :
    (rooted : Bool) (stack : List String)
    → IsStack rooted stack
    → resolve_all rooted [] (reverse stack) ≡ stack
unfolding resolve_all
resolve_all-again rooted [] h = refl
resolve_all-again rooted (x ∷ xs) h =
    ap (λ parts. resolve_all rooted [] parts) (reverse-cons x xs)
    ∙ resolve_all-append rooted [] (reverse xs) (x ∷ [])
    ∙ ap (λ st. resolve rooted st x) (resolve_all-again rooted xs h.2)
    ∙ resolve-again rooted x xs h

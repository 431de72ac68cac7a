-- ===== src/Secrets/Reference.antt =====
-- Which texts are references to secrets.
use text.Mathlib.TextLemmas
use text.Mathlib.TextEquality.{Char-path}
use Prim.Native.Char.{Char, code}
use vulpes_core.Base.{
  ℕ, String, ◌<>◌, ◌≡◌, ◌≢◌, ◌↔◌, refl, ap, sym, ◌∙◌, Bool, true, false, ◌&&◌, Option, none, some,
  ◌==◌, eq_iff, eqb, arith, inl, inr, Bool-cases, Option-cases, eq-false,
}
use vulpes_core.Base.Text.{strip_prefix}
use vulpes_core.Base.Prefix.{strip_prefix-some, strip_prefix-append}
use vulpes_core.Secrets.Defs.{is_name_char, name_to_brace, nonempty, name_behind, is_secret_ref}

-- Every character of the text may stand in a name.
abbrev pub all_name : String → Bool
all_name String.[] = true
all_name (String.◌∷◌ c s) = is_name_char c && all_name s

-- The text of a reference.
abbrev pub secret_ref : String → String
secret_ref name = "${secret:" <> name <> "}"

-- The text is the one character of this code.
is_one : ℕ → String → Bool
is_one n String.[] = false
is_one n (String.◌∷◌ d u) = eqb n (code d) && u == ""

is_one-eq : (c : Char) (t : String) → is_one (code c) t ≡ true → String.◌∷◌ c "" ≡ t
unfolding is_one
is_one-eq c String.[] h = ground (arith, h)
is_one-eq c (String.◌∷◌ d u) h =
    let codes : code c ≡ code d = ground (arith, h) in
    let empty : u ≡ "" = ground (arith, h, eq_iff u "") in
    ap (λ e. String.◌∷◌ e "") (Char-path c d codes) ∙ ap (λ v. String.◌∷◌ d v) (sym empty)

name_to_brace-some :
    (s name : String) → name_to_brace s ≡ some name → (s ≡ name <> "}") × (all_name name ≡ true)
unfolding name_to_brace is_one
name_to_brace-some String.[] name h = ground (arith, h)
name_to_brace-some (String.◌∷◌ c s) name h = elim (Bool-cases (is_name_char c)) [
  | inl good ↦ elim (Option-cases (name_to_brace s)) [
    | inl none_left ↦ ground (arith, h, good, none_left)
    | inr (rest, found) ↦
        let (split, valid) = name_to_brace-some s rest found in
        let same : String.◌∷◌ c rest ≡ name = ground (arith, h, good, found) in
        (
          ap (String.◌∷◌ c) split
              ∙ sym (TextLemmas.cons-append c rest "}")
              ∙ ap (λ n. n <> "}") same,
          ap all_name (sym same) ∙ ground (arith, good, valid),
        )
  ]
  | inr bad ↦ elim (Bool-cases (eqb (code c) b'}' && s == "")) [
    | inr other ↦ ground (arith, h, bad, other)
    | inl last ↦
        let same : "" ≡ name = ground (arith, h, bad, last) in
        let brace : code c ≡ b'}' = ground (arith, last) in
        let empty : s ≡ "" = ground (arith, last, eq_iff s "") in
        (
          ap (λ t. String.◌∷◌ c t) empty
              ∙ is_one-eq c "}" (ap (λ n. is_one n "}") brace)
              ∙ ap (λ n. n <> "}") same,
          ap all_name (sym same),
        )
  ]
]

name_to_brace-append :
    (name : String) → all_name name ≡ true → name_to_brace (name <> "}") ≡ some name
unfolding name_to_brace
name_to_brace-append String.[] h = refl
name_to_brace-append (String.◌∷◌ c name) h =
    ap name_to_brace (TextLemmas.cons-append c name "}")
    ∙ ground (arith, h, name_to_brace-append name)

nonempty-some :
    (o : Option String) (name : String) → nonempty o ≡ some name → (o ≡ some name) × (name ≢ "")
nonempty-some none name h = ground (arith, h)
nonempty-some (some x) name h = elim (Bool-cases (x == "")) [
  | inl e ↦ ground (arith, h, e)
  | inr e ↦
      let same : x ≡ name = ground (arith, h, e) in
      (ap some same, λ empty. ground (arith, e, same, empty, eq_iff x ""))
]

read_ref :
    (s name : String)
    → is_secret_ref s ≡ some name
    → (s ≡ secret_ref name) × (name ≢ "") × (all_name name ≡ true)
unfolding is_secret_ref
read_ref s name h = elim (Option-cases (strip_prefix "${secret:" s)) [
  | inl other ↦ ground (arith, h, other)
  | inr (rest, begins) ↦
      let (found, full) =
        nonempty-some (name_to_brace rest) name (ap name_behind (sym begins) ∙ h) in
      let (ends, valid) = name_to_brace-some rest name found in
      (strip_prefix-some "${secret:" s rest begins ∙ ap (λ t. "${secret:" <> t) ends, full, valid)
]

written_ref :
    (name : String) → name ≢ "" → all_name name ≡ true → is_secret_ref (secret_ref name) ≡ some name
unfolding is_secret_ref
written_ref name full valid =
    ap name_behind (strip_prefix-append "${secret:" (name <> "}"))
    ∙ ap nonempty (name_to_brace-append name valid)
    ∙ ground (arith, eq-false name "" full)

-- A text is a reference to a secret exactly if it is `${secret:`, a name and `}`, where the name is
-- not empty and has only letters, digits and `_`, `.`, `/` and `-`; it is read back as this name.
pub is_secret_ref-secret_ref :
    (s name : String)
    → (is_secret_ref s ≡ some name) ↔ ((s ≡ secret_ref name) × (name ≢ "") × (all_name name ≡ true))
is_secret_ref-secret_ref s name =
    (read_ref s name, λ (e, full, valid). ap is_secret_ref e ∙ written_ref name full valid)

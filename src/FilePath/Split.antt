-- ===== src/FilePath/Split.antt =====
-- Cutting a text at its slashes undoes joining with slashes.
use text.Mathlib.TextLemmas
use Prim.Native.Char.{Char}
use vulpes_core.Base.{
  String, ◌<>◌, ◌≡◌, ◌≢◌, refl, ap, ◌∙◌, Bool, true, false, List, [], ◌∷◌, ◌++◌, arith,
  if◌then◌else◌, ◌⊎◌, inl, inr, Bool-cases, All,
}
use vulpes_core.FilePath.Defs.{is_slash, grow, split_slash, join_slash}

-- No character of the text is a slash.
abbrev pub has_slash : String → Bool
has_slash String.[] = false
has_slash (String.◌∷◌ c s) = if is_slash c then true else has_slash s

abbrev pub NoSlash : String → Type 0
NoSlash s = has_slash s ≡ false

List-cases : {A : Type 0} (xs : List A) → (xs ≡ []) ⊎ ((x : A) × (rest : List A) × (xs ≡ x ∷ rest))
List-cases [] = inl refl
List-cases (x ∷ xs) = inr (x, xs, refl)

grow-append :
    (c : Char) (parts others : List String)
    → parts ≢ []
    → grow c parts ++ others ≡ grow c (parts ++ others)
grow-append c [] others h = absurd (h refl)
grow-append c (part ∷ parts) others h = refl

NoSlash-grow :
    (c : Char) (parts : List String)
    → is_slash c ≡ false
    → All NoSlash parts
    → All NoSlash (grow c parts)
NoSlash-grow c [] e h = (ground (arith, e), tt)
NoSlash-grow c (part ∷ parts) e (h, hs) = (ground (arith, e, h), hs)

pub split_slash-ne-nil : (s : String) → split_slash s ≢ []
unfolding split_slash
split_slash-ne-nil String.[] e = ground (arith, e)
split_slash-ne-nil (String.◌∷◌ c s) e = elim (List-cases (split_slash s)) [
  | inl empty ↦ absurd (split_slash-ne-nil s empty)
  | inr (x, xs, full) ↦ ground (arith, e, full)
]

pub split_slash-slash : (t : String) → split_slash ("/" <> t) ≡ "" ∷ split_slash t
unfolding split_slash
split_slash-slash t =
    ap split_slash (TextLemmas.cons-append _ String.[] t)
    ∙ ap (λ u. "" ∷ split_slash u) (TextLemmas.nil-append t)

-- A slash between two texts is cut there.
pub split_slash-append :
    (s t : String) → split_slash (s <> "/" <> t) ≡ split_slash s ++ split_slash t
unfolding split_slash
split_slash-append String.[] t =
    ap split_slash (TextLemmas.nil-append ("/" <> t)) ∙ split_slash-slash t
split_slash-append (String.◌∷◌ c s) t =
    ap split_slash (TextLemmas.cons-append c s ("/" <> t)) ∙ elim (Bool-cases (is_slash c)) [
      | inl e ↦ ground (arith, e, split_slash-append s t)
      | inr e ↦ ground (
        arith,
        e,
        split_slash-append s t,
        grow-append c (split_slash s) (split_slash t) (split_slash-ne-nil s),
      )
    ]

pub split_slash-one : (s : String) → NoSlash s → split_slash s ≡ s ∷ []
unfolding split_slash
split_slash-one String.[] h = refl
split_slash-one (String.◌∷◌ c s) h = ground (arith, h, split_slash-one s)

-- Parts without a slash, at least one of them, come back.
pub split_slash-join_slash :
    (part : String) (parts : List String)
    → All NoSlash (part ∷ parts)
    → split_slash (join_slash (part ∷ parts)) ≡ part ∷ parts
unfolding join_slash
split_slash-join_slash part [] (h, _) = split_slash-one part h
split_slash-join_slash part (next ∷ parts) (h, hs) =
    split_slash-append part (join_slash (next ∷ parts))
    ∙ rw (split_slash-one part h, split_slash-join_slash next parts hs)

-- What is cut has no slash.
pub split_slash-NoSlash : (s : String) → All NoSlash (split_slash s)
unfolding split_slash
split_slash-NoSlash String.[] = (refl, tt)
split_slash-NoSlash (String.◌∷◌ c s) = elim (Bool-cases (is_slash c)) [
  | inl e ↦ ground (arith, e, split_slash-NoSlash s)
  | inr e ↦ ground (arith, e, NoSlash-grow c (split_slash s) e (split_slash-NoSlash s))
]

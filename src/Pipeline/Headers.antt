-- ===== src/Pipeline/Headers.antt =====
-- The properties that a caller gives in its headers.
use text.Mathlib.TextLemmas
use vulpes_core.Base.{
  String, ◌<>◌, ◌≡◌, refl, ap, ◌∙◌, false, Option, none, some, [], ◌∷◌, ◌==◌, arith, if◌then◌else◌,
  eq_iff, eq-false, inl, inr, Option-cases,
}
use vulpes_core.Base.Dict.{Dict, lookup, insert, lookup-insert, lookup-nil}
use vulpes_core.Base.Text.{strip_prefix, to_lower}
use vulpes_core.Base.Prefix.{strip_prefix-some, strip_prefix-append}
use vulpes_core.Pipeline.Props.{property_prefix, extract_properties, collect_properties}

-- The value of the last header whose name is this, but for the case of its letters.
abbrev pub last_named : String → Option String → Dict String → Option String
last_named name old [] = old
last_named name old ((k, v) ∷ headers) =
    last_named name (if to_lower k == name then some v else old) headers

-- A text without the prefix is no property's header.
differs :
    (name s : String)
    → strip_prefix property_prefix s ≡ none
    → (s == (property_prefix <> name)) ≡ false
differs name s e = eq-false s (property_prefix <> name) (λ same.
    let found =
      ap (λ t. strip_prefix property_prefix t) same ∙ strip_prefix-append property_prefix name in
    ground (arith, found, e))

same_name :
    (name j s : String)
    → strip_prefix property_prefix s ≡ some j
    → (j == name) ≡ (s == (property_prefix <> name))
same_name name j s e =
    let split = strip_prefix-some property_prefix s j e in
    ground (
      arith,
      eq_iff j name,
      eq_iff s (property_prefix <> name),
      split,
      TextLemmas.append_cancel_left property_prefix j name,
    )

lookup-collect_properties :
    (name : String) (headers props : Dict String)
    → lookup name (collect_properties props headers)
      ≡ last_named (property_prefix <> name) (lookup name props) headers
unfolding collect_properties
lookup-collect_properties name [] props = refl
lookup-collect_properties name ((k, v) ∷ headers) props =
    elim (Option-cases (strip_prefix property_prefix (to_lower k))) [
      | inl e ↦
          let other : (to_lower k == (property_prefix <> name)) ≡ false =
            differs name (to_lower k) e in
          rw (e, other) (lookup-collect_properties name headers props)
      | inr (j, e) ↦ rw e (
          lookup-collect_properties name headers (insert j v props)
          ∙ ap (λ o. last_named (property_prefix <> name) o headers)
              (lookup-insert name j v props
                ∙ ap (λ b. if b then some v else lookup name props)
                    (same_name name j (to_lower k) e)))
    ]

-- The properties extracted from headers are those that the headers name behind the prefix
-- x-gateway-property-, in letters of either case: each has the value of the last header of that
-- name, and a name that no header has is no property.
pub lookup-extract_properties :
    (headers : Dict String) (name : String)
    → lookup name (extract_properties headers) ≡ last_named (property_prefix <> name) none headers
unfolding extract_properties
lookup-extract_properties headers name =
    lookup-collect_properties name headers []
    ∙ ap (λ o. last_named (property_prefix <> name) o headers) (lookup-nil name)

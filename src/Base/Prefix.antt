-- ===== src/Base/Prefix.antt =====
-- Texts with a prefix, and what `strip_prefix` finds.
use text.Mathlib.TextLemmas
use text.Mathlib.TextEquality.{Char-path}
use Prim.Native.Char.{code}
use Prim.Native.String.{String, ◌++◌ as ◌<>◌}
use mathlib.Core.Path.{◌≡◌, ap, sym, ◌∙◌}
use mathlib.Core.Logic.{inl, inr}
use mathlib.Core.Option.{some}
use native.Mathlib.Omega.{arith}
use vulpes_core.Base.Tests.{eqb, Bool-cases}
use vulpes_core.Base.Text.{strip_prefix}

pub strip_prefix-some :
    (prefix s rest : String) → strip_prefix prefix s ≡ some rest → s ≡ prefix <> rest
unfolding strip_prefix
strip_prefix-some String.[] s rest h = ground (arith, h, TextLemmas.nil-append rest)
strip_prefix-some (String.◌∷◌ p prefix) String.[] rest h = ground (arith, h)
strip_prefix-some (String.◌∷◌ p prefix) (String.◌∷◌ c s) rest h =
    elim (Bool-cases (eqb (code p) (code c))) [
      | inr other ↦ ground (arith, h, other)
      | inl same ↦
          let codes : code c ≡ code p = ground (arith, same) in
          let tail : strip_prefix prefix s ≡ some rest = ground (arith, h, same) in
          ap (λ d. String.◌∷◌ d s) (Char-path c p codes)
          ∙ ap (λ t. String.◌∷◌ p t) (strip_prefix-some prefix s rest tail)
          ∙ sym (TextLemmas.cons-append p prefix rest)
    ]

pub strip_prefix-append : (prefix name : String) → strip_prefix prefix (prefix <> name) ≡ some name
unfolding strip_prefix
strip_prefix-append String.[] name = ap some (TextLemmas.nil-append name)
strip_prefix-append (String.◌∷◌ p prefix) name =
    ap (λ s. strip_prefix (String.◌∷◌ p prefix) s) (TextLemmas.cons-append p prefix name)
    ∙ ground (arith, strip_prefix-append prefix name)

-- ===== src/Config/Duration.antt =====
-- internal/config/duration.go: a duration in the YAML file. `time.ParseDuration` is an argument, and
-- so is the text that a Duration of package time has.
use vulpes_core.Base.{
  String, ◌<>◌, ◌≡◌, ap, ◌∙◌, ◌==◌, false, if◌then◌else◌, Result, ok, err, arith,
}
use vulpes_core.Base.Int.{ℤ}
use vulpes_core.Base.Text.{quote, sprint_int}
use vulpes_core.Base.ParseInt.{NumError, syntax, range, parse_int, is_int64, parse_int-sprint_int}

-- The kinds of a YAML node: `yaml.ScalarNode`, and the others.
pub data NodeKind : Type 0 where
  scalar_node : NodeKind
  other_node : NodeKind

-- What is read of a `yaml.Node`.
pub record Node : Type 0 where
  pub kind : NodeKind
  pub tag : String
  pub value : String

-- The text of a `strconv.NumError` of ParseInt.
abbrev pub num_error : String → NumError → String
num_error value syntax = "strconv.ParseInt: parsing " <> quote value <> ": invalid syntax"
num_error value range = "strconv.ParseInt: parsing " <> quote value <> ": value out of range"

-- The number of nanoseconds, which a text without a unit is.
abbrev pub as_nanoseconds : String → Result NumError ℤ → Result String ℤ
as_nanoseconds value (ok n) = ok n
as_nanoseconds value (err e) = err (num_error value e)

module _ (parse_duration : String → Result String ℤ) where
  abbrev unmarshal_scalar : Node → Result String ℤ
  unmarshal_scalar node =
      if node.tag == "!!str"
      then parse_duration node.value
      else as_nanoseconds node.value (parse_int node.value)

  -- `UnmarshalYAML`: the duration in nanoseconds, or the text of the error.
  unfoldable pub unmarshal_yaml : Node → Result String ℤ
  unfolding parse_int
  unmarshal_yaml node = elim node.kind [
    | scalar_node ↦ unmarshal_scalar node
    | other_node ↦ err ("invalid duration node " <> node.value)
  ]

  -- A number in the file that has no unit is the duration of so many nanoseconds: a scalar with a
  -- printed integer, and a tag other than that of a string, is read as the integer if it has 64
  -- bits, and refused as out of range otherwise. It is never cut.
  pub unmarshal_yaml-sprint_int :
      (z : ℤ) (tag : String)
      → (tag == "!!str") ≡ false
      → unmarshal_yaml (record { kind = scalar_node; tag = tag; value = sprint_int z })
        ≡ (if is_int64 z then ok z else err (num_error (sprint_int z) range))
  unfolding unmarshal_yaml
  unmarshal_yaml-sprint_int z tag h =
      let read = ap (as_nanoseconds (sprint_int z)) (parse_int-sprint_int z) in
      rw h (read ∙ ground (arith))

-- `MarshalText`
abbrev pub marshal_text : (ℤ → String) → ℤ → String
marshal_text duration_string d = duration_string d

-- ===== src/Manager/Schema.antt =====
-- `validateJSONSchema` of internal/plugins/manager.go. encoding/json and the JSON schema library are
-- arguments.
use vulpes_core.Base.{String, Option, none, some, ◌==◌, Result, ok, err, if◌then◌else◌}
use vulpes_core.Base.Value.{Value, Fields}
use vulpes_core.Capabilities.{Error}
use vulpes_core.Secrets.{trim_space}

pub record SchemaLibrary : Type 0 where
  -- `json.Unmarshal` into any value
  pub unmarshal : String → Result Error Value
  -- `json.Marshal`, whose error is dropped
  pub marshal : Fields → String
  -- `AddResource` of a new compiler for the draft 2020
  pub add_resource : Value → Option Error
  -- `Compile`, and `Validate` of the schema that it gives
  pub compile : Value → Result Error (Value → Option Error)

module _ (lib : SchemaLibrary) where
  -- The configuration, as JSON has it, against the schema.
  abbrev check_value : (Value → Option Error) → Result Error Value → Option Error
  check_value schema (err e) = some e
  check_value schema (ok v) = schema v

  -- What follows `Compile`.
  abbrev check_config : Fields → Result Error (Value → Option Error) → Option Error
  check_config config (err e) = some e
  check_config config (ok schema) = check_value schema (lib.unmarshal (lib.marshal config))

  -- The error, or `none` for nil. A blank schema takes every configuration.
  unfoldable pub validate_json_schema : String → Fields → Option Error
  unfolding trim_space
  validate_json_schema schema config =
      if trim_space schema == "" then none else elim (lib.unmarshal schema) [
        | err e ↦ some e
        | ok doc ↦ (elim (lib.add_resource doc) [
          | some e ↦ some e
          | none ↦ check_config config (lib.compile doc)
        ])
      ]

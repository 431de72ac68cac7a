-- ===== src/Base/Value.antt =====
-- Go's `any` as far as the program meets it: values decoded from YAML and JSON. A floating-point
-- number is its 64-bit pattern, which is copied and never computed with.
use Prim.Native.Nat.{ℕ}
use Prim.Native.String.{String}
use mathlib.Core.Bool.{Bool}
use vulpes_core.Base.Int.{ℤ}

pub record Float64 : Type 0 where
  pub bits : ℕ

mutual
  pub data Value : Type 0 where
    null : Value
    bool : Bool → Value
    int : ℤ → Value
    float : Float64 → Value
    str : String → Value
    arr : Items → Value
    obj : Fields → Value

  pub data Fields : Type 0 where
    no_fields : Fields
    entry : String → Value → Fields → Fields

  pub data Items : Type 0 where
    no_items : Items
    item : Value → Items → Items

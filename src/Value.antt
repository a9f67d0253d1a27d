-- ===== src/Value.antt =====
-- The values that a policy finds in its parameters and in the metadata of a request: Go's
-- interface{} as far as the policies look into it. A map is the list of its entries.
use text.Mathlib.Text.{◌==◌ as str_eq}
use gateway_controllers.Prelude.{ℕ, String, Bool, Option, none, some, if◌then◌else◌}
use gateway_controllers.Prelude.Int.{ℤ}

-- `float64 b` and `float32 b` hold the bits of the float, `other t` is a value of another type, of the name `t`.
mutual
  pub data Value : Type 0 where
    nil_value : Value
    bool : Bool → Value
    int : ℤ → Value
    int32 : ℤ → Value
    int64 : ℤ → Value
    float32 : ℕ → Value
    float64 : ℕ → Value
    string : String → Value
    array : Items → Value
    object : Fields → Value
    other : String → Value

  pub data Items : Type 0 where
    end : Items
    item : Value → Items → Items

  pub data Fields : Type 0 where
    empty : Fields
    field : String → Value → Fields → Fields

-- `v, ok := m[name]`
abbrev pub lookup : String → Fields → Option Value
lookup name empty = none
lookup name (field n v rest) = if str_eq n name then some v else lookup name rest

-- `%T` of a value.
abbrev pub type_name : Value → String
type_name nil_value = "<nil>"
type_name (bool b) = "bool"
type_name (int n) = "int"
type_name (int32 n) = "int32"
type_name (int64 n) = "int64"
type_name (float32 b) = "float32"
type_name (float64 b) = "float64"
type_name (string s) = "string"
type_name (array xs) = "[]interface {}"
type_name (object fs) = "map[string]interface {}"
type_name (other t) = t

-- What the policies use of Go's float64 on its bits: `int(v)`, `float64(n)`, `==` and `%v`.
pub record FloatOps : Type 0 where
  pub to_int : ℕ → ℤ
  pub of_int : ℤ → ℕ
  pub same : ℕ → ℕ → Bool
  pub show : ℕ → String

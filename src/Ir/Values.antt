-- ===== src/Ir/Values.antt =====
-- Go values that the program copies and hardly looks into: floats and `interface{}`.
use nebularr_operator.Common.{ℕ, String, Bool, ℤ}

-- A float64 is the conversion of an `int`, or a value from outside by its 64 bits.
pub data Float64 : Type 0 where
  of_int : ℤ → Float64
  of_bits : ℕ → Float64

-- What `encoding/json` decodes into an `interface{}`, and the strings that the compiler puts there.
mutual
  pub data Any : Type 0 where
    null : Any
    text : String → Any
    number : Float64 → Any
    flag : Bool → Any
    array : Anys → Any
    object : Entries → Any

  pub data Anys : Type 0 where
    nil : Anys
    cons : Any → Anys → Anys

  pub data Entries : Type 0 where
    end : Entries
    entry : String → Any → Entries → Entries

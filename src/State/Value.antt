-- ===== src/State/Value.antt =====
-- The values that evidence retains (`Any` in state.py). A Pydantic model, a dataclass and a mapping
-- with string keys are all fields by name. A float is kept by its bit pattern, since the modelled
-- code compares and stores such values and never computes with them.
use jev_frame.Prelude.{ℕ, String, Bool}
use jev_frame.Prelude.Int.{ℤ}

mutual
  pub data Value : Type 0 where
    null : Value
    flag : Bool → Value
    int : ℤ → Value
    float : ℕ → Value
    text : String → Value
    array : Items → Value
    object : Fields → Value

  pub data Items : Type 0 where
    nil : Items
    cons : Value → Items → Items

  pub data Fields : Type 0 where
    end : Fields
    field : String → Value → Fields → Fields

-- ===== src/Models/Json.antt =====
-- The values that an audit event's `details` are built from, before and after they are made safe
-- for JSON (backend/app/services/audit.py).
use rental_property.Base.{ℕ, Bool}
use rental_property.Text.{Str}

-- What `str(value)` is taken of: an id, a date, an instant or an amount in cents.
pub data Scalar : Type 0 where
  uuid date datetime decimal : ℕ → Scalar

mutual
  -- `opaque` stands for any other Python object; `printed` and `printed_opaque` are their texts.
  pub data Value : Type 0 where
    null : Value
    flag : Bool → Value
    number : ℕ → Value
    text : Str → Value
    scalar : Scalar → Value
    printed : Scalar → Value
    opaque : ℕ → Value
    printed_opaque : ℕ → Value
    items : Values → Value
    dict : Fields → Value

  pub data Values : Type 0 where
    nil : Values
    cons : Value → Values → Values

  pub data Fields : Type 0 where
    end : Fields
    field : Str → Value → Fields → Fields

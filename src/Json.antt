-- ===== src/Json.antt =====
-- The values of Python's `dict[str, Any]` and `json`: what metadata, payloads and details hold.
-- A number is kept as its literal text, since the code never computes with one.
use dayu_water_agent.Prelude.{String, Bool}
use dayu_water_agent.Dict.{Dict}

mutual
  pub data Json : Type 0 where
    null : Json
    boolean : Bool → Json
    number : String → Json
    string : String → Json
    array : Items → Json
    object : Fields → Json

  pub data Items : Type 0 where
    end_items : Items
    item : Json → Items → Items

  pub data Fields : Type 0 where
    end_fields : Fields
    field : String → Json → Fields → Fields

abbrev pub Payload : Type 0
Payload = Dict Json

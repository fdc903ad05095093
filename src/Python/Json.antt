-- ===== src/Python/Json.antt =====
-- The values that `json.loads` makes, and `dict.get` on an object.
use dataveda_nifty_agent.Prelude.{String, Bool, Option, none, some, str_eq, if◌then◌else◌}
use dataveda_nifty_agent.Python.Float.{ℤ, Float}

mutual
  pub data Json : Type 0 where
    null : Json
    boolean : Bool → Json
    int : ℤ → Json
    float : Float → Json
    str : String → Json
    arr : Items → Json
    obj : Fields → Json

  pub data Items : Type 0 where
    nil : Items
    cons : Json → Items → Items

  pub data Fields : Type 0 where
    end : Fields
    field : String → Json → Fields → Fields

-- d.get(key)
unfoldable pub get_field : String → Fields → Option Json
get_field key end = none
get_field key (field k v fs) = if str_eq key k then some v else get_field key fs

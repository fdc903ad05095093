-- ===== src/Runtime.antt =====
-- What the program takes from code outside the repository, as the fields of a record: hashlib,
-- the interpreter's tables and printing, pydantic's coercions, the database's SUM and the driver.
-- No field is given a meaning here; a theorem that needs one states it as a hypothesis.
use Prim.Native.Char.{Char}
use dataveda_nifty_agent.Prelude.{String, Option, List}
use dataveda_nifty_agent.Python.Float.{ℤ, Float}
use dataveda_nifty_agent.Python.Json.{Json}

pub record Runtime : Type 0 where
  -- hashlib.sha256(text.encode()).hexdigest()
  pub sha256_hex : String → String
  -- str.upper of one character outside a to z
  pub upper_other : Char → String
  -- str(value), and f"{value}" and f"{value:.2f}" of a float
  pub show_json : Json → String
  pub show_float : Float → String
  pub show_fixed : Float → String
  -- pydantic's lax coercion of a JSON value to a `str`, a `float`, an `int` and an `EmailStr` field
  pub as_text : Json → Option String
  pub as_float : Json → Option Float
  pub as_int : Json → Option ℤ
  pub as_email : Json → Option String
  -- SQL's SUM over the values that are not NULL, where there is one
  pub sql_sum : Float → List Float → Float
  -- What the driver writes for a parameter of a text column: `none` where it refuses the value,
  -- `some none` for NULL.
  pub bind_text : Json → Option (Option String)

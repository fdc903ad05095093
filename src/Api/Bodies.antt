-- ===== src/Api/Bodies.antt =====
-- app/main.py: the bodies of the requests, as the pydantic models read them, and what FastAPI does
-- with one that they refuse.
pub mod Binding
pub mod Limits
pub mod Receive
use dataveda_nifty_agent.Prelude.{ℕ, String, Option, none, some, List, [], ◌∷◌}
use dataveda_nifty_agent.Python.Float.{ℤ, pos, Float}
use dataveda_nifty_agent.Python.Json.{
  Json, null, boolean, int, float, str, arr, obj, Items, nil, cons, Fields, end, field, get_field,
}
use dataveda_nifty_agent.Python.Dict.{Dict}
use dataveda_nifty_agent.Runtime.{Runtime}
use dataveda_nifty_agent.Models.Signal.{required, optional_float, ◌>>=◌}
use dataveda_nifty_agent.Storage.Models.{RiskSettings}

module _ (rt : Runtime) where
  -- SignupRequest
  unfoldable pub read_signup : Fields → Option String
  read_signup raw = required rt rt.as_email (get_field "email" raw)

  -- dict[str, str]
  unfoldable pub read_texts : Fields → Option (Dict String)
  read_texts end = some []
  read_texts (field k v raw) = do
    text ← rt.as_text v
    rest ← read_texts raw
    some ((k, text) ∷ rest)

  abbrev read_dict : Json → Option (Dict String)
  read_dict (obj raw) = read_texts raw
  read_dict _ = none

  -- SymbolMapUpdate
  unfoldable pub read_symbol_map : Fields → Option (Dict String)
  read_symbol_map raw = required rt read_dict (get_field "symbol_map" raw)

  -- list[str] | None
  unfoldable pub read_items : Items → Option (List String)
  read_items nil = some []
  read_items (cons v vs) = do text ← rt.as_text v; rest ← read_items vs; some (text ∷ rest)

  abbrev optional_texts : Option Json → Option (Option (List String))
  optional_texts none = some none
  optional_texts (some null) = some none
  optional_texts (some (arr vs)) = read_items vs >>= λ texts. some (some texts)
  optional_texts (some _) = none

  -- RiskSettingsUpdate
  unfoldable pub read_risk_settings : Fields → Option RiskSettings
  read_risk_settings raw = do
    max_qty_per_order ← optional_float rt (get_field "max_qty_per_order" raw)
    max_daily_loss ← optional_float rt (get_field "max_daily_loss" raw)
    allowed_symbols ← optional_texts (get_field "allowed_symbols" raw)
    some (record {
      max_qty_per_order = max_qty_per_order;
      max_daily_loss = max_daily_loss;
      allowed_symbols = allowed_symbols;
    })

  abbrev days_or_default : Option Json → Option ℤ
  days_or_default none = some (pos 30)
  days_or_default (some v) = rt.as_int v

  -- SubscriptionGrant
  unfoldable pub read_grant : Fields → Option ℤ
  read_grant raw = days_or_default (get_field "days" raw)

-- ===== src/Storage/Models.antt =====
-- app/storage/models.py: the two tables. Times are microseconds since 0001-01-01, in UTC.
use dataveda_nifty_agent.Prelude.{ℕ, String, Bool, Option, List}
use dataveda_nifty_agent.Python.Float.{Float}
use dataveda_nifty_agent.Python.Dict.{Dict}

-- The JSON object `risk_settings`; a field that is `none` is a key that the object does not have.
pub record RiskSettings : Type 0 where
  pub max_qty_per_order : Option Float
  pub max_daily_loss : Option Float
  pub allowed_symbols : Option (List String)

pub record Tenant : Type 0 where
  pub id : String
  pub email : String
  pub api_key_hash : String
  pub webhook_id : String
  pub webhook_passphrase_hash : String
  pub agent_token_hash : String
  pub symbol_map : Dict String
  pub risk_settings : RiskSettings
  pub plan : String
  pub kill_switch_engaged : Bool
  pub kill_switch_reason : String
  pub subscription_expires_at : Option ℕ
  pub created_at : ℕ

pub record TradeLog : Type 0 where
  pub id : ℕ
  pub tenant_id : String
  pub signal_id : String
  pub strategy : String
  pub symbol : String
  pub action : String
  pub side : Option String
  pub quantity : Float
  pub status : String
  pub message : String
  pub broker_order_id : Option String
  pub realized_pnl : Option Float
  pub created_at : ℕ

-- Both tables, the rows in the order of insertion, and the next id of `trade_log`.
pub record Db : Type 0 where
  pub tenants : List Tenant
  pub trades : List TradeLog
  pub next_id : ℕ

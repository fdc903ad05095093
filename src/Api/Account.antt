-- ===== src/Api/Account.antt =====
-- app/main.py: /signup and the /me endpoints. Each takes the tenant that `get_current_tenant` found.
pub mod SymbolMap
use dataveda_nifty_agent.Prelude.{
  ℕ, String, ◌+s◌, Bool, Option, none, some, List, [], ◌∷◌, map, min, max,
}
use dataveda_nifty_agent.Python.Float.{ℤ, pos, negsuc, Float}
use dataveda_nifty_agent.Python.Text.{strip, remove_suffix}
use dataveda_nifty_agent.Python.Dict.{Dict, put}
use dataveda_nifty_agent.Runtime.{Runtime}
use dataveda_nifty_agent.Models.Signal.{upper_symbol}
use dataveda_nifty_agent.Storage.Models.{RiskSettings, Tenant, TradeLog, Db}
use dataveda_nifty_agent.Storage.Action.{http, Action, pure, raise, ◌>>=◌}
use dataveda_nifty_agent.Storage.Tenants.{Draws, Secrets, create_tenant}
use dataveda_nifty_agent.Storage.Subscription.{Status, subscription_status}
use dataveda_nifty_agent.Storage.Settings.{set_kill_switch, update_symbol_map, update_risk_settings}
use dataveda_nifty_agent.Storage.Credentials.{regenerate_webhook_passphrase, regenerate_agent_token}
use dataveda_nifty_agent.Storage.Trades.{get_today_realized_pnl, list_trades}
use dataveda_nifty_agent.Ws.Manager.{Manager, is_connected}

abbrev pub or_conflict : Option (Tenant × Secrets) → Action (Tenant × Secrets)
or_conflict none = raise (http 409)
or_conflict (some created) = pure created

abbrev pub webhook_url : String → String
webhook_url webhook_id = "/webhook/tradingview/" +s webhook_id

-- GET /me
pub record Me : Type 0 where
  pub tenant_id : String
  pub email : String
  pub webhook_url : String
  pub symbol_map : Dict String
  pub risk_settings : RiskSettings
  pub plan : String
  pub kill_switch_engaged : Bool
  pub kill_switch_reason : String
  pub status : Status
  pub bridge_agent_connected : Bool
  pub today_realized_pnl : Float

-- One trade of GET /me/trades.
pub record Trade : Type 0 where
  pub signal_id : String
  pub strategy : String
  pub symbol : String
  pub action : String
  pub side : Option String
  pub quantity : Float
  pub status : String
  pub message : String
  pub broker_order_id : Option String
  pub realized_pnl : Option Float
  pub created_at : ℕ

unfoldable pub to_trade : TradeLog → Trade
to_trade t = record {
  signal_id = remove_suffix ":mt5" t.signal_id;
  strategy = t.strategy;
  symbol = t.symbol;
  action = t.action;
  side = t.side;
  quantity = t.quantity;
  status = t.status;
  message = t.message;
  broker_order_id = t.broker_order_id;
  realized_pnl = t.realized_pnl;
  created_at = t.created_at;
}

-- max(1, min(limit, most)) and max(0, offset), of a Python int.
unfoldable pub clamp_limit : ℤ → ℕ → ℕ
clamp_limit (pos n) most = max 1 (min n most)
clamp_limit (negsuc n) most = 1

unfoldable pub clamp_offset : ℤ → ℕ
clamp_offset (pos n) = n
clamp_offset (negsuc n) = 0

abbrev pub or_old {ℓ} : {A : Type ℓ} → Option A → Option A → Option A
or_old none old = old
or_old (some new) old = some new

-- current.update(payload.model_dump(exclude_none=True))
unfoldable pub merge_settings : RiskSettings → RiskSettings → RiskSettings
merge_settings current payload = record {
  max_qty_per_order = or_old payload.max_qty_per_order current.max_qty_per_order;
  max_daily_loss = or_old payload.max_daily_loss current.max_daily_loss;
  allowed_symbols = or_old payload.allowed_symbols current.allowed_symbols;
}

module _ (rt : Runtime) where
  unfoldable pub signup : String → Draws → ℕ → Action (Tenant × Secrets)
  signup email drawn now = do created ← create_tenant rt email drawn now; or_conflict created

  -- `now` is the clock of the status, `later` that of today's PnL.
  unfoldable pub get_me : (now later : ℕ) → Manager → Tenant → Db → Me
  get_me now later manager tenant db = record {
    tenant_id = tenant.id;
    email = tenant.email;
    webhook_url = webhook_url tenant.webhook_id;
    symbol_map = tenant.symbol_map;
    risk_settings = tenant.risk_settings;
    plan = tenant.plan;
    kill_switch_engaged = tenant.kill_switch_engaged;
    kill_switch_reason = tenant.kill_switch_reason;
    status = subscription_status now tenant;
    bridge_agent_connected = is_connected tenant.id manager;
    today_realized_pnl = get_today_realized_pnl rt later tenant.id db;
  }

  -- {k.strip().upper(): v.strip() for k, v in symbol_map.items()}
  unfoldable pub normalize_map : Dict String → Dict String → Dict String
  normalize_map done [] = done
  normalize_map done ((k, v) ∷ rest) = normalize_map (put (upper_symbol rt k) (strip v) done) rest

  unfoldable pub put_symbol_map : Dict String → Tenant → Action (Dict String)
  put_symbol_map payload tenant = do
    saved ← update_symbol_map tenant (normalize_map [] payload)
    pure saved.symbol_map

unfoldable pub put_risk_settings : RiskSettings → Tenant → Action RiskSettings
put_risk_settings payload tenant = do
  saved ← update_risk_settings tenant (merge_settings tenant.risk_settings payload)
  pure saved.risk_settings

unfoldable pub post_kill_switch : Bool → String → Tenant → Action (Bool × String)
post_kill_switch engaged reason tenant = do
  saved ← set_kill_switch tenant engaged reason
  pure (saved.kill_switch_engaged, saved.kill_switch_reason)

unfoldable pub get_trades : ℤ → ℤ → Tenant → Db → List Trade
get_trades limit offset tenant db =
    map to_trade (list_trades tenant.id (clamp_limit limit 200) (clamp_offset offset) db)

unfoldable pub post_regenerate_webhook_passphrase : Runtime → String → Tenant → Action String
post_regenerate_webhook_passphrase rt drawn tenant = do
  saved ← regenerate_webhook_passphrase rt tenant drawn
  pure saved.1

unfoldable pub post_regenerate_agent_token : Runtime → String → Tenant → Action String
post_regenerate_agent_token rt drawn tenant = do
  saved ← regenerate_agent_token rt tenant drawn
  pure saved.1

-- ===== src/Tests/Data.antt =====
-- A tenant, a signal and the surroundings for the runs of the tests.
use Prim.Native.String
use dataveda_nifty_agent.Prelude.{String, false, Option, none, some, [], ◌∷◌, ◌+s◌}
use dataveda_nifty_agent.Python.Float.{ℤ, Float, finite, pos}
use dataveda_nifty_agent.Python.Json.{Json, null, int, float, str}
use dataveda_nifty_agent.Runtime.{Runtime}
use dataveda_nifty_agent.Models.Signal.{TradingViewSignal, SignalAction, OrderType}
use dataveda_nifty_agent.Models.Order.{OrderRequest, OrderResult, OrderSide, OrderStatus}
use dataveda_nifty_agent.Storage.Action.{Action, ok}
use dataveda_nifty_agent.Router.{Times}
use dataveda_nifty_agent.Python.Dict.{get}
use dataveda_nifty_agent.Ws.Manager.{Manager, waiting}
use dataveda_nifty_agent.Ws.Manager.Requests.{ManagerValid}
use dataveda_nifty_agent.Storage.Models.{RiskSettings, Tenant, TradeLog, Db}

abbrev pub text_of : Json → Option String
text_of (str s) = some s
text_of _ = none

abbrev pub float_of : Json → Option Float
float_of (float x) = some x
float_of _ = none

abbrev pub int_of : Json → Option ℤ
int_of (int n) = some n
int_of _ = none

abbrev pub bound : Json → Option (Option String)
bound null = some none
bound (str s) = some (some s)
bound _ = none

abbrev pub rt : Runtime
rt = record {
  sha256_hex = λ s. "hash of " +s s;
  upper_other = λ c. Prim.Native.String.◌∷◌ c Prim.Native.String.[];
  show_json = λ j. "json";
  show_float = λ x. "1.0";
  show_fixed = λ x. "1.00";
  as_text = text_of;
  as_float = float_of;
  as_int = int_of;
  as_email = text_of;
  sql_sum = λ x xs. x;
  bind_text = bound;
}

abbrev pub no_limits : RiskSettings
no_limits = record { max_qty_per_order = none; max_daily_loss = none; allowed_symbols = none }

abbrev pub tenant : Tenant
tenant = record {
  id = "ten_1";
  email = "a@example.org";
  api_key_hash = "hash of sk_live_1";
  webhook_id = "hook";
  webhook_passphrase_hash = "hash of secret";
  agent_token_hash = "hash of agent_1";
  symbol_map = ("EURUSD", "EURUSD.m") ∷ [];
  risk_settings = no_limits;
  plan = "free";
  kill_switch_engaged = false;
  kill_switch_reason = "";
  subscription_expires_at = some 1000;
  created_at = 1;
}

abbrev pub signal : TradingViewSignal
signal = record {
  passphrase = "secret";
  signal_id = "sig1";
  strategy = "trend";
  symbol = "EURUSD";
  action = SignalAction.buy;
  quantity = finite (pos 3);
  order_type = OrderType.market;
  price = none;
  stop_loss = none;
  take_profit = none;
}

abbrev pub order : OrderRequest
order = record {
  signal_id = "sig1";
  symbol = "EURUSD";
  action = SignalAction.buy;
  side = OrderSide.buy;
  quantity = finite (pos 3);
  order_type = OrderType.market;
  mt5_symbol = "EURUSD.m";
  price = none;
  stop_loss = none;
  take_profit = none;
}

abbrev pub result : OrderResult
result = record {
  broker = "mt5";
  status = OrderStatus.accepted;
  broker_order_id = str "7";
  message = str "done";
  raw_response = null;
}

-- The tables with the tenant and an empty log.
abbrev pub db : Db
db = record { tenants = tenant ∷ []; trades = []; next_id = 1 }

-- A broker that takes every order.
abbrev pub broker : OrderRequest → Action OrderResult
broker o d = (ok result, d)

abbrev pub times : Times
times = record { reserved = 10; checked = 11; pnl = 12; logged = 13 }

-- A row of the tenant's log under a key.
abbrev pub row : String → TradeLog
row key = record {
  id = 1;
  tenant_id = "ten_1";
  signal_id = key;
  strategy = "trend";
  symbol = "EURUSD";
  action = "buy";
  side = none;
  quantity = finite (pos 3);
  status = "dispatched";
  message = "";
  broker_order_id = none;
  realized_pnl = none;
  created_at = 5;
}

abbrev pub db_with : String → Db
db_with key = record { tenants = tenant ∷ []; trades = row key ∷ []; next_id = 2 }

-- A tenant's socket and one request.
abbrev pub online : Manager
online = record { connections = ("ten_1", 4) ∷ []; pending = []; futures = [] }

pub online-ManagerValid : ManagerValid online
unfolding get
online-ManagerValid = record { bounded = λ r f e. cc; injective = λ r r' f e e'. cc }

abbrev pub begun : Manager
begun = record { connections = ("ten_1", 4) ∷ []; pending = ("q1", 0) ∷ []; futures = waiting ∷ [] }

-- ===== src/Models/Signal.antt =====
-- app/models/signal.py: the signal, and the validation of a request's JSON object.
pub mod Values
pub mod Reading
use dataveda_nifty_agent.Prelude.{
  String, Bool, true, false, ◌&&◌, Option, none, some, str_eq, if◌then◌else◌,
}
use dataveda_nifty_agent.Python.Float.{Float, float_zero, lt, le}
use dataveda_nifty_agent.Python.Json.{Json, null, Fields, get_field}
use dataveda_nifty_agent.Python.Text.{strip, upper}
use dataveda_nifty_agent.Runtime.{Runtime}

pub data SignalAction : Type 0 where
  buy sell close_long close_short close_all : SignalAction

pub data OrderType : Type 0 where
  market limit : OrderType

abbrev pub action_value : SignalAction → String
action_value buy = "buy"
action_value sell = "sell"
action_value close_long = "close_long"
action_value close_short = "close_short"
action_value close_all = "close_all"

abbrev pub order_type_value : OrderType → String
order_type_value market = "market"
order_type_value limit = "limit"

-- The enum's member of a value, if there is one.
unfoldable pub action_of : String → Option SignalAction
action_of s =
    if str_eq s "buy"
    then some buy
    else if str_eq s "sell"
    then some sell
    else if str_eq s "close_long"
    then some close_long
    else if str_eq s "close_short"
    then some close_short
    else if str_eq s "close_all"
    then some close_all
    else none

unfoldable pub order_type_of : String → Option OrderType
order_type_of s =
    if str_eq s "market" then some market else if str_eq s "limit" then some limit else none

pub record TradingViewSignal : Type 0 where
  pub passphrase : String
  pub signal_id : String
  pub strategy : String
  pub symbol : String
  pub action : SignalAction
  pub quantity : Float
  pub order_type : OrderType
  pub price : Option Float
  pub stop_loss : Option Float
  pub take_profit : Option Float

infixl 5 ◌>>=◌
abbrev pub ◌>>=◌ : {A B : Type 0} → Option A → (A → Option B) → Option B
none >>= f = none
some a >>= f = f a

module _ (rt : Runtime) where
  -- v.strip().upper(), the normal form of a symbol
  unfoldable pub upper_symbol : String → String
  upper_symbol v = upper rt.upper_other (strip v)

  abbrev pub required {ℓ} : {A : Type ℓ} → (Json → Option A) → Option Json → Option A
  required read none = none
  required read (some v) = read v

  abbrev pub optional_float : Option Json → Option (Option Float)
  optional_float none = some none
  optional_float (some null) = some none
  optional_float (some v) = rt.as_float v >>= λ x. some (some x)

  abbrev pub read_action : Json → Option SignalAction
  read_action v = rt.as_text v >>= action_of

  abbrev pub read_order_type : Option Json → Option OrderType
  read_order_type none = some market
  read_order_type (some v) = rt.as_text v >>= order_type_of

  -- Field(gt=0)
  abbrev pub positive : Float → Option Float
  positive q = if lt float_zero q then some q else none

  -- self.price is None or self.price <= 0
  abbrev pub lacks_price : Option Float → Bool
  lacks_price none = true
  lacks_price (some p) = le p float_zero

  abbrev pub is_limit : OrderType → Bool
  is_limit limit = true
  is_limit market = false

  unfoldable pub price_required_for_limit : TradingViewSignal → Option TradingViewSignal
  price_required_for_limit s = if is_limit s.order_type && lacks_price s.price then none else some s

  -- TradingViewSignal(**raw); `none` is a ValidationError. Every field is validated, and the model's
  -- own validator runs on what they give.
  unfoldable pub validate : Fields → Option TradingViewSignal
  unfolding upper_symbol price_required_for_limit
  validate raw = do
    passphrase ← required rt.as_text (get_field "passphrase" raw)
    signal_id ← required rt.as_text (get_field "signal_id" raw)
    strategy ← required rt.as_text (get_field "strategy" raw)
    symbol ← required rt.as_text (get_field "symbol" raw)
    action ← required read_action (get_field "action" raw)
    quantity ← required rt.as_float (get_field "quantity" raw) >>= positive
    order_type ← read_order_type (get_field "order_type" raw)
    price ← optional_float (get_field "price" raw)
    stop_loss ← optional_float (get_field "stop_loss" raw)
    take_profit ← optional_float (get_field "take_profit" raw)
    price_required_for_limit (record {
      passphrase = passphrase;
      signal_id = signal_id;
      strategy = strategy;
      symbol = upper_symbol symbol;
      action = action;
      quantity = quantity;
      order_type = order_type;
      price = price;
      stop_loss = stop_loss;
      take_profit = take_profit;
    })

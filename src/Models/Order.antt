-- ===== src/Models/Order.antt =====
-- app/models/order.py: what is sent to a broker, and what comes back.
use dataveda_nifty_agent.Prelude.{String, Option}
use dataveda_nifty_agent.Python.Float.{Float}
use dataveda_nifty_agent.Python.Json.{Json}
use dataveda_nifty_agent.Models.Signal.{SignalAction, OrderType}

pub data OrderSide : Type 0 where
  buy sell : OrderSide

pub data OrderStatus : Type 0 where
  accepted rejected error : OrderStatus

abbrev pub side_value : OrderSide → String
side_value buy = "buy"
side_value sell = "sell"

abbrev pub status_value : OrderStatus → String
status_value accepted = "accepted"
status_value rejected = "rejected"
status_value error = "error"

pub record OrderRequest : Type 0 where
  pub signal_id : String
  pub symbol : String
  pub action : SignalAction
  pub side : OrderSide
  pub quantity : Float
  pub order_type : OrderType
  pub mt5_symbol : String
  pub price : Option Float
  pub stop_loss : Option Float
  pub take_profit : Option Float

-- The relay copies `broker_order_id`, `message` and `raw_response` from the agent's JSON as they
-- are, so these are JSON values and not texts. `null` is None.
pub record OrderResult : Type 0 where
  pub broker : String
  pub status : OrderStatus
  pub broker_order_id : Json
  pub message : Json
  pub raw_response : Json

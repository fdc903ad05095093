-- ===== src/Router.antt =====
-- app/services/order_router.py: `process_signal`, from a validated signal to the broker and the log.
pub mod Keeping
pub mod Idempotency
pub mod Orders
pub mod Dispatch
pub mod Tasks
use dataveda_nifty_agent.Prelude.{ℕ, String, ◌+s◌, Option, none, some, if◌then◌else◌}
use dataveda_nifty_agent.Python.Float.{Float}
use dataveda_nifty_agent.Python.Json.{null, str}
use dataveda_nifty_agent.Python.Dict.{get}
use dataveda_nifty_agent.Python.Text.{nonempty}
use dataveda_nifty_agent.Runtime.{Runtime}
use dataveda_nifty_agent.Models.Signal.{
  buy, sell, close_long, close_short, close_all, TradingViewSignal, action_value,
}
use dataveda_nifty_agent.Models.Order.{
  OrderSide, OrderRequest, OrderResult, rejected, side_value, status_value,
}
use dataveda_nifty_agent.Storage.Models.{Tenant, TradeLog}
use dataveda_nifty_agent.Storage.Action.{Action, pure, gets, ◌>>=◌, ◌>>◌}
use dataveda_nifty_agent.Storage.Trades.{try_reserve_signal, finalize_signal_log, log_trade}
use dataveda_nifty_agent.Risk.{RiskCheckResult, check_risk}

-- _side_and_quantity
unfoldable pub side_and_quantity : TradingViewSignal → Option (OrderSide × Float)
side_and_quantity signal = elim signal.action [
  | buy ↦ some (OrderSide.buy, signal.quantity)
  | sell ↦ some (OrderSide.sell, signal.quantity)
  | close_long ↦ some (OrderSide.sell, signal.quantity)
  | close_short ↦ some (OrderSide.buy, signal.quantity)
  | close_all ↦ none
]

-- (tenant.symbol_map or {}).get(signal.symbol), with the empty text taken for none
unfoldable pub mapped_symbol : Tenant → String → Option String
mapped_symbol tenant symbol = elim (get symbol tenant.symbol_map) [
  | none ↦ none
  | some s ↦ if nonempty s then some s else none
]

abbrev pub rejected_with : String → OrderResult
rejected_with message = record {
  broker = "mt5";
  status = rejected;
  broker_order_id = null;
  message = str message;
  raw_response = null;
}

abbrev pub duplicate_message : String
duplicate_message = "Duplicate signal_id, already processed"

abbrev unmapped_message : String → String
unmapped_message symbol =
    "No MT5 symbol mapped for " +s symbol +s " - add it via PUT /me/symbol-map"

abbrev close_all_message : String
close_all_message =
    "close_all is not supported yet - use close_long/close_short with an explicit quantity"

-- What becomes of a reserved signal: a refusal, with the text for the log and the text for the
-- caller, or an order.
pub data Decision : Type 0 where
  refuse : (logged message : String) → Decision
  place : OrderRequest → Decision

-- The risk check's result, the symbol map and the action, in this order.
unfoldable pub decide : Tenant → TradingViewSignal → RiskCheckResult → Decision
unfolding side_and_quantity mapped_symbol
decide tenant signal risk =
    if risk.allowed
    then elim (mapped_symbol tenant signal.symbol) [
      | none ↦ refuse (unmapped_message signal.symbol) (unmapped_message signal.symbol)
      | some mt5_symbol ↦ elim (side_and_quantity signal) [
        | none ↦ refuse close_all_message close_all_message
        | some (side, quantity) ↦ place (record {
          signal_id = signal.signal_id;
          symbol = signal.symbol;
          action = signal.action;
          side = side;
          quantity = quantity;
          order_type = signal.order_type;
          mt5_symbol = mt5_symbol;
          price = signal.price;
          stop_loss = signal.stop_loss;
          take_profit = signal.take_profit;
        })
      ]
    ]
    else refuse ("Risk check failed: " +s risk.reason) risk.reason

-- The clock as `process_signal` reads it, call by call.
pub record Times : Type 0 where
  pub reserved : ℕ
  pub checked : ℕ
  pub pnl : ℕ
  pub logged : ℕ

module _ (rt : Runtime) where
  unfoldable pub reserve : ℕ → Tenant → TradingViewSignal → Action (Option TradeLog)
  reserve now tenant signal =
      try_reserve_signal now tenant.id signal.signal_id signal.strategy signal.symbol
        (action_value signal.action) signal.quantity

  -- The second row of a signal, with what the broker answered.
  unfoldable pub log_result :
      ℕ → Tenant → TradingViewSignal → OrderRequest → OrderResult → Action TradeLog
  log_result now tenant signal order result =
      log_trade rt now tenant.id (signal.signal_id +s ":mt5") signal.strategy signal.symbol
        (action_value signal.action) (side_value order.side) order.quantity
        (status_value result.status) result.message result.broker_order_id

  unfoldable pub finish : TradeLog → OrderResult → Action (Unit {0})
  finish reservation result =
      finalize_signal_log reservation "dispatched" ("Routed to MT5: " +s status_value result.status)

  unfoldable pub reject : TradeLog → String → Action (Unit {0})
  reject reservation logged = finalize_signal_log reservation "rejected" logged

  -- `broker` is `broker.place_order`: it may raise, and while it waits for the agent other requests
  -- may change the database.
  module _ (times : Times) (tenant : Tenant) (signal : TradingViewSignal)
      (broker : OrderRequest → Action OrderResult) where
    unfoldable pub carry_out : TradeLog → Decision → Action OrderResult
    carry_out reservation (refuse logged message) = do
      reject reservation logged
      pure (rejected_with message)
    carry_out reservation (place order) = do
      result ← broker order
      log_result times.logged tenant signal order result
      finish reservation result
      pure result

    unfoldable pub after_reserve : Option TradeLog → Action OrderResult
    after_reserve none = pure (rejected_with duplicate_message)
    after_reserve (some reservation) = do
      risk ← gets (check_risk rt times.checked times.pnl tenant signal)
      carry_out reservation (decide tenant signal risk)

    unfoldable pub process_signal : Action OrderResult
    process_signal = do
      reservation ← reserve times.reserved tenant signal
      after_reserve reservation

-- ===== src/Router/Idempotency.antt =====
-- The reservation of (tenant_id, signal_id), and repeated deliveries of a signal.
use dataveda_nifty_agent.Prelude.{String, ◌≡◌, true}
use dataveda_nifty_agent.Runtime.{Runtime}
use dataveda_nifty_agent.Models.Signal.{TradingViewSignal, action_value}
use dataveda_nifty_agent.Models.Order.{OrderRequest, OrderResult}
use dataveda_nifty_agent.Storage.Models.{Tenant, Db}
use dataveda_nifty_agent.Storage.Action.{ok, Action}
use dataveda_nifty_agent.Storage.Action.Keeps.{Keeps}
use dataveda_nifty_agent.Storage.Trades.Invariant.{
  TradesValid, try_reserve-TradesValid, log_trade-TradesValid, finalize-TradesValid,
}
use dataveda_nifty_agent.Storage.Trades.Rows.{
  has_row, try_reserve_taken, try_reserve_takes, has_row-log_trade, has_row-finalize,
}
use dataveda_nifty_agent.Router.{
  Times, rejected_with, duplicate_message, reserve, after_reserve, process_signal,
}
use dataveda_nifty_agent.Router.Keeping.{IsKept, process_signal-Keeps}

-- The log has a row of this tenant and signal.
abbrev pub Has : String → String → Db → Type 0
Has t s db = has_row t s db.trades ≡ true

pub Has-IsKept : (rt : Runtime) (t s : String) → IsKept rt (Has t s)
Has-IsKept rt t s = record {
  by_finalize = λ r status message. record { at = λ db h. rw has_row-finalize h };
  by_log = λ now t' s' strategy symbol action side quantity status message order_id. record {
    at = λ db h.
        has_row-log_trade now t' s' strategy symbol action quantity db rt t s side status message
          order_id h;
  };
}

pub TradesValid-IsKept : (rt : Runtime) → IsKept rt TradesValid
TradesValid-IsKept rt = record {
  by_finalize = λ r status message. record { at = finalize-TradesValid r status message };
  by_log = λ now t s strategy symbol action side quantity status message order_id. record {
    at = λ db v.
        log_trade-TradesValid now t s strategy symbol action quantity db v rt side status message
          order_id;
  };
}

module _ (rt : Runtime) (times : Times) (tenant : Tenant) (signal : TradingViewSignal)
    (broker : OrderRequest → Action OrderResult) where
  -- Where the log has a row of the tenant and the signal id, process_signal answers that the
  -- signal is a duplicate, writes nothing, and does not depend on the broker.
  pub duplicate_ignored :
      (db : Db)
      → has_row tenant.id signal.signal_id db.trades ≡ true
      → process_signal rt times tenant signal broker db ≡ (ok (rejected_with duplicate_message), db)
  unfolding process_signal reserve after_reserve
  duplicate_ignored db h = rw (
      try_reserve_taken times.reserved tenant.id signal.signal_id signal.strategy signal.symbol
        (action_value signal.action) signal.quantity db h)

  -- If the broker call keeps a row of the signal in the log, then however a call of process_signal
  -- ends, the log has a row of the signal after it.
  pub process_signal_takes :
      ((order : OrderRequest) → Keeps (Has tenant.id signal.signal_id) (broker order))
      → (db : Db)
      → Has tenant.id signal.signal_id (process_signal rt times tenant signal broker db).1
  unfolding reserve
  process_signal_takes kb db =
      process_signal-Keeps rt times tenant signal broker (Has tenant.id signal.signal_id)
        (Has-IsKept rt tenant.id signal.signal_id) kb db
        (try_reserve_takes times.reserved tenant.id signal.signal_id signal.strategy signal.symbol
          (action_value signal.action) signal.quantity db)

  -- If the broker call keeps the log valid, process_signal does: keys and ids unique, ids below
  -- the next one, no realized PnL.
  pub process_signal-TradesValid :
      ((order : OrderRequest) → Keeps TradesValid (broker order))
      → (db : Db) → TradesValid db
      → TradesValid (process_signal rt times tenant signal broker db).1
  unfolding reserve
  process_signal-TradesValid kb db v =
      process_signal-Keeps rt times tenant signal broker TradesValid (TradesValid-IsKept rt) kb db (
        try_reserve-TradesValid times.reserved tenant.id signal.signal_id signal.strategy
          signal.symbol (action_value signal.action) signal.quantity db v)

-- For a broker call that takes no row of the signal out of the log: after a call of
-- process_signal, however it ended, a call for the same tenant with the same signal id, at any
-- time and with any broker, answers that the signal is a duplicate and leaves the database as it
-- is.
pub second_delivery_ignored :
    (rt : Runtime) (times later : Times) (tenant : Tenant) (signal again : TradingViewSignal)
    (broker other : OrderRequest → Action OrderResult)
    → ((order : OrderRequest) → Keeps (Has tenant.id signal.signal_id) (broker order))
    → again.signal_id ≡ signal.signal_id
    → (db : Db)
    → let db' = (process_signal rt times tenant signal broker db).1 in
      process_signal rt later tenant again other db' ≡ (ok (rejected_with duplicate_message), db')
second_delivery_ignored rt times later tenant signal again broker other kb same db =
    duplicate_ignored rt later tenant again other _
      (rw same (process_signal_takes rt times tenant signal broker kb db))

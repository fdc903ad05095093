-- ===== src/Router/Keeping.antt =====
-- Properties of the database that `process_signal` keeps, from the repository's writes.
use dataveda_nifty_agent.Prelude.{ℕ, String, Option, none, some}
use dataveda_nifty_agent.Python.Float.{Float}
use dataveda_nifty_agent.Python.Json.{Json}
use dataveda_nifty_agent.Runtime.{Runtime}
use dataveda_nifty_agent.Models.Signal.{TradingViewSignal}
use dataveda_nifty_agent.Models.Order.{OrderRequest, OrderResult}
use dataveda_nifty_agent.Storage.Models.{Tenant, TradeLog, Db}
use dataveda_nifty_agent.Storage.Action.{Action}
use dataveda_nifty_agent.Storage.Action.Keeps.{Keeps, Keeps-after, keeps_rules}
use dataveda_nifty_agent.Storage.Trades.{finalize_signal_log, log_trade}
use dataveda_nifty_agent.Router.{
  Times, Decision, refuse, place, reserve, log_result, finish, reject, carry_out, after_reserve,
  process_signal,
}

-- A property that every write to an existing reservation keeps.
pub record IsKept (rt : Runtime) (P : Db → Type 0) : Type 0 where
  pub by_finalize :
      (r : TradeLog) (status message : String) → Keeps P (finalize_signal_log r status message)
  pub by_log :
      (now : ℕ) (t s strategy symbol action side : String) (quantity : Float) (status : String)
      (message order_id : Json)
      → Keeps P (log_trade rt now t s strategy symbol action side quantity status message order_id)

module _ (rt : Runtime) (times : Times) (tenant : Tenant) (signal : TradingViewSignal)
    (broker : OrderRequest → Action OrderResult) (P : Db → Type 0) (kept : IsKept rt P)
    (broker_keeps : (order : OrderRequest) → Keeps P (broker order)) where
  log_result-Keeps :
      (order : OrderRequest) (result : OrderResult)
      → Keeps P (log_result rt times.logged tenant signal order result)
  unfolding log_result
  log_result-Keeps order result = kept.by_log _ _ _ _ _ _ _ _ _ _ _

  finish-Keeps : (r : TradeLog) (result : OrderResult) → Keeps P (finish rt r result)
  unfolding finish
  finish-Keeps r result = kept.by_finalize _ _ _

  reject-Keeps : (r : TradeLog) (logged : String) → Keeps P (reject rt r logged)
  unfolding reject
  reject-Keeps r logged = kept.by_finalize _ _ _

  carry_out-Keeps :
      (r : TradeLog) (d : Decision) → Keeps P (carry_out rt times tenant signal broker r d)
  unfolding carry_out
  carry_out-Keeps r (refuse logged message) = search (keeps_rules, reject-Keeps)
  carry_out-Keeps r (place order) = search (keeps_rules, log_result-Keeps, finish-Keeps)

  pub after_reserve-Keeps :
      (r : Option TradeLog) → Keeps P (after_reserve rt times tenant signal broker r)
  unfolding after_reserve
  after_reserve-Keeps none = search keeps_rules
  after_reserve-Keeps (some r) = search (keeps_rules, carry_out-Keeps)

  -- What a reservation keeps or establishes, the whole of `process_signal` does.
  pub process_signal-Keeps :
      (db : Db)
      → P (reserve rt times.reserved tenant signal db).1
      → P (process_signal rt times tenant signal broker db).1
  unfolding process_signal
  process_signal-Keeps db h =
      Keeps-after P (reserve rt times.reserved tenant signal)
        (after_reserve rt times tenant signal broker) db h after_reserve-Keeps

-- ===== src/Risk/Breaker.antt =====
-- The daily-loss circuit breaker over a log in which no row has a realized PnL.
use dataveda_nifty_agent.Prelude.{ℕ, String, ◌≡◌, refl, false, Option, none, some, arith}
use dataveda_nifty_agent.Python.Float.{Float, float_zero, zero-above-neg_abs}
use dataveda_nifty_agent.Runtime.{Runtime}
use dataveda_nifty_agent.Models.Signal.{TradingViewSignal}
use dataveda_nifty_agent.Storage.Models.{Tenant, Db}
use dataveda_nifty_agent.Storage.Trades.{get_today_realized_pnl}
use dataveda_nifty_agent.Storage.Trades.Invariant.{TradesValid}
use dataveda_nifty_agent.Storage.Trades.Pnl.{today_pnl-zero}
use dataveda_nifty_agent.Risk.{loss_refused, check_risk}

loss_refused-zero : (limit : Option Float) → loss_refused limit float_zero ≡ false
unfolding loss_refused
loss_refused-zero none = refl
loss_refused-zero (some x) = ground (arith, zero-above-neg_abs x)

pub loss_refused-today :
    (rt : Runtime) (later : ℕ) (id : String) (limit : Option Float) (db : Db)
    → TradesValid db
    → loss_refused limit (get_today_realized_pnl rt later id db) ≡ false
loss_refused-today rt later id limit db v =
    rw (today_pnl-zero rt later id db v) (loss_refused-zero limit)

abbrev pub without_limit : Tenant → Tenant
without_limit tenant = record tenant {
  risk_settings = record tenant.risk_settings { max_daily_loss = none };
}

-- Over a valid log, as the repository's writes keep it, the risk check gives the same result with
-- a tenant's loss limit and without one.
pub breaker_never_trips :
    (rt : Runtime) (now later : ℕ) (tenant : Tenant) (signal : TradingViewSignal) (db : Db)
    → TradesValid db
    → check_risk rt now later tenant signal db
      ≡ check_risk rt now later (without_limit tenant) signal db
unfolding check_risk
breaker_never_trips rt now later tenant signal db v = ground (
  arith,
  loss_refused-today rt later tenant.id tenant.risk_settings.max_daily_loss db v,
  loss_refused-today rt later tenant.id none db v,
)

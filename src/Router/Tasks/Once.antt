-- ===== src/Router/Tasks/Once.antt =====
-- Counting the orders of one signal over interleaved calls of app/services/order_router.py.
use dataveda_nifty_agent.Prelude.{
  ℕ, ◌+◌, ◌≤◌, String, ◌≡◌, ◌&&◌, List, [], ◌∷◌, ◌++◌, arith, any-append, str_eq, eq_iff,
  Bool-cases, inl, inr, if◌then◌else◌, ◌+s◌,
}
use dataveda_nifty_agent.Runtime.{Runtime}
use dataveda_nifty_agent.Models.Signal.{TradingViewSignal, action_value}
use dataveda_nifty_agent.Models.Order.{OrderRequest, OrderResult, side_value, status_value}
use dataveda_nifty_agent.Storage.Models.{Tenant, TradeLog, Db}
use dataveda_nifty_agent.Storage.Trades.Rows.{
  has_row, has_key, try_reserve_taken, try_reserve_free, has_row-log_trade, has_row-finalize,
}
use dataveda_nifty_agent.Storage.Trades.{received_row}
use dataveda_nifty_agent.Router.{reserve, log_result, finish, reject}
use dataveda_nifty_agent.Router.Tasks.{
  Stage, starting, reserved, refusing, placing, answered, recorded, Task, Inputs, advance, System,
  sent_by, Step, arrive, run, outside, Reach, here, next, idle,
}

-- The reservations that may still send an order.
abbrev stage_claim : Stage → ℕ
stage_claim (reserved r) = 1
stage_claim (placing r order) = 1
stage_claim _ = 0

module _ (t s : String) where
  abbrev claim : Task → ℕ
  claim task =
      if str_eq t task.tenant.id && str_eq s task.signal.signal_id
      then stage_claim task.stage
      else 0

  abbrev claims : List Task → ℕ
  claims [] = 0
  claims (task ∷ tasks) = claim task + claims tasks

  -- How many orders of this tenant and signal went to the broker.
  abbrev pub sends : List (String × String) → ℕ
  sends [] = 0
  sends ((t', s') ∷ rest) = (if str_eq t t' && str_eq s s' then 1 else 0) + sends rest

  abbrev room : Db → ℕ
  room db = if has_row t s db.trades then 1 else 0

  has_row-eq :
      (t' s' : String) (rs : List TradeLog) → t ≡ t' → s ≡ s' → has_row t s rs ≡ has_row t' s' rs
  has_row-eq t' s' rs p q = rw (p, q)

  claims-append :
      (before after : List Task) → claims (before ++ after) ≡ claims before + claims after
  claims-append [] after = omega arith
  claims-append (task ∷ before) after = omega (arith, claims-append before after)

  sends-append : (a b : List (String × String)) → sends (a ++ b) ≡ sends a + sends b
  sends-append [] b = omega arith
  sends-append (x ∷ a) b = omega (arith, sends-append a b)

  module _ (rt : Runtime) (i : Inputs) (tenant : Tenant) (signal : TradingViewSignal)
      (db : Db) where
    abbrev task_at : Stage → Task
    task_at stage = record { tenant = tenant; signal = signal; stage = stage }

    abbrev after : Stage → Stage × Db
    after stage = advance rt tenant signal i stage db

    -- A step uses up the claim that it acts on, and a new claim comes with a new row.
    abbrev Balanced : Stage → Type 0
    Balanced stage =
        claim (task_at (after stage).0) + sends (sent_by (task_at stage)) + room db
        ≤ claim (task_at stage) + room (after stage).1

    abbrev new_row : TradeLog
    new_row =
        record (received_row i.now tenant.id signal.signal_id signal.strategy signal.symbol
          (action_value signal.action) signal.quantity) { id = db.next_id }

    start-Balanced : Balanced starting
    unfolding advance reserve
    start-Balanced = elim (Bool-cases (has_row tenant.id signal.signal_id db.trades)) [
      | inl taken ↦
          rw
            (try_reserve_taken i.now tenant.id signal.signal_id signal.strategy signal.symbol
              (action_value signal.action) signal.quantity db taken)
            (omega arith)
      | inr free ↦
          rw
            (try_reserve_free i.now tenant.id signal.signal_id signal.strategy signal.symbol
              (action_value signal.action) signal.quantity db free)
            (ground (
              arith,
              any-append (has_key t s) db.trades (new_row ∷ []),
              eq_iff t tenant.id,
              eq_iff s signal.signal_id,
              has_row-eq tenant.id signal.signal_id db.trades,
            ))
    ]

    reject-Balanced : (r : TradeLog) (l m : String) → Balanced (refusing r l m)
    unfolding advance reject
    reject-Balanced r l m = ground (arith, has_row-finalize t s r "rejected" l db)

    log-Balanced :
        (r : TradeLog) (order : OrderRequest) (result : OrderResult)
        → Balanced (answered r order result)
    unfolding advance log_result
    log-Balanced r order result = ground (
      arith,
      has_row-log_trade i.now tenant.id (signal.signal_id +s ":mt5") signal.strategy signal.symbol
          (action_value signal.action) order.quantity db rt t s (side_value order.side)
          (status_value result.status) result.message result.broker_order_id,
    )

    finish-Balanced : (r : TradeLog) (result : OrderResult) → Balanced (recorded r result)
    unfolding advance finish
    finish-Balanced r result = ground (
      arith,
      has_row-finalize t s r "dispatched" ("Routed to MT5: " +s status_value result.status) db,
    )

    advance-Balanced : (stage : Stage) → Balanced stage
    unfolding advance
    advance-Balanced starting = start-Balanced
    advance-Balanced (refusing r l m) = reject-Balanced r l m
    advance-Balanced (answered r order result) = log-Balanced r order result
    advance-Balanced (recorded r result) = finish-Balanced r result
    advance-Balanced (reserved r) = ground arith
    advance-Balanced _ = ground arith

-- The orders sent, the claims to send one and the row at the start are covered by the row now.
abbrev IsCovered : ℕ → String → String → System → Type 0
IsCovered k t s σ = claims t s σ.tasks + sends t s σ.sent + k ≤ room t s σ.db

Step-IsCovered :
    {rt : Runtime} {σ τ : System} (k : ℕ) (t s : String)
    → Step rt σ τ
    → IsCovered k t s σ
    → IsCovered k t s τ
Step-IsCovered k t s (arrive σ tenant signal) h = ground arith
Step-IsCovered {rt} k t s (run db before task after sent i) h = omega (
  arith,
  claims-append t s before (task ∷ after),
  claims-append t s before
      (record task { stage = (advance rt task.tenant task.signal i task.stage db).0 } ∷ after),
  sends-append t s (sent_by task) sent,
  advance-Balanced t s rt i task.tenant task.signal db task.stage,
)
Step-IsCovered k t s (outside σ tenants) h = h

Reach-IsCovered :
    {rt : Runtime} {σ τ : System} (k : ℕ) (t s : String)
    → IsCovered k t s σ
    → Reach rt σ τ
    → IsCovered k t s τ
Reach-IsCovered k t s h here = h
Reach-IsCovered k t s h (next r step) = Step-IsCovered k t s step (Reach-IsCovered k t s h r)

-- From any database with no call under way, through any interleaving of the steps of any calls of
-- process_signal and of writes to the tenants' table, at most one order of a tenant's signal id
-- goes to the broker, and none if the log had a row of it at the start.
pub at_most_once :
    (rt : Runtime) (db : Db) (σ : System) (t s : String)
    → Reach rt (idle db) σ
    → sends t s σ.sent + (if has_row t s db.trades then 1 else 0) ≤ 1
at_most_once rt db σ t s r =
    let covered : IsCovered (room t s db) t s σ =
      Reach-IsCovered (room t s db) t s (omega arith) r in
    ground arith

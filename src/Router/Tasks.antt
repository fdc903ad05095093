-- ===== src/Router/Tasks.antt =====
-- Many calls of `process_signal` at once: the event loop changes tasks at an `await`, so a task goes
-- from one database call or broker call to the next, and other tasks run in between.
pub mod Alone
pub mod Once
pub mod Growth
pub mod Audit
pub mod Keeping
pub mod Held
use dataveda_nifty_agent.Prelude.{ℕ, String, Bool, ◌&&◌, Option, none, some, List, [], ◌∷◌, ◌++◌}
use dataveda_nifty_agent.Runtime.{Runtime}
use dataveda_nifty_agent.Models.Signal.{TradingViewSignal}
use dataveda_nifty_agent.Models.Order.{OrderRequest, OrderResult}
use dataveda_nifty_agent.Storage.Models.{Tenant, TradeLog, Db}
use dataveda_nifty_agent.Storage.Action.{Exception, Result, ok, raised}
use dataveda_nifty_agent.Risk.{check_risk}
use dataveda_nifty_agent.Router.{
  Decision, refuse, place, decide, rejected_with, duplicate_message, reserve, log_result, finish,
  reject,
}

-- Where a call of `process_signal` stands: before its next await.
pub data Stage : Type 0 where
  starting : Stage
  reserved : TradeLog → Stage
  refusing : TradeLog → (logged message : String) → Stage
  placing : TradeLog → OrderRequest → Stage
  -- the order is with the broker
  waiting : TradeLog → OrderRequest → Stage
  answered : TradeLog → OrderRequest → OrderResult → Stage
  recorded : TradeLog → OrderResult → Stage
  done : OrderResult → Stage
  failed : Exception → Stage

pub record Task : Type 0 where
  pub tenant : Tenant
  pub signal : TradingViewSignal
  pub stage : Stage

-- What the surroundings give a task for its next step: the clock, and how the broker call ends.
pub record Inputs : Type 0 where
  pub now : ℕ
  pub later : ℕ
  pub answer : Result OrderResult

abbrev after_decision : TradeLog → Decision → Stage
after_decision r (refuse logged message) = refusing r logged message
after_decision r (place order) = placing r order

abbrev after_answer : TradeLog → OrderRequest → Result OrderResult → Stage
after_answer r order (ok result) = answered r order result
after_answer r order (raised e) = failed e

-- The stage after a database call.
abbrev next_stage : {A : Type 0} → (A → Stage) → Result A × Db → Stage × Db
next_stage f (ok a, db) = (f a, db)
next_stage f (raised e, db) = (failed e, db)

abbrev after_reservation : Option TradeLog → Stage
after_reservation none = done (rejected_with duplicate_message)
after_reservation (some r) = reserved r

module _ (rt : Runtime) (tenant : Tenant) (signal : TradingViewSignal) where
  -- One step of a task.
  unfoldable pub advance : Inputs → Stage → Db → Stage × Db
  advance i starting db = next_stage after_reservation (reserve rt i.now tenant signal db)
  advance i (reserved r) db =
      (after_decision r (decide tenant signal (check_risk rt i.now i.later tenant signal db)), db)
  advance i (refusing r logged message) db =
      next_stage (λ _. done (rejected_with message)) (reject rt r logged db)
  advance i (placing r order) db = (waiting r order, db)
  advance i (waiting r order) db = (after_answer r order i.answer, db)
  advance i (answered r order result) db =
      next_stage (λ _. recorded r result) (log_result rt i.now tenant signal order result db)
  advance i (recorded r result) db = next_stage (λ _. done result) (finish rt r result db)
  advance i (done result) db = (done result, db)
  advance i (failed e) db = (failed e, db)

-- The server: the database, the calls under way and the broker calls so far, by tenant and signal.
pub record System : Type 0 where
  pub db : Db
  pub tasks : List Task
  pub sent : List (String × String)

-- A task's order goes to the broker as it leaves `placing`.
abbrev pub sent_by : Task → List (String × String)
sent_by task = elim task.stage [
  | starting ↦ []
  | reserved r ↦ []
  | refusing r l m ↦ []
  | placing r order ↦ (task.tenant.id, task.signal.signal_id) ∷ []
  | waiting r order ↦ []
  | answered r order result ↦ []
  | recorded r result ↦ []
  | done result ↦ []
  | failed e ↦ []
]

-- One step of the server: a webhook call comes in with a tenant and a signal of any kind, a task makes
-- a step, or another request changes the tenants' rows.
pub data Step (rt : Runtime) : System → System → Type 0 where
  arrive :
      (σ : System) (tenant : Tenant) (signal : TradingViewSignal)
      → Step rt σ (record σ {
        tasks = record { tenant = tenant; signal = signal; stage = starting } ∷ σ.tasks;
      })
  run :
      (db : Db) (before : List Task) (task : Task) (after : List Task)
      (sent : List (String × String)) (i : Inputs)
      → Step rt
          (record { db = db; tasks = before ++ task ∷ after; sent = sent })
          (record {
            db = (advance rt task.tenant task.signal i task.stage db).1;
            tasks =
                before
                ++ record task { stage = (advance rt task.tenant task.signal i task.stage db).0 }
                  ∷ after;
            sent = sent_by task ++ sent;
          })
  outside :
      (σ : System) (tenants : List Tenant)
      → Step rt σ (record σ { db = record σ.db { tenants = tenants } })

pub data Reach (rt : Runtime) (start : System) : System → Type 0 where
  here : Reach rt start start
  next : {σ τ : System} → Reach rt start σ → Step rt σ τ → Reach rt start τ

abbrev pub idle : Db → System
idle db = record { db = db; tasks = []; sent = [] }

-- ===== src/Router/Tasks/Audit.antt =====
-- What the log holds about the tasks of app/services/order_router.py.
use dataveda_nifty_agent.Prelude.{
  All_at, All-replace, All-implies, ℕ, String, ◌+s◌, ◌≡◌, refl, true, Option, none, some, List, [],
  ◌∷◌, ◌++◌, arith, All, any-append, ◌==◌, eq_refl, Bool-cases, inl, inr, sym,
}
use dataveda_nifty_agent.Router.{
  place, refuse, Decision, rejected_with, reserve, log_result, finish, reject,
}
use dataveda_nifty_agent.Router.Tasks.{
  after_decision, after_answer, after_reservation, next_stage, Stage, starting, reserved, refusing,
  placing, waiting, answered, recorded, done, failed, Task, Inputs, advance, System, Step, arrive,
  run, outside, Reach, here, next, idle,
}
use dataveda_nifty_agent.Storage.Trades.{log_row, insert_row, log_trade, received_row}
use dataveda_nifty_agent.Runtime.{Runtime}
use dataveda_nifty_agent.Models.Signal.{TradingViewSignal, action_value}
use dataveda_nifty_agent.Models.Order.{OrderRequest, OrderResult, status_value}
use dataveda_nifty_agent.Storage.Models.{Tenant, TradeLog, Db}
use dataveda_nifty_agent.Storage.Action.{Result, ok, raised}
use dataveda_nifty_agent.Storage.Trades.Rows.{
  has_key, has_row, try_reserve_taken, try_reserve_free, insert_row_taken, insert_row_free,
}
use dataveda_nifty_agent.Router.Tasks.Growth.{
  has_id, Grows, finalize-Grows, log_result-Grows, advance-Grows,
}

-- The table with the new row.
has_new_id :
    (e : TradeLog) (db : Db)
    → has_id db.next_id (db.trades ++ record e { id = db.next_id } ∷ []) ≡ true
has_new_id e db =
    ground
      (arith, any-append (λ r. r.id == db.next_id) db.trades (record e { id = db.next_id } ∷ []))

has_new_row :
    (e : TradeLog) (db : Db)
    → has_row e.tenant_id e.signal_id (db.trades ++ record e { id = db.next_id } ∷ []) ≡ true
has_new_row e db = ground (
  arith,
  any-append (has_key e.tenant_id e.signal_id) db.trades (record e { id = db.next_id } ∷ []),
  eq_refl e.tenant_id,
  eq_refl e.signal_id,
)

module _ (rt : Runtime) (tenant : Tenant) (signal : TradingViewSignal) where
  -- What the log has about a task, by its stage.
  abbrev HasReservation : TradeLog → Db → Type 0
  HasReservation r db =
      (has_id r.id db.trades ≡ true) × (has_row tenant.id signal.signal_id db.trades ≡ true)

  abbrev pub IsLoggedAt : Stage → Db → Type 0
  IsLoggedAt starting db = Unit
  IsLoggedAt (reserved r) db = HasReservation r db
  IsLoggedAt (refusing r logged message) db = HasReservation r db
  IsLoggedAt (placing r order) db = HasReservation r db
  IsLoggedAt (waiting r order) db = HasReservation r db
  IsLoggedAt (answered r order result) db = HasReservation r db
  IsLoggedAt (recorded r result) db =
      HasReservation r db × (has_row tenant.id (signal.signal_id +s ":mt5") db.trades ≡ true)
  IsLoggedAt (done result) db = has_row tenant.id signal.signal_id db.trades ≡ true
  IsLoggedAt (failed e) db = has_row tenant.id signal.signal_id db.trades ≡ true

  IsLoggedAt-Grows :
      (stage : Stage) (db db' : Db) → Grows db db' → IsLoggedAt stage db → IsLoggedAt stage db'
  IsLoggedAt-Grows starting db db' g h = tt
  IsLoggedAt-Grows (reserved r) db db' g (a, b) = (g.ids _ a, g.rows _ _ b)
  IsLoggedAt-Grows (refusing r logged message) db db' g (a, b) = (g.ids _ a, g.rows _ _ b)
  IsLoggedAt-Grows (placing r order) db db' g (a, b) = (g.ids _ a, g.rows _ _ b)
  IsLoggedAt-Grows (waiting r order) db db' g (a, b) = (g.ids _ a, g.rows _ _ b)
  IsLoggedAt-Grows (answered r order result) db db' g (a, b) = (g.ids _ a, g.rows _ _ b)
  IsLoggedAt-Grows (recorded r result) db db' g ((a, b), c) =
      ((g.ids _ a, g.rows _ _ b), g.rows _ _ c)
  IsLoggedAt-Grows (done result) db db' g h = g.rows _ _ h
  IsLoggedAt-Grows (failed e) db db' g h = g.rows _ _ h

  -- What a reservation leaves.
  abbrev IsReserved : Result (Option TradeLog) × Db → Type 0
  IsReserved (ok none, db) = has_row tenant.id signal.signal_id db.trades ≡ true
  IsReserved (ok (some r), db) = HasReservation r db
  IsReserved (raised e, db) = has_row tenant.id signal.signal_id db.trades ≡ true

  reserve-IsReserved : (now : ℕ) (db : Db) → IsReserved (reserve rt now tenant signal db)
  unfolding reserve
  reserve-IsReserved now db = elim (Bool-cases (has_row tenant.id signal.signal_id db.trades)) [
    | inl taken ↦
        rw
          (try_reserve_taken now tenant.id signal.signal_id signal.strategy signal.symbol
            (action_value signal.action) signal.quantity db taken)
          taken
    | inr free ↦
        let row =
          received_row now tenant.id signal.signal_id signal.strategy signal.symbol
            (action_value signal.action) signal.quantity in
        rw
          (try_reserve_free now tenant.id signal.signal_id signal.strategy signal.symbol
            (action_value signal.action) signal.quantity db free)
          (has_new_id row db, has_new_row row db)
  ]

  IsLogged-after_reservation :
      (x : Result (Option TradeLog) × Db)
      → IsReserved x
      → IsLoggedAt (next_stage after_reservation x).0 (next_stage after_reservation x).1
  IsLogged-after_reservation (ok none, db) h = h
  IsLogged-after_reservation (ok (some r), db) h = h
  IsLogged-after_reservation (raised e, db) h = h

  -- The next stage asks for no more than is given of the log, whether the call returns or raises.
  next_stage-IsLoggedAt :
      {A : Type 0} (stage : Stage) (x : Result A × Db)
      → IsLoggedAt stage x.1
      → has_row tenant.id signal.signal_id x.1.trades ≡ true
      → IsLoggedAt (next_stage (λ _. stage) x).0 (next_stage (λ _. stage) x).1
  next_stage-IsLoggedAt stage (ok a, db) h k = h
  next_stage-IsLoggedAt stage (raised e, db) h k = k

  -- A row that was logged is there.
  abbrev Logged : Result TradeLog × Db → Type 0
  Logged (ok r, db) = has_row tenant.id (signal.signal_id +s ":mt5") db.trades ≡ true
  Logged (raised e, db) = Unit

  insert_row-Logged :
      (e : TradeLog) (db : Db)
      → e.tenant_id ≡ tenant.id
      → e.signal_id ≡ signal.signal_id +s ":mt5"
      → Logged (insert_row e db)
  insert_row-Logged e db p q = elim (Bool-cases (has_row e.tenant_id e.signal_id db.trades)) [
    | inl taken ↦ rw (insert_row_taken e db taken) tt
    | inr free ↦ rw (insert_row_free e db free, sym p, sym q) (has_new_row e db)
  ]

  log_row-Logged :
      (m o : Option (Option String)) (row : String → Option String → TradeLog) (db : Db)
      → ((x : String) (y : Option String) → Logged (insert_row (row x y) db))
      → Logged (log_row m o row db)
  log_row-Logged none o row db k = tt
  log_row-Logged (some m) none row db k = tt
  log_row-Logged (some none) (some o) row db k = tt
  log_row-Logged (some (some x)) (some y) row db k = k x y

  log_result-Logged :
      (now : ℕ) (order : OrderRequest) (result : OrderResult) (db : Db)
      → Logged (log_result rt now tenant signal order result db)
  unfolding log_result log_trade
  log_result-Logged now order result db =
      log_row-Logged _ _ _ db (λ x y. insert_row-Logged _ db refl refl)

  IsLogged-recorded :
      (r : TradeLog) (result : OrderResult) (x : Result TradeLog × Db)
      → HasReservation r x.1
      → Logged x
      → IsLoggedAt
          (next_stage (λ _. recorded r result) x).0
          (next_stage (λ _. recorded r result) x).1
  IsLogged-recorded r result (ok row, db) h k = (h, k)
  IsLogged-recorded r result (raised e, db) h k = h.1

  decide-IsLoggedAt :
      (r : TradeLog) (d : Decision) (db : Db)
      → HasReservation r db
      → IsLoggedAt (after_decision r d) db
  decide-IsLoggedAt r (refuse logged message) db h = h
  decide-IsLoggedAt r (place order) db h = h

  answer-IsLoggedAt :
      (r : TradeLog) (order : OrderRequest) (x : Result OrderResult) (db : Db)
      → HasReservation r db
      → IsLoggedAt (after_answer r order x) db
  answer-IsLoggedAt r order (ok result) db h = h
  answer-IsLoggedAt r order (raised e) db h = h.1

  advance-IsLoggedAt :
      (i : Inputs) (stage : Stage) (db : Db)
      → IsLoggedAt stage db
      → IsLoggedAt (advance rt tenant signal i stage db).0 (advance rt tenant signal i stage db).1
  unfolding advance reject finish
  advance-IsLoggedAt i starting db h = IsLogged-after_reservation _ (reserve-IsReserved i.now db)
  advance-IsLoggedAt i (reserved r) db h = decide-IsLoggedAt r _ db h
  advance-IsLoggedAt i (refusing r logged message) db h =
      let g = finalize-Grows r "rejected" logged db in
      next_stage-IsLoggedAt (done (rejected_with message)) _ (g.rows _ _ h.1) (g.rows _ _ h.1)
  advance-IsLoggedAt i (placing r order) db h = h
  advance-IsLoggedAt i (waiting r order) db h = answer-IsLoggedAt r order i.answer db h
  advance-IsLoggedAt i (answered r order result) db h =
      let g = log_result-Grows rt tenant signal i.now order result db in
      IsLogged-recorded r result _ (g.ids _ h.0, g.rows _ _ h.1)
        (log_result-Logged i.now order result db)
  advance-IsLoggedAt i (recorded r result) db h =
      let g = finalize-Grows r "dispatched" ("Routed to MT5: " +s status_value result.status) db in
      next_stage-IsLoggedAt (done result) _ (g.rows _ _ h.0.1) (g.rows _ _ h.0.1)
  advance-IsLoggedAt i (done result) db h = h
  advance-IsLoggedAt i (failed e) db h = h

module _ (rt : Runtime) where
  abbrev pub IsLogged : Db → Task → Type 0
  IsLogged db task = IsLoggedAt rt task.tenant task.signal task.stage db

  IsLogged-Grows :
      (db db' : Db) (tasks : List Task)
      → Grows db db'
      → All (IsLogged db) tasks
      → All (IsLogged db') tasks
  IsLogged-Grows db db' tasks g =
      All-implies tasks (λ task. IsLoggedAt-Grows rt task.tenant task.signal task.stage db db' g)

  Step-IsLogged :
      {σ τ : System} → Step rt σ τ → All (IsLogged σ.db) σ.tasks → All (IsLogged τ.db) τ.tasks
  Step-IsLogged (arrive σ tenant signal) h = (tt, h)
  Step-IsLogged (run db before task after sent i) h =
      let stepped = advance rt task.tenant task.signal i task.stage db in
      let grows = advance-Grows rt task.tenant task.signal i task.stage db in
      All-replace (IsLogged stepped.1) before task (record task { stage = stepped.0 }) after
        (advance-IsLoggedAt rt task.tenant task.signal i task.stage db
          (All_at (IsLogged db) before task after h))
        (IsLogged-Grows db stepped.1 (before ++ task ∷ after) grows h)
  Step-IsLogged (outside σ tenants) h =
      IsLogged-Grows σ.db (record σ.db { tenants = tenants }) σ.tasks
        (record { ids = λ id k. k; rows = λ t s k. k }) h

  -- In every state that interleaved calls of process_signal reach from a database with no call
  -- under way, for every call: a reservation that it holds is still in the log, by its id and by
  -- the tenant and signal id; a call that has ended, with a result or an exception, has left a row
  -- of its tenant and signal id; and where the broker's result is recorded, the row of the signal
  -- id with :mt5 is there.
  pub audit : (db : Db) (σ : System) → Reach rt (idle db) σ → All (IsLogged σ.db) σ.tasks
  audit db σ here = tt
  audit db σ (next r step) = Step-IsLogged step (audit db _ r)

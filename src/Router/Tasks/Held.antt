-- ===== src/Router/Tasks/Held.antt =====
-- A task of app/services/order_router.py whose tenant's row the risk check refuses sends no order.
use dataveda_nifty_agent.Prelude.{
  String, false, ◌≡◌, refl, List, ◌++◌, keep, str_eq, eq_iff, Bool-cases, inl, inr, Option, none,
  some,
}
use dataveda_nifty_agent.Runtime.{Runtime}
use dataveda_nifty_agent.Models.Signal.{TradingViewSignal}
use dataveda_nifty_agent.Storage.Models.{Tenant, TradeLog, Db}
use dataveda_nifty_agent.Storage.Action.{Result, ok, raised}
use dataveda_nifty_agent.Risk.{RiskCheckResult, check_risk}
use dataveda_nifty_agent.Router.{decide, reserve, rejected_with, reject, log_result, finish}
use dataveda_nifty_agent.Router.Tasks.{
  Stage, starting, reserved, refusing, placing, waiting, answered, recorded, done, failed, Task,
  Inputs, advance, sent_by, next_stage, after_reservation, after_decision, after_answer,
}

-- An alert that sends no order any more: the row that it read has a property for which the risk check
-- refuses it, or it has been refused, or its order is sent.
abbrev pub IsHeldAt : (Tenant → Type 0) → Tenant → Stage → Type 0
IsHeldAt Q tenant starting = Q tenant
IsHeldAt Q tenant (reserved r) = Q tenant
IsHeldAt Q tenant (placing r order) = ⊥
IsHeldAt Q tenant _ = Unit

-- An alert of the account, if it is one.
abbrev pub IsHeld : (Tenant → Type 0) → String → Task → Type 0
IsHeld Q id task = task.tenant.id ≡ id → IsHeldAt Q task.tenant task.stage

-- The orders of an account.
abbrev pub orders_of : String → List (String × String) → List (String × String)
orders_of id = keep (λ (tenant_id, signal_id). str_eq tenant_id id)

module _ (Q : Tenant → Type 0) (rt : Runtime) (tenant : Tenant) (signal : TradingViewSignal) where
  reserved-IsHeldAt :
      (x : Result (Option TradeLog) × Db)
      → Q tenant
      → IsHeldAt Q tenant (next_stage after_reservation x).0
  reserved-IsHeldAt (ok none, db) on = tt
  reserved-IsHeldAt (ok (some r), db) on = on
  reserved-IsHeldAt (raised e, db) on = tt

  decided-IsHeldAt :
      (r : TradeLog) (risk : RiskCheckResult)
      → risk.allowed ≡ false
      → IsHeldAt Q tenant (after_decision r (decide tenant signal risk))
  unfolding decide
  decided-IsHeldAt r risk h = rw h tt

  answered-IsHeldAt :
      (r : TradeLog) (order : _) (x : Result _) → IsHeldAt Q tenant (after_answer r order x)
  answered-IsHeldAt r order (ok result) = tt
  answered-IsHeldAt r order (raised e) = tt

  next-IsHeldAt :
      {A : Type 0} (stage : Stage) (x : Result A × Db)
      → IsHeldAt Q tenant stage
      → IsHeldAt Q tenant (next_stage (λ _. stage) x).0
  next-IsHeldAt stage (ok a, db) h = h
  next-IsHeldAt stage (raised e, db) h = tt

  pub advance-IsHeldAt :
      (i : Inputs) (stage : Stage) (db : Db)
      → (Q tenant → (check_risk rt i.now i.later tenant signal db).allowed ≡ false)
      → IsHeldAt Q tenant stage
      → IsHeldAt Q tenant (advance rt tenant signal i stage db).0
  unfolding advance
  advance-IsHeldAt i starting db refused h = reserved-IsHeldAt (reserve rt i.now tenant signal db) h
  advance-IsHeldAt i (reserved r) db refused h =
      decided-IsHeldAt r (check_risk rt i.now i.later tenant signal db) (refused h)
  advance-IsHeldAt i (refusing r logged message) db refused h =
      next-IsHeldAt (done (rejected_with message)) (reject rt r logged db) tt
  advance-IsHeldAt i (placing r order) db refused h = tt
  advance-IsHeldAt i (waiting r order) db refused h = answered-IsHeldAt r order i.answer
  advance-IsHeldAt i (answered r order result) db refused h =
      next-IsHeldAt (recorded r result) (log_result rt i.now tenant signal order result db) tt
  advance-IsHeldAt i (recorded r result) db refused h =
      next-IsHeldAt (done result) (finish rt r result db) tt
  advance-IsHeldAt i (done result) db refused h = tt
  advance-IsHeldAt i (failed e) db refused h = tt

  pub sent-IsHeld :
      (id : String) (stage : Stage) (sent : List (String × String))
      → (tenant.id ≡ id → IsHeldAt Q tenant stage)
      → orders_of id (sent_by (record { tenant = tenant; signal = signal; stage = stage }) ++ sent)
        ≡ orders_of id sent
  sent-IsHeld id starting sent h = refl
  sent-IsHeld id (reserved r) sent h = refl
  sent-IsHeld id (refusing r logged message) sent h = refl
  sent-IsHeld id (placing r order) sent h = elim (Bool-cases (str_eq tenant.id id)) [
    | inl own ↦ absurd (h ((eq_iff tenant.id id).0 own))
    | inr other ↦ rw other refl
  ]
  sent-IsHeld id (waiting r order) sent h = refl
  sent-IsHeld id (answered r order result) sent h = refl
  sent-IsHeld id (recorded r result) sent h = refl
  sent-IsHeld id (done result) sent h = refl
  sent-IsHeld id (failed e) sent h = refl

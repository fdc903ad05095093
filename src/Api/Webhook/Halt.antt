-- ===== src/Api/Webhook/Halt.antt =====
-- A tenant whose signals the risk check refuses: the webhook in app/main.py sends no order for it.
use dataveda_nifty_agent.Prelude.{ap, sym, ◌∙◌, String, ◌≡◌, refl, false, Option, none, some, arith}
use dataveda_nifty_agent.Runtime.{Runtime}
use dataveda_nifty_agent.Python.Json.{Json, obj, Fields}
use dataveda_nifty_agent.Models.Signal.{TradingViewSignal, validate}
use dataveda_nifty_agent.Models.Order.{OrderRequest, OrderResult, rejected}
use dataveda_nifty_agent.Storage.Models.{Tenant, TradeLog, Db}
use dataveda_nifty_agent.Storage.Action.{Result, ok, raised, Action, continue, pure, ◌>>=◌, ◌>>◌}
use dataveda_nifty_agent.Storage.Tenants.{get_tenant_by_webhook_id}
use dataveda_nifty_agent.Risk.{RiskCheckResult, check_risk}
use dataveda_nifty_agent.Router.{
  Times, decide, carry_out, after_reserve, process_signal, reserve, reject,
}
use dataveda_nifty_agent.Api.Webhook.{
  json_object, or_unprocessable, check_passphrase, tradingview_webhook,
}

-- The webhook from the tenant on, for some way to process a signal.
abbrev webhook_for :
    Runtime
    → Tenant
    → Option Json
    → (TradingViewSignal → Action OrderResult)
    → Action (String × OrderResult)
webhook_for rt tenant body process = do
  raw ← json_object body
  check_passphrase rt tenant raw
  signal ← or_unprocessable (validate rt raw)
  result ← process signal
  pure (signal.signal_id, result)

-- A property of the value, if there is one.
abbrev pub Gives : {A : Type 0} → (A → Type 0) → Result A → Type 0
Gives P (ok a) = P a
Gives P (raised e) = Unit

pub continue-Gives :
    {A B : Type 0} (P : B → Type 0) (x : Result A × Db) (f : A → Action B)
    → ((a : A) (db : Db) → Gives P (f a db).0)
    → Gives P (continue x f).0
continue-Gives P (ok a, db) f h = h a db
continue-Gives P (raised e, db) f h = tt

abbrev pub IsRejected : OrderResult → Type 0
IsRejected result = result.status ≡ rejected

abbrev pub AnswersRejected : String × OrderResult → Type 0
AnswersRejected (signal_id, result) = IsRejected result

continue_rejected :
    (signal_id : String) (x : Result OrderResult × Db)
    → Gives IsRejected x.0
    → Gives AnswersRejected (continue x (λ result. pure (signal_id, result))).0
continue_rejected signal_id (ok result, db) h = h
continue_rejected signal_id (raised e, db) h = h

module _ (rt : Runtime) (times : Times) (tenant : Tenant) (signal : TradingViewSignal)
    (blocked : (db : Db)
      → (check_risk rt times.checked times.pnl tenant signal db).allowed ≡ false) where
  module _ (broker other : OrderRequest → Action OrderResult) where
    carry_out-refused :
        (r : TradeLog) (risk : RiskCheckResult) (db : Db)
        → risk.allowed ≡ false
        → carry_out rt times tenant signal broker r (decide tenant signal risk) db
          ≡ carry_out rt times tenant signal other r (decide tenant signal risk) db
    unfolding carry_out decide
    carry_out-refused r risk db h = ground arith

    after_reserve-blocked :
        (r : Option TradeLog) (db : Db)
        → after_reserve rt times tenant signal broker r db
          ≡ after_reserve rt times tenant signal other r db
    unfolding after_reserve
    after_reserve-blocked none db = refl
    after_reserve-blocked (some r) db = carry_out-refused r _ db (blocked db)

    pub process_signal-blocked :
        process_signal rt times tenant signal broker ≡ process_signal rt times tenant signal other
    unfolding process_signal
    process_signal-blocked = λ i db.
        continue (reserve rt times.reserved tenant signal db) (λ r d. after_reserve-blocked r d i)

  carry_out_rejects :
      (broker : OrderRequest → Action OrderResult) (r : TradeLog) (risk : RiskCheckResult) (db : Db)
      → risk.allowed ≡ false
      → Gives IsRejected
          (carry_out rt times tenant signal broker r (decide tenant signal risk) db).0
  unfolding carry_out decide
  carry_out_rejects broker r risk db h =
      rw h (continue-Gives IsRejected (reject rt r _ db) _ (λ a d. refl))

  after_reserve_rejects :
      (broker : OrderRequest → Action OrderResult) (r : Option TradeLog) (db : Db)
      → Gives IsRejected (after_reserve rt times tenant signal broker r db).0
  unfolding after_reserve
  after_reserve_rejects broker none db = refl
  after_reserve_rejects broker (some r) db = carry_out_rejects broker r _ db (blocked db)

  pub process_signal_rejects :
      (broker : OrderRequest → Action OrderResult) (db : Db)
      → Gives IsRejected (process_signal rt times tenant signal broker db).0
  unfolding process_signal
  process_signal_rejects broker db =
      continue-Gives IsRejected (reserve rt times.reserved tenant signal db) _
        (after_reserve_rejects broker)

module _ (rt : Runtime) (times : Times) (tenant : Tenant) (webhook_id : String) (body : Option Json)
    (db : Db) (found : get_tenant_by_webhook_id webhook_id db ≡ (ok (some tenant), db)) where
  webhook-for :
      (broker : Tenant → OrderRequest → Action OrderResult)
      → tradingview_webhook rt times broker webhook_id body db
        ≡ webhook_for rt tenant body
            (λ signal. process_signal rt times tenant signal (broker tenant))
            db
  unfolding tradingview_webhook
  webhook-for broker = rw found refl

  -- A signal that the check refuses.
  module _ (raw : Fields) (signal : TradingViewSignal) (json : body ≡ some (obj raw))
      (read : validate rt raw ≡ some signal)
      (refused : (d : Db)
        → (check_risk rt times.checked times.pnl tenant signal d).allowed ≡ false) where
    pub signal_silent :
        (broker other : Tenant → OrderRequest → Action OrderResult)
        → tradingview_webhook rt times broker webhook_id body db
          ≡ tradingview_webhook rt times other webhook_id body db
    signal_silent broker other =
        rw (webhook-for broker, webhook-for other, json, read)
          (ap
            (λ (process : Action OrderResult).
              continue (check_passphrase rt tenant raw db)
                (λ x d. continue (process d) (λ result. pure (signal.signal_id, result))))
            (process_signal-blocked rt times tenant signal refused (broker tenant) (other tenant)))

    pub signal_rejected :
        (broker : Tenant → OrderRequest → Action OrderResult)
        → Gives AnswersRejected (tradingview_webhook rt times broker webhook_id body db).0
    signal_rejected broker =
        rw (webhook-for broker, json, read)
          (continue-Gives AnswersRejected (check_passphrase rt tenant raw db) _ (λ x d.
            continue_rejected signal.signal_id _
              (process_signal_rejects rt times tenant signal refused (broker tenant) d)))

  module _
      (blocked : (signal : TradingViewSignal) (d : Db)
        → (check_risk rt times.checked times.pnl tenant signal d).allowed ≡ false) where
    webhook_silent :
        (broker other : Tenant → OrderRequest → Action OrderResult)
        → tradingview_webhook rt times broker webhook_id body db
          ≡ tradingview_webhook rt times other webhook_id body db
    webhook_silent broker other =
        webhook-for broker
        ∙ (λ i.
            webhook_for rt tenant body
              (λ signal.
                process_signal-blocked rt times tenant signal (blocked signal) (broker tenant)
                  (other tenant) i)
              db)
        ∙ sym (webhook-for other)

    webhook_rejects :
        (broker : Tenant → OrderRequest → Action OrderResult)
        → Gives AnswersRejected (tradingview_webhook rt times broker webhook_id body db).0
    webhook_rejects broker = rw (webhook-for broker) (
        continue-Gives AnswersRejected (json_object body db) _ (λ raw d.
          continue-Gives AnswersRejected (check_passphrase rt tenant raw d) _ (λ x d'.
            continue-Gives AnswersRejected (or_unprocessable (validate rt raw) d') _ (λ signal d''.
              continue_rejected signal.signal_id _ (
                process_signal_rejects rt times tenant signal (blocked signal) (broker tenant)
                  d'')))))

-- No alert of the hook reaches a broker, and every answer is that the order is rejected.
pub record IsHalted (rt : Runtime) (times : Times) (webhook_id : String) (db : Db) : Type 0 where
  pub silent :
      (body : Option Json) (broker other : Tenant → OrderRequest → Action OrderResult)
      → tradingview_webhook rt times broker webhook_id body db
        ≡ tradingview_webhook rt times other webhook_id body db
  pub rejects :
      (body : Option Json) (broker : Tenant → OrderRequest → Action OrderResult)
      → Gives AnswersRejected (tradingview_webhook rt times broker webhook_id body db).0

pub blocked-IsHalted :
    (rt : Runtime) (times : Times) (tenant : Tenant) (webhook_id : String) (db : Db)
    → ((signal : TradingViewSignal) (d : Db)
        → (check_risk rt times.checked times.pnl tenant signal d).allowed ≡ false)
    → get_tenant_by_webhook_id webhook_id db ≡ (ok (some tenant), db)
    → IsHalted rt times webhook_id db
blocked-IsHalted rt times tenant webhook_id db blocked found = record {
  silent = λ body. webhook_silent rt times tenant webhook_id body db found blocked;
  rejects = λ body. webhook_rejects rt times tenant webhook_id body db found blocked;
}

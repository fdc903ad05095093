-- ===== src/Api/Concurrent/Admitted.antt =====
-- The alerts that app/main.py's webhook hands to process_signal.
use dataveda_nifty_agent.Api.Concurrent.{
  validate, or_unprocessable, check_passphrase, json_object, Call, newcomer, of_customer, of_admin,
  alert, Progress, arrived, loaded, committed, over, handed_over, tasks_of, admit, entering,
}
use dataveda_nifty_agent.Prelude.{String, ◌≡◌, refl, Option, none, some, All}
use dataveda_nifty_agent.Python.Json.{Json}
use dataveda_nifty_agent.Runtime.{Runtime}
use dataveda_nifty_agent.Models.Signal.{TradingViewSignal}
use dataveda_nifty_agent.Storage.Models.{Tenant, Db}
use dataveda_nifty_agent.Storage.Action.{Result, ok, raised}
use dataveda_nifty_agent.Storage.Tenants.{get_tenant_by_webhook_id}
use dataveda_nifty_agent.Storage.Tenants.Found.{found_row}
use dataveda_nifty_agent.Storage.Tenants.Save.{row_of}
use dataveda_nifty_agent.Router.Tasks.{Task, starting}
use dataveda_nifty_agent.Api.Auth.{Settings}
use dataveda_nifty_agent.Api.Webhook.Halt.{Gives, continue-Gives}
use dataveda_nifty_agent.Api.Server.Valid.{DbValid}

module _ (rt : Runtime) (settings : Settings) (db : Db) where
  abbrev IsStored : Tenant × TradingViewSignal → Type 0
  IsStored (tenant, signal) = row_of tenant.id db.tenants ≡ some tenant

  admit_found :
      (webhook_id : String) (body : Option Json) (x : Result (Option Tenant))
      → get_tenant_by_webhook_id webhook_id db ≡ (x, db)
      → ((t : Tenant) → x ≡ ok (some t) → row_of t.id db.tenants ≡ some t)
      → Gives IsStored (admit rt settings webhook_id body db).0
  unfolding admit
  admit_found webhook_id body (raised e) h k = rw h tt
  admit_found webhook_id body (ok none) h k = rw h tt
  admit_found webhook_id body (ok (some t)) h k = rw h (
      continue-Gives IsStored (json_object body db) _ (λ raw d.
        continue-Gives IsStored (check_passphrase rt t raw d) _ (λ u d'.
          continue-Gives IsStored (or_unprocessable (validate rt raw) d') _
            (λ signal d''. k t refl))))

  admit-IsStored :
      (webhook_id : String) (body : Option Json)
      → DbValid db
      → Gives IsStored (admit rt settings webhook_id body db).0
  unfolding get_tenant_by_webhook_id
  admit-IsStored webhook_id body v =
      admit_found webhook_id body _ refl (λ t. found_row _ t db.tenants v.accounts)

  -- A task that comes in has the tenant's row as it is stored.
  pub entering-All :
      (P : Task → Type 0)
      → ((tenant : Tenant) (signal : TradingViewSignal)
          → row_of tenant.id db.tenants ≡ some tenant
          → P (record { tenant = tenant; signal = signal; stage = starting }))
      → DbValid db
      → (call : Call) (progress : Progress) → All P (entering rt settings call progress db)
  unfolding entering
  entering-All P start v (alert webhook_id body) arrived =
      of_admitted _ (admit-IsStored webhook_id body v)
    where
      of_admitted :
          (x : Result (Tenant × TradingViewSignal)) → Gives IsStored x → All P (tasks_of x)
      of_admitted (ok (tenant, signal)) h = (start tenant signal h, tt)
      of_admitted (raised e) h = tt
  entering-All P start v (alert webhook_id body) (loaded t) = tt
  entering-All P start v (alert webhook_id body) (committed id answer) = tt
  entering-All P start v (alert webhook_id body) (over x) = tt
  entering-All P start v (alert webhook_id body) handed_over = tt
  entering-All P start v (newcomer email drawn) progress = tt
  entering-All P start v (of_customer authorization call) progress = tt
  entering-All P start v (of_admin key call) progress = tt

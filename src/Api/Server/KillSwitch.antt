-- ===== src/Api/Server/KillSwitch.antt =====
-- The kill switch of app/main.py from the request that engages it to the alerts after it.
use mathlib.Core.Path.{subst}
use dataveda_nifty_agent.Prelude.{String, ◌≡◌, true, some}
use dataveda_nifty_agent.Runtime.{Runtime}
use dataveda_nifty_agent.Storage.Models.{Tenant, Db}
use dataveda_nifty_agent.Storage.Action.{ok}
use dataveda_nifty_agent.Storage.Tenants.{get_tenant_by_webhook_id}
use dataveda_nifty_agent.Storage.Tenants.Found.{get_tenant_by_webhook_id-row}
use dataveda_nifty_agent.Risk.Guards.{engaged_blocked}
use dataveda_nifty_agent.Router.{Times}
use dataveda_nifty_agent.Api.Auth.{Settings, get_current_tenant}
use dataveda_nifty_agent.Api.Webhook.Halt.{IsHalted, blocked-IsHalted}
use dataveda_nifty_agent.Api.Server.{
  History, then_request, customer, kill_switch, switched, respond, serve,
}
use dataveda_nifty_agent.Api.Server.Valid.{DbValid, every_history_valid}
use dataveda_nifty_agent.Api.Server.Requests.{AreSpared, history_keeps}
use dataveda_nifty_agent.Api.Server.Lasting.{IsStopped, IsStopped-Served}
use dataveda_nifty_agent.Api.Server.Halts.{kill_switch_stops}

module _ (rt : Runtime) where
  stopped-IsHalted :
      (id webhook_id : String) (db : Db) (times : Times)
      → DbValid db
      → IsStopped id webhook_id db
      → IsHalted rt times webhook_id db
  stopped-IsHalted id webhook_id db times v s =
      blocked-IsHalted rt times s.row webhook_id db
        (engaged_blocked rt times.checked times.pnl s.row s.blocked)
        (subst (λ (w : String). get_tenant_by_webhook_id w db ≡ (ok (some s.row), db)) s.hook
          (get_tenant_by_webhook_id-row id s.row db v.accounts s.stored))

  -- In a valid database, a request that engages the kill switch with the API key of an account
  -- answers that it is engaged for the reason given; and after it and any history of requests none
  -- of which, also while a webhook call waits for the agent, disengages a kill switch, the
  -- account's webhook, for every body and at any time, has an outcome that does not depend on the
  -- broker, and rejects the order where it answers.
  pub kill_switch_lasts :
      (settings : Settings) (authorization reason : String) (tenant : Tenant) (db : Db)
      → DbValid db
      → get_current_tenant rt authorization db ≡ (ok tenant, db)
      → (history : History) → AreSpared (λ engaged. engaged ≡ true) history
      → (times : Times)
      → let request = customer authorization (kill_switch true reason) in
        ((respond rt settings request db).0 ≡ ok (switched (true, reason)))
        × IsHalted rt times tenant.webhook_id (serve rt settings (then_request request history) db)
  unfolding serve
  kill_switch_lasts settings authorization reason tenant db v found history spared times =
      let (answer, stopped) =
        kill_switch_stops rt settings authorization reason tenant db v found in
      (
        answer,
        stopped-IsHalted tenant.id tenant.webhook_id _ times
            (every_history_valid rt settings
              (then_request (customer authorization (kill_switch true reason)) history) db v)
            (history_keeps rt settings (IsStopped tenant.id tenant.webhook_id)
              (λ engaged. engaged ≡ true) (IsStopped-Served rt tenant.id tenant.webhook_id) history
              spared _ stopped),
      )

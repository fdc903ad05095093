-- ===== src/Api/Concurrent/KillSwitch.antt =====
-- A kill switch of app/main.py while requests and alerts interleave.
use dataveda_nifty_agent.Prelude.{ℕ, String, Bool, true, false, ◌≡◌, refl, All}
use dataveda_nifty_agent.Runtime.{Runtime}
use dataveda_nifty_agent.Storage.Models.{Tenant}
use dataveda_nifty_agent.Storage.Action.{Result, ok, raised}
use dataveda_nifty_agent.Storage.Columns.{column, bool_eq, update_columns, commit}
use dataveda_nifty_agent.Router.Tasks.Held.{IsHeld, orders_of}
use dataveda_nifty_agent.Risk.Guards.{engaged_blocked}
use dataveda_nifty_agent.Api.Server.Rows.{save-HasRow}
use dataveda_nifty_agent.Api.Concurrent.Blocked.{Blocks, blocked_orders}
use dataveda_nifty_agent.Api.Auth.{Settings}
use dataveda_nifty_agent.Api.Server.{
  MeCall, account, symbol_map, risk_settings, kill_switch, trades, webhook_passphrase, agent_token,
  AdminCall, tenants, grant, revoke, reset,
}
use dataveda_nifty_agent.Api.Server.Valid.{DbValid}
use dataveda_nifty_agent.Api.Server.Requests.{IsSparedCall}
use dataveda_nifty_agent.Api.Server.Lasting.{IsEngaged, IsStopped, IsStopped-Served}
use dataveda_nifty_agent.Api.Concurrent.{
  Call, newcomer, of_customer, of_admin, alert, granted, plan_me, plan_admin, plan,
}
use dataveda_nifty_agent.Api.Concurrent.Keeping.{Spares, SparesPlan}
use dataveda_nifty_agent.Api.Concurrent.Everywhere.{Everywhere}
use dataveda_nifty_agent.Api.Concurrent.World.{Rules, World, Reach}

-- The requests that disengage no kill switch.
abbrev pub DisengagesNone : Call → Type 0
DisengagesNone (of_customer authorization call) = IsSparedCall (λ engaged. engaged ≡ true) call
DisengagesNone _ = Unit

abbrev pub no_release : Rules
no_release = record { calls = DisengagesNone; instants = λ now. Unit }

-- An UPDATE that leaves an engaged kill switch engaged.
abbrev KeepsEngaged : Tenant → Tenant → Type 0
KeepsEngaged was set = column bool_eq was.kill_switch_engaged set.kill_switch_engaged true ≡ true

same_switch : (b : Bool) → column bool_eq b b true ≡ true
same_switch true = refl
same_switch false = refl

engaging : (b : Bool) → column bool_eq b true true ≡ true
engaging true = refl
engaging false = refl

module _ (rt : Runtime) (settings : Settings) where
  granted-KeepsEngaged :
      (t : Tenant) (expiry : Result ℕ) → SparesPlan KeepsEngaged t (granted t expiry)
  granted-KeepsEngaged t (ok expiry) = same_switch t.kill_switch_engaged
  granted-KeepsEngaged t (raised e) = tt

  me-KeepsEngaged :
      (call : MeCall)
      → IsSparedCall (λ engaged. engaged ≡ true) call
      → (t : Tenant) → SparesPlan KeepsEngaged t (ok (plan_me rt call t))
  unfolding plan_me
  me-KeepsEngaged (account now later manager) h t = tt
  me-KeepsEngaged (symbol_map payload) h t = same_switch t.kill_switch_engaged
  me-KeepsEngaged (risk_settings payload) h t = same_switch t.kill_switch_engaged
  me-KeepsEngaged (kill_switch engaged reason) h t = rw h (engaging t.kill_switch_engaged)
  me-KeepsEngaged (trades limit offset) h t = tt
  me-KeepsEngaged (webhook_passphrase drawn) h t = same_switch t.kill_switch_engaged
  me-KeepsEngaged (agent_token drawn) h t = same_switch t.kill_switch_engaged

  admin-KeepsEngaged :
      (now : ℕ) (call : AdminCall) (t : Tenant)
      → SparesPlan KeepsEngaged t (plan_admin rt now call t)
  unfolding plan_admin
  admin-KeepsEngaged now (tenants limit offset) t = tt
  admin-KeepsEngaged now (grant id days) t = granted-KeepsEngaged t _
  admin-KeepsEngaged now (revoke id) t = same_switch t.kill_switch_engaged
  admin-KeepsEngaged now (reset drawn id) t = same_switch t.kill_switch_engaged

  Spares-KeepsEngaged : (call : Call) → DisengagesNone call → Spares KeepsEngaged rt settings call
  unfolding plan
  Spares-KeepsEngaged (newcomer email drawn) h now t = tt
  Spares-KeepsEngaged (of_customer authorization call) h now t = me-KeepsEngaged call h t
  Spares-KeepsEngaged (of_admin key call) h now t = admin-KeepsEngaged now call t
  Spares-KeepsEngaged (alert webhook_id body) h now t = tt

  IsStopped-Everywhere : (id w : String) → Everywhere rt (IsStopped id w) KeepsEngaged
  unfolding commit update_columns
  IsStopped-Everywhere id w =
      let served = IsStopped-Served rt id w in
      record {
        accounts = record {
          by_commit = λ was set keeps.
              save-HasRow IsEngaged id w was.id (update_columns was set) (λ t. refl) (λ t. refl)
                (λ t e. rw e keeps);
          by_create = served.by_create;
        };
        by_reserve = λ tenant signal now. served.by_reserve now tenant signal;
        kept = served.kept;
      }

  IsEngaged-Blocks : Blocks rt settings no_release IsEngaged KeepsEngaged
  IsEngaged-Blocks = record {
    lasts = IsStopped-Everywhere;
    spares = Spares-KeepsEngaged;
    refuses =
        λ now later tenant signal db timely on. engaged_blocked rt now later tenant on signal db;
  }

  -- In a valid database where an account's kill switch is engaged, and where each alert of the
  -- account that is under way read the row after that, or is refused, or has sent its order:
  -- through any steps of the requests and alerts under way and of any that come in, none of which
  -- disengages a kill switch, no order of the account goes to the broker, although rows are
  -- written that were read before others wrote them.
  pub kill_switch_holds :
      (id webhook_id : String) (w x : World)
      → DbValid w.system.db
      → IsStopped id webhook_id w.system.db
      → All (λ p. DisengagesNone p.call) w.pending
      → All (IsHeld IsEngaged id) w.system.tasks
      → Reach rt settings no_release w x
      → orders_of id x.system.sent ≡ orders_of id w.system.sent
  kill_switch_holds id webhook_id w x =
      blocked_orders rt settings no_release IsEngaged KeepsEngaged IsEngaged-Blocks id webhook_id w
        x

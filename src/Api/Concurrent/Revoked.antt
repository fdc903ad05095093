-- ===== src/Api/Concurrent/Revoked.antt =====
-- A revoked subscription of app/main.py while requests and alerts interleave.
use dataveda_nifty_agent.Prelude.{
  ℕ, String, ◌≤◌, ◌≡◌, refl, false, Option, none, some, All, ◌==◌, arith,
}
use dataveda_nifty_agent.Runtime.{Runtime}
use dataveda_nifty_agent.Models.Signal.{TradingViewSignal}
use dataveda_nifty_agent.Storage.Models.{Tenant, Db}
use dataveda_nifty_agent.Storage.Action.{ok}
use dataveda_nifty_agent.Storage.Columns.{column, option_eq, update_columns, commit}
use dataveda_nifty_agent.Risk.{lapsed, check_risk}
use dataveda_nifty_agent.Router.Tasks.Held.{IsHeld, orders_of}
use dataveda_nifty_agent.Api.Auth.{Settings}
use dataveda_nifty_agent.Api.Server.{
  MeCall, account, symbol_map, risk_settings, kill_switch, trades, webhook_passphrase, agent_token,
  tenants, grant, revoke, reset,
}
use dataveda_nifty_agent.Api.Server.Valid.{DbValid}
use dataveda_nifty_agent.Api.Server.Rows.{
  HasRow, save-HasRow, create_tenant-HasRow, HasRow-reserve, HasRow-IsKept,
}
use dataveda_nifty_agent.Api.Concurrent.{
  Call, newcomer, of_customer, of_admin, alert, plan_me, plan_admin, plan,
}
use dataveda_nifty_agent.Api.Concurrent.Keeping.{Spares, SparesPlan}
use dataveda_nifty_agent.Api.Concurrent.Everywhere.{Everywhere}
use dataveda_nifty_agent.Api.Concurrent.Blocked.{Blocks, blocked_orders}
use dataveda_nifty_agent.Api.Concurrent.World.{World, Rules, Reach}

-- The requests that grant and revoke nothing.
abbrev pub RenewsNone : Call → Type 0
RenewsNone (of_admin key (grant id days)) = ⊥
RenewsNone (of_admin key (revoke id)) = ⊥
RenewsNone _ = Unit

-- A request that renews nothing, at an instant from `end` on.
abbrev pub unrenewed : ℕ → Rules
unrenewed end = record { calls = RenewsNone; instants = λ now. end ≤ now }

-- The subscription ends at this instant.
abbrev pub EndsAt : ℕ → Tenant → Type 0
EndsAt end t = t.subscription_expires_at ≡ some end

-- An UPDATE that leaves that end.
abbrev KeepsEnd : ℕ → Tenant → Tenant → Type 0
KeepsEnd end was set =
    column (option_eq ◌==◌) was.subscription_expires_at set.subscription_expires_at (some end)
    ≡ some end

same_end : (end : ℕ) (e : Option ℕ) → column (option_eq ◌==◌) e e (some end) ≡ some end
same_end end none = refl
same_end end (some e) = ground arith

module _ (rt : Runtime) (settings : Settings) (end : ℕ) where
  me-KeepsEnd : (call : MeCall) (t : Tenant) → SparesPlan (KeepsEnd end) t (ok (plan_me rt call t))
  unfolding plan_me
  me-KeepsEnd (account now later manager) t = tt
  me-KeepsEnd (symbol_map payload) t = same_end end t.subscription_expires_at
  me-KeepsEnd (risk_settings payload) t = same_end end t.subscription_expires_at
  me-KeepsEnd (kill_switch engaged reason) t = same_end end t.subscription_expires_at
  me-KeepsEnd (trades limit offset) t = tt
  me-KeepsEnd (webhook_passphrase drawn) t = same_end end t.subscription_expires_at
  me-KeepsEnd (agent_token drawn) t = same_end end t.subscription_expires_at

  Spares-KeepsEnd : (call : Call) → RenewsNone call → Spares (KeepsEnd end) rt settings call
  unfolding plan plan_admin
  Spares-KeepsEnd (newcomer email drawn) h now t = tt
  Spares-KeepsEnd (of_customer authorization call) h now t = me-KeepsEnd call t
  Spares-KeepsEnd (of_admin key (tenants limit offset)) h now t = tt
  Spares-KeepsEnd (of_admin key (grant id days)) h now t = absurd h
  Spares-KeepsEnd (of_admin key (revoke id)) h now t = absurd h
  Spares-KeepsEnd (of_admin key (reset drawn id)) h now t = same_end end t.subscription_expires_at
  Spares-KeepsEnd (alert webhook_id body) h now t = tt

  EndsAt-Everywhere : (id w : String) → Everywhere rt (HasRow (EndsAt end) id w) (KeepsEnd end)
  unfolding commit update_columns
  EndsAt-Everywhere id w = record {
    accounts = record {
      by_commit = λ was set keeps.
          save-HasRow (EndsAt end) id w was.id (update_columns was set) (λ t. refl) (λ t. refl)
            (λ t e. rw e keeps);
      by_create = λ email drawn now. record {
        at = create_tenant-HasRow (EndsAt end) rt id w email drawn now;
      };
    };
    by_reserve = λ tenant signal now. HasRow-reserve (EndsAt end) rt id w now tenant signal;
    kept = HasRow-IsKept (EndsAt end) rt id w;
  }

  ended_blocked :
      (now later : ℕ) (tenant : Tenant) (signal : TradingViewSignal) (db : Db)
      → end ≤ now
      → EndsAt end tenant
      → (check_risk rt now later tenant signal db).allowed ≡ false
  unfolding check_risk lapsed
  ended_blocked now later tenant signal db over e = ground (arith, e)

  EndsAt-Blocks : Blocks rt settings (unrenewed end) (EndsAt end) (KeepsEnd end)
  EndsAt-Blocks = record {
    lasts = EndsAt-Everywhere;
    spares = Spares-KeepsEnd;
    refuses = ended_blocked;
  }

  -- In a valid database where an account's subscription ends at an instant, as a revocation leaves
  -- it, and where each alert of the account that is under way read the row after that, or is
  -- refused, or has sent its order: through any steps from that instant on of the requests and
  -- alerts under way and of any that come in, none of which grants or revokes a subscription, no
  -- order of the account goes to the broker, although rows are written that were read before
  -- others wrote them.
  pub revoked_holds :
      (id webhook_id : String) (w x : World)
      → DbValid w.system.db
      → HasRow (EndsAt end) id webhook_id w.system.db
      → All (λ p. RenewsNone p.call) w.pending
      → All (IsHeld (EndsAt end) id) w.system.tasks
      → Reach rt settings (unrenewed end) w x
      → orders_of id x.system.sent ≡ orders_of id w.system.sent
  revoked_holds id webhook_id w x =
      blocked_orders rt settings (unrenewed end) (EndsAt end) (KeepsEnd end) EndsAt-Blocks id
        webhook_id w x

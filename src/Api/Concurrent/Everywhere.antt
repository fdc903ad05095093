-- ===== src/Api/Concurrent/Everywhere.antt =====
-- Properties of the database in every state of the server with all its requests at once.
use dataveda_nifty_agent.Prelude.{ℕ, All, All_at, All-replace}
use dataveda_nifty_agent.Runtime.{Runtime}
use dataveda_nifty_agent.Models.Signal.{TradingViewSignal}
use dataveda_nifty_agent.Storage.Models.{Tenant, Db}
use dataveda_nifty_agent.Storage.Action.Keeps.{Keeps}
use dataveda_nifty_agent.Router.{reserve}
use dataveda_nifty_agent.Router.Keeping.{IsKept}
use dataveda_nifty_agent.Router.Tasks.Keeping.{advance-keeps}
use dataveda_nifty_agent.Api.Auth.{Settings}
use dataveda_nifty_agent.Api.Concurrent.{Call}
use dataveda_nifty_agent.Api.Concurrent.Keeping.{Writes, Spares, proceed-keeps}
use dataveda_nifty_agent.Api.Concurrent.World.{
  Rules, Pending, World, Step, come, handle, route, Reach, here, next,
}

-- A property that every write of the server keeps, an UPDATE of an account where it is spared.
pub record Everywhere (rt : Runtime) (P : Db → Type 0) (Spared : Tenant → Tenant → Type 0)
    : Type 0 where
  pub accounts : Writes rt P Spared
  pub by_reserve :
      (tenant : Tenant) (signal : TradingViewSignal) (now : ℕ)
      → Keeps P (reserve rt now tenant signal)
  pub kept : IsKept rt P

module _ (rt : Runtime) (settings : Settings) (P : Db → Type 0) (Spared : Tenant → Tenant → Type 0)
    (e : Everywhere rt P Spared) (rules : Rules)
    (spares : (call : Call) → rules.calls call → Spares Spared rt settings call) where
  -- The database has the property, and the requests under way are allowed.
  pub record Holds (w : World) : Type 0 where
    pub stored : P w.system.db
    pub allowed : All (λ p. rules.calls p.call) w.pending

  Step-Holds : {w x : World} → Step rt settings rules w x → Holds w → Holds x
  Step-Holds (come w call allowed) h = record { stored = h.stored; allowed = (allowed, h.allowed) }
  Step-Holds (handle before p after now σ timely) h =
      let here_allowed : rules.calls p.call =
        All_at (λ (q : Pending). rules.calls q.call) before p after h.allowed in
      record {
        stored =
            proceed-keeps rt settings P Spared (e.accounts) p.call now p.progress σ.db
              (spares p.call here_allowed) (h.stored);
        allowed =
            All-replace (λ (q : Pending). rules.calls q.call) before p _ after here_allowed
              (h.allowed);
      }
  Step-Holds (route pending db before task after sent i timely) h = record {
    stored =
        advance-keeps rt task.tenant task.signal P (e.kept) (e.by_reserve task.tenant task.signal) i
          task.stage db (h.stored);
    allowed = h.allowed;
  }

  pub everywhere : {w x : World} → Reach rt settings rules w x → Holds w → Holds x
  everywhere here h = h
  everywhere (next r step) h = Step-Holds step (everywhere r h)

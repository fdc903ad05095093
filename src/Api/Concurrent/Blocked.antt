-- ===== src/Api/Concurrent/Blocked.antt =====
-- An account whose row the risk check of app/risk/manager.py refuses, while requests and alerts of
-- app/main.py interleave.
use mathlib.Core.Path.{subst}
use mathlib.Core.Option.{some-injective}
use dataveda_nifty_agent.Prelude.{
  ℕ, String, false, ◌≡◌, ◌∙◌, refl, sym, List, All, All_at, All-replace, All-append, some,
}
use dataveda_nifty_agent.Runtime.{Runtime}
use dataveda_nifty_agent.Models.Signal.{TradingViewSignal}
use dataveda_nifty_agent.Storage.Models.{Tenant, Db}
use dataveda_nifty_agent.Storage.Tenants.Save.{row_of}
use dataveda_nifty_agent.Risk.{check_risk}
use dataveda_nifty_agent.Router.Tasks.{System}
use dataveda_nifty_agent.Router.Tasks.Held.{IsHeld, orders_of, advance-IsHeldAt, sent-IsHeld}
use dataveda_nifty_agent.Api.Auth.{Settings}
use dataveda_nifty_agent.Api.Server.Valid.{DbValid}
use dataveda_nifty_agent.Api.Server.Rows.{HasRow}
use dataveda_nifty_agent.Api.Concurrent.{Call, entering}
use dataveda_nifty_agent.Api.Concurrent.Keeping.{Spares}
use dataveda_nifty_agent.Api.Concurrent.Everywhere.{Everywhere, everywhere}
use dataveda_nifty_agent.Api.Concurrent.Valid.{DbValid-Everywhere}
use dataveda_nifty_agent.Api.Concurrent.Refines.{Spares-any}
use dataveda_nifty_agent.Api.Concurrent.Admitted.{entering-All}
use dataveda_nifty_agent.Api.Concurrent.World.{
  World, Rules, Step, come, handle, route, Reach, here, next,
}

-- A property of a row for which the risk check refuses every signal, and which the requests that come
-- in leave alone.
pub record Blocks (rt : Runtime) (settings : Settings) (rules : Rules) (Q : Tenant → Type 0)
    (Spared : Tenant → Tenant → Type 0) : Type 0 where
  pub lasts : (id webhook_id : String) → Everywhere rt (HasRow Q id webhook_id) Spared
  pub spares : (call : Call) → rules.calls call → Spares Spared rt settings call
  pub refuses :
      (now later : ℕ) (tenant : Tenant) (signal : TradingViewSignal) (db : Db)
      → rules.instants now
      → Q tenant
      → (check_risk rt now later tenant signal db).allowed ≡ false

module _ (rt : Runtime) (settings : Settings) (rules : Rules) (Q : Tenant → Type 0)
    (Spared : Tenant → Tenant → Type 0) (b : Blocks rt settings rules Q Spared) where
  module _ (id webhook_id : String) where
    stored_blocked :
        (db : Db) (t : Tenant)
        → HasRow Q id webhook_id db
        → row_of t.id db.tenants ≡ some t
        → t.id ≡ id
        → Q t
    stored_blocked db t s found e =
        let same : s.row ≡ t =
          some-injective _ _
            (sym s.stored ∙ subst (λ (k : String). row_of k db.tenants ≡ some t) e found) in
        subst Q same s.blocked

    -- The account's alerts send no order, and have not since `before`.
    record Quiet (before : List (String × String)) (σ : System) : Type 0 where
      tasks : All (IsHeld Q id) σ.tasks
      orders : orders_of id σ.sent ≡ orders_of id before

    Step-Quiet :
        (before : List (String × String)) {w x : World}
        → Step rt settings rules w x
        → DbValid w.system.db
        → HasRow Q id webhook_id w.system.db
        → Quiet before w.system
        → Quiet before x.system
    Step-Quiet sent (come w call allowed) v s q = q
    Step-Quiet sent (handle before p after now σ timely) v s q = record {
      tasks =
          All-append (IsHeld Q id) (entering rt settings p.call p.progress σ.db) σ.tasks
            (entering-All rt settings σ.db (IsHeld Q id)
              (λ tenant signal found. stored_blocked σ.db tenant s found) v p.call p.progress)
            q.tasks;
      orders = q.orders;
    }
    Step-Quiet sent (route pending db before task after sent' i timely) v s q =
        let held : IsHeld Q id task = All_at (IsHeld Q id) before task after q.tasks in
        record {
          tasks =
              All-replace (IsHeld Q id) before task _ after
                (λ own.
                  advance-IsHeldAt Q rt task.tenant task.signal i task.stage db
                    (b.refuses i.now i.later task.tenant task.signal db timely) (held own))
                q.tasks;
          orders = sent-IsHeld Q rt task.tenant task.signal id task.stage sent' held ∙ q.orders;
        }

    stays-Quiet :
        (w x : World)
        → DbValid w.system.db
        → HasRow Q id webhook_id w.system.db
        → All (λ p. rules.calls p.call) w.pending
        → All (IsHeld Q id) w.system.tasks
        → Reach rt settings rules w x
        → Quiet w.system.sent x.system
    stays-Quiet w x v s spared held here = record { tasks = held; orders = refl }
    stays-Quiet w x v s spared held (next r step) =
        let valid =
          everywhere rt settings DbValid (λ was set. Unit) (DbValid-Everywhere rt) rules
            (λ call h. Spares-any rt settings call) r (record { stored = v; allowed = spared }) in
        let stopped =
          everywhere rt settings (HasRow Q id webhook_id) Spared (b.lasts id webhook_id) rules
            b.spares r (record { stored = s; allowed = spared }) in
        Step-Quiet w.system.sent step valid.stored stopped.stored
          (stays-Quiet w _ v s spared held r)

    -- What was sent for the account stays all that was.
    pub blocked_orders :
        (w x : World)
        → DbValid w.system.db
        → HasRow Q id webhook_id w.system.db
        → All (λ p. rules.calls p.call) w.pending
        → All (IsHeld Q id) w.system.tasks
        → Reach rt settings rules w x
        → orders_of id x.system.sent ≡ orders_of id w.system.sent
    blocked_orders w x v s spared held r = (stays-Quiet w x v s spared held r).orders

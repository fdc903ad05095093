-- ===== src/Api/Concurrent/Refines.antt =====
-- The server of app/main.py with all its requests at once, against the tasks of process_signal alone.
use dataveda_nifty_agent.Prelude.{
  ◌≤◌, if◌then◌else◌, ◌+◌, ℕ, String, ◌≡◌, refl, Option, none, some, ◌++◌, any, Bool-cases, inl,
  inr, sym,
}
use mathlib.Core.Path.{subst}
use dataveda_nifty_agent.Runtime.{Runtime}
use dataveda_nifty_agent.Models.Signal.{TradingViewSignal}
use dataveda_nifty_agent.Storage.Models.{Tenant, Db}
use dataveda_nifty_agent.Storage.Action.{Result, ok, raised}
use dataveda_nifty_agent.Storage.Tenants.{
  save, write_row, create_tenant, same_key, others, new_tenant,
}
use dataveda_nifty_agent.Storage.Tenants.Save.{row_of}
use dataveda_nifty_agent.Storage.Columns.{commit}
use dataveda_nifty_agent.Router.Tasks
use dataveda_nifty_agent.Router.Tasks.{Task, System, arrive, outside, run}
use dataveda_nifty_agent.Router.Tasks.Once.{sends, at_most_once}
use dataveda_nifty_agent.Storage.Trades.Rows.{has_row}
use dataveda_nifty_agent.Api.Auth.{Settings}
use dataveda_nifty_agent.Api.Concurrent.{
  Call, newcomer, of_customer, of_admin, alert, Progress, arrived, loaded, committed, over,
  handed_over, Plan, reads_on, writes, tasks_of, admit, proceed, entering,
}
use dataveda_nifty_agent.Api.Concurrent.Keeping.{Writes, SparesPlan, Spares, proceed-keeps}
use dataveda_nifty_agent.Api.Concurrent.World.{
  Rules, empty_world, World, Step, come, handle, route, Reach, here, next,
}

-- Nothing but the accounts is written.
pub record OnlyTenants (was db : Db) : Type 0 where
  pub trades : db.trades ≡ was.trades
  pub next_id : db.next_id ≡ was.next_id

write_row-OnlyTenants :
    (was : Db) (id : String) (change : Tenant → Tenant) (db : Db) (found : Option Tenant)
    → OnlyTenants was db
    → OnlyTenants was (write_row id change db found).1
write_row-OnlyTenants was id change db none o = o
write_row-OnlyTenants was id change db (some row) o =
    elim (Bool-cases (any (same_key (change row)) (others id db.tenants))) [
      | inl clash ↦ rw clash o
      | inr free ↦ rw free (record { trades = o.trades; next_id = o.next_id })
    ]

create_tenant-OnlyTenants :
    (rt : Runtime) (was : Db) (email : String) (drawn : _) (now : ℕ) (db : Db)
    → OnlyTenants was db
    → OnlyTenants was (create_tenant rt email drawn now db).1
unfolding create_tenant
create_tenant-OnlyTenants rt was email drawn now db o =
    elim (Bool-cases (any (same_key (new_tenant rt email drawn now)) db.tenants)) [
      | inl taken ↦ rw taken o
      | inr free ↦ rw free (record { trades = o.trades; next_id = o.next_id })
    ]

OnlyTenants-Writes : (rt : Runtime) (was : Db) → Writes rt (OnlyTenants was) (λ read set. Unit)
unfolding commit save
OnlyTenants-Writes rt was = record {
  by_commit = λ read set spared. record {
    at = λ db. write_row-OnlyTenants was read.id _ db (row_of read.id db.tenants);
  };
  by_create = λ email drawn now. record { at = create_tenant-OnlyTenants rt was email drawn now };
}

module _ (rt : Runtime) (settings : Settings) where
  SparesPlan-any : (t : Tenant) (p : Result Plan) → SparesPlan (λ read set. Unit) t p
  SparesPlan-any t (raised e) = tt
  SparesPlan-any t (ok (reads_on answer)) = tt
  SparesPlan-any t (ok (writes set answer)) = tt

  pub Spares-any : (call : Call) → Spares (λ read set. Unit) rt settings call
  Spares-any call now t = SparesPlan-any t _

  proceed-tenants :
      (call : Call) (now : ℕ) (progress : Progress) (db : Db)
      → record db { tenants = (proceed rt settings call now progress db).1.tenants }
        ≡ (proceed rt settings call now progress db).1
  proceed-tenants call now progress db =
      let after = (proceed rt settings call now progress db).1 in
      let o : OnlyTenants db after =
        proceed-keeps rt settings (OnlyTenants db) (λ read set. Unit) (OnlyTenants-Writes rt db)
          call now progress db (Spares-any call) (record { trades = refl; next_id = refl }) in
      λ i. record { tenants = after.tenants; trades = sym o.trades i; next_id = sym o.next_id i }

  module _ (start : System) where
    added :
        (x : Result (Tenant × TradingViewSignal)) (σ : System)
        → Tasks.Reach rt start σ
        → Tasks.Reach rt start (record σ { tasks = tasks_of x ++ σ.tasks })
    added (ok (tenant, signal)) σ r = Tasks.next r (arrive σ tenant signal)
    added (raised e) σ r = r

    entered :
        (call : Call) (progress : Progress) (db : Db) (σ : System)
        → Tasks.Reach rt start σ
        → Tasks.Reach rt start
            (record σ { tasks = entering rt settings call progress db ++ σ.tasks })
    unfolding entering
    entered (alert webhook_id body) arrived db σ r =
        added (admit rt settings webhook_id body db).0 σ r
    entered (alert webhook_id body) (loaded t) db σ r = r
    entered (alert webhook_id body) (committed id answer) db σ r = r
    entered (alert webhook_id body) (over x) db σ r = r
    entered (alert webhook_id body) handed_over db σ r = r
    entered (newcomer email drawn) progress db σ r = r
    entered (of_customer authorization call) progress db σ r = r
    entered (of_admin key call) progress db σ r = r

    Step-Reach :
        {rules : Rules} {w x : World}
        → Step rt settings rules w x
        → Tasks.Reach rt start w.system
        → Tasks.Reach rt start x.system
    Step-Reach (come w call allowed) r = r
    Step-Reach (handle before p after now σ timely) r =
        let stepped = proceed rt settings p.call now p.progress σ.db in
        let r' = entered p.call p.progress σ.db σ r in
        subst
          (λ (db : Db). Tasks.Reach rt start (record {
            db = db;
            tasks = entering rt settings p.call p.progress σ.db ++ σ.tasks;
            sent = σ.sent;
          }))
          (proceed-tenants p.call now p.progress σ.db) (Tasks.next r' (outside _ stepped.1.tenants))
    Step-Reach (route pending db before task after sent i timely) r =
        Tasks.next r (run db before task after sent i)

  -- The router's part of every state that the whole server reaches, its requests interleaved at
  -- every database call, is a state that the tasks of process_signal reach alone, with outside
  -- writes to the tenants' table.
  pub refines :
      (rules : Rules) (w x : World) → Reach rt settings rules w x → Tasks.Reach rt w.system x.system
  refines rules w x here = Tasks.here
  refines rules w x (next r step) = Step-Reach w.system step (refines rules w _ r)

  -- From any database with no request under way, through any requests of any kind, interleaved at
  -- every database call and every broker call, at most one order of a tenant's signal id goes to
  -- the broker, and none if the log had a row of it at the start.
  pub sends_once :
      (rules : Rules) (db : Db) (w : World) (t s : String)
      → Reach rt settings rules (empty_world db) w
      → sends t s w.system.sent + (if has_row t s db.trades then 1 else 0) ≤ 1
  sends_once rules db w t s r = at_most_once rt db w.system t s (refines rules _ w r)

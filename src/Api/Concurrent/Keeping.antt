-- ===== src/Api/Concurrent/Keeping.antt =====
-- Properties of the database over the steps of the requests of app/main.py.
use dataveda_nifty_agent.Api.Concurrent.{
  Json, Call, newcomer, of_customer, of_admin, alert, Progress, arrived, loaded, committed, over,
  handed_over, Plan, reads_on, writes, after_call, try_plan, admit, open_admin, open_call, plan,
  proceed,
}
use dataveda_nifty_agent.Prelude.{ℕ, String, Option}
use dataveda_nifty_agent.Runtime.{Runtime}
use dataveda_nifty_agent.Storage.Models.{Tenant, Db}
use dataveda_nifty_agent.Storage.Action.{Result, ok, raised, pure, ◌>>=◌}
use dataveda_nifty_agent.Storage.Action.Keeps.{Keeps, keeps_rules}
use dataveda_nifty_agent.Storage.Columns.{commit, refresh}
use dataveda_nifty_agent.Storage.Tenants.{Draws, create_tenant}
use dataveda_nifty_agent.Api.Server.{AdminCall, tenants, grant, revoke, reset}
use dataveda_nifty_agent.Api.Server.Reads.{reads}
use dataveda_nifty_agent.Api.Account
use dataveda_nifty_agent.Api.Admin.{admin_list_tenants}
use dataveda_nifty_agent.Api.Auth.{Settings}

-- A property that a new account and the UPDATEs that are spared keep.
pub record Writes (rt : Runtime) (P : Db → Type 0) (Spared : Tenant → Tenant → Type 0)
    : Type 0 where
  pub by_commit : (was set : Tenant) → Spared was set → Keeps P (commit was set)
  pub by_create :
      (email : String) (drawn : Draws) (now : ℕ) → Keeps P (create_tenant rt email drawn now)

-- The requests whose UPDATEs are all spared.
module _ (Spared : Tenant → Tenant → Type 0) where
  abbrev pub SparesPlan : Tenant → Result Plan → Type 0
  SparesPlan t (ok (writes set answer)) = Spared t set
  SparesPlan t _ = Unit

  abbrev pub Spares : Runtime → Settings → Call → Type 0
  Spares rt settings call = (now : ℕ) (t : Tenant) → SparesPlan t (plan rt settings call now t)

module _ (rt : Runtime) (settings : Settings) (P : Db → Type 0) where
  admit-Keeps : (id : String) (body : Option Json) → Keeps P (admit rt settings id body)
  unfolding admit
  admit-Keeps id body = search reads depth 20

  open_admin-Keeps :
      (key : String) (now : ℕ) (call : AdminCall) → Keeps P (open_admin rt settings key now call)
  unfolding open_admin admin_list_tenants
  open_admin-Keeps key now (tenants limit offset) = search reads depth 10
  open_admin-Keeps key now (grant id days) = search reads depth 20
  open_admin-Keeps key now (revoke id) = search reads depth 10
  open_admin-Keeps key now (reset drawn id) = search reads depth 10

  refresh-Keeps : (id : String) → Keeps P (refresh id)
  unfolding refresh
  refresh-Keeps id = record { at = λ db h. h }

  after_call-keeps : (x : Result Progress × Db) → P x.1 → P (after_call x).1
  after_call-keeps (ok progress, db) h = h
  after_call-keeps (raised e, db) h = h

  module _ (Spared : Tenant → Tenant → Type 0) (w : Writes rt P Spared) where
    open_call-Keeps : (call : Call) (now : ℕ) → Keeps P (open_call rt settings call now)
    unfolding open_call Account.signup
    open_call-Keeps (newcomer email drawn) now = search (reads, w.by_create) depth 10
    open_call-Keeps (of_customer authorization call) now = search reads depth 10
    open_call-Keeps (of_admin key call) now = open_admin-Keeps key now call
    open_call-Keeps (alert webhook_id body) now = search (keeps_rules, admit-Keeps)

    try_plan-keeps :
        (t : Tenant) (p : Result Plan) (db : Db)
        → SparesPlan Spared t p
        → P db
        → P (try_plan t p db).1
    try_plan-keeps t (raised e) db spared h = h
    try_plan-keeps t (ok (reads_on answer)) db spared h = h
    try_plan-keeps t (ok (writes set answer)) db spared h =
        let k : Keeps P (commit t set >>= λ saved. pure (committed t.id answer)) =
          search (keeps_rules, w.by_commit) in
        after_call-keeps _ (k.at db h)

    pub proceed-keeps :
        (call : Call) (now : ℕ) (progress : Progress) (db : Db)
        → Spares Spared rt settings call
        → P db
        → P (proceed rt settings call now progress db).1
    unfolding proceed
    proceed-keeps call now arrived db spared h =
        after_call-keeps _ ((open_call-Keeps call now).at db h)
    proceed-keeps call now (loaded t) db spared h = try_plan-keeps t _ db (spared now t) h
    proceed-keeps call now (committed id answer) db spared h =
        let k : Keeps P (refresh id >>= λ saved. pure (over (ok (answer now saved)))) =
          search (keeps_rules, refresh-Keeps) in
        after_call-keeps _ (k.at db h)
    proceed-keeps call now (over r) db spared h = h
    proceed-keeps call now handed_over db spared h = h

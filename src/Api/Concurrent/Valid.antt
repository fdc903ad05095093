-- ===== src/Api/Concurrent/Valid.antt =====
-- The tables' constraints while the requests of app/main.py interleave.
use dataveda_nifty_agent.Prelude.{refl}
use dataveda_nifty_agent.Runtime.{Runtime}
use dataveda_nifty_agent.Storage.Models.{Db}
use dataveda_nifty_agent.Storage.Columns.{update_columns, commit}
use dataveda_nifty_agent.Api.Auth.{Settings}
use dataveda_nifty_agent.Api.Server.Valid.{
  DbValid, DbValid-IsKept, save-Keeps, create_tenant-Keeps, reserve-Keeps,
}
use dataveda_nifty_agent.Api.Concurrent.Refines.{Spares-any}
use dataveda_nifty_agent.Api.Concurrent.Everywhere.{Everywhere, everywhere, Holds}
use dataveda_nifty_agent.Api.Concurrent.World.{Rules, empty_world, World, Reach}

pub DbValid-Everywhere : (rt : Runtime) → Everywhere rt DbValid (λ was set. Unit)
unfolding commit update_columns
DbValid-Everywhere rt = record {
  accounts = record {
    by_commit = λ was set spared. save-Keeps was.id (update_columns was set) (λ t. refl);
    by_create = create_tenant-Keeps rt;
  };
  by_reserve = λ tenant signal now. reserve-Keeps rt now tenant signal;
  kept = DbValid-IsKept rt;
}

-- From a valid database with no request under way, through any requests, interleaved at every
-- database call and every broker call, so that rows are written that were read before others wrote
-- them: the constraints of both tables hold.
pub world_valid :
    (rt : Runtime) (settings : Settings) (rules : Rules) (db : Db) (w : World)
    → DbValid db
    → Reach rt settings rules (empty_world db) w
    → DbValid w.system.db
world_valid rt settings rules db w v r =
    let h : Holds rt settings DbValid (λ was set. Unit) (DbValid-Everywhere rt) rules _ w =
      everywhere rt settings DbValid (λ was set. Unit) (DbValid-Everywhere rt) rules
        (λ call allowed. Spares-any rt settings call) r (record { stored = v; allowed = tt }) in
    h.stored

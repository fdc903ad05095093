-- ===== src/Api/Concurrent/Stale.antt =====
-- An alert of app/main.py that read its tenant's row before the kill switch was stored.
use dataveda_nifty_agent.Prelude.{String, ◌≡◌, refl, List, [], ◌∷◌}
use dataveda_nifty_agent.Runtime.{Runtime}
use dataveda_nifty_agent.Models.Signal.{TradingViewSignal}
use dataveda_nifty_agent.Models.Order.{OrderRequest}
use dataveda_nifty_agent.Storage.Models.{Tenant, TradeLog, Db}
use dataveda_nifty_agent.Risk.{check_risk}
use dataveda_nifty_agent.Router.{place, decide}
use dataveda_nifty_agent.Router.Tasks.{Task, reserved, Inputs, advance}
use dataveda_nifty_agent.Api.Auth.{Settings}
use dataveda_nifty_agent.Api.Server.Lasting.{IsStopped}
use dataveda_nifty_agent.Api.Concurrent.KillSwitch.{no_release}
use dataveda_nifty_agent.Api.Concurrent.World.{Pending, World, route, routed, Reach, here, next}

module _ (rt : Runtime) (settings : Settings) (tenant : Tenant) (signal : TradingViewSignal)
    (r : TradeLog) (i : Inputs) (db : Db) (pending : List Pending)
    (sent : List (String × String)) where
  -- The alert has reserved its key and stands before its risk check.
  abbrev pub checking : Task
  checking = record { tenant = tenant; signal = signal; stage = reserved r }

  abbrev pub before_check : World
  before_check = record {
    system = record { db = db; tasks = checking ∷ []; sent = sent };
    pending = pending;
  }

  abbrev checked : Task
  checked = record checking { stage = (advance rt tenant signal i (reserved r) db).0 }

  -- Two steps later.
  abbrev after_check : World
  after_check = record { system = routed rt db [] checked [] sent i; pending = pending }

  -- Where an account's kill switch is engaged in the database, but an alert of the account that is
  -- under way is decided as an order by the row that it read before that, its next two steps send
  -- the order, with the kill switch engaged all along.
  pub read_before_switch_sends :
      (webhook_id : String) (order : OrderRequest)
      → IsStopped tenant.id webhook_id db
      → decide tenant signal (check_risk rt i.now i.later tenant signal db) ≡ place order
      → (w : World) × Reach rt settings no_release before_check w
        × (w.system.sent ≡ (tenant.id, signal.signal_id) ∷ sent)
        × IsStopped tenant.id webhook_id w.system.db
  unfolding advance
  read_before_switch_sends webhook_id order stopped e = (
    after_check,
    next (next here (route pending db [] checking [] sent i tt))
        (route pending db [] checked [] sent i tt),
    rw e refl,
    rw e stopped,
  )

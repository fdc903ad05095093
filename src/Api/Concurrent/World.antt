-- ===== src/Api/Concurrent/World.antt =====
-- The server's requests (app/main.py) and the router's tasks (app/services/order_router.py) together.
use dataveda_nifty_agent.Prelude.{ℕ, String, List, [], ◌∷◌, ◌++◌}
use dataveda_nifty_agent.Runtime.{Runtime}
use dataveda_nifty_agent.Storage.Models.{Db}
use dataveda_nifty_agent.Router.Tasks.{Task, Inputs, advance, System, sent_by, idle}
use dataveda_nifty_agent.Api.Auth.{Settings}
use dataveda_nifty_agent.Api.Concurrent.{Call, Progress, arrived, proceed, entering}

-- A request with its place in its handler.
pub record Pending : Type 0 where
  pub call : Call
  pub progress : Progress

-- The whole server: the requests in their handlers, and the router with its tasks and the database.
pub record World : Type 0 where
  pub system : System
  pub pending : List Pending

abbrev pub proceeded :
    Runtime → Settings → List Pending → Pending → List Pending → ℕ → System → World
proceeded rt settings before p after now σ =
    let stepped = proceed rt settings p.call now p.progress σ.db in
    record {
      system = record {
        db = stepped.1;
        tasks = entering rt settings p.call p.progress σ.db ++ σ.tasks;
        sent = σ.sent;
      };
      pending = before ++ record p { progress = stepped.0 } ∷ after;
    }

-- The router after a step of one of its tasks.
abbrev pub routed :
    Runtime → Db → List Task → Task → List Task → List (String × String) → Inputs → System
routed rt db before task after sent i =
    let stepped = advance rt task.tenant task.signal i task.stage db in
    record {
      db = stepped.1;
      tasks = before ++ record task { stage = stepped.0 } ∷ after;
      sent = sent_by task ++ sent;
    }

-- The requests that come in, and the instants at which requests and alerts go on.
pub record Rules : Type 1 where
  pub calls : Call → Type 0
  pub instants : ℕ → Type 0

-- Any request at any instant.
abbrev pub anything : Rules
anything = record { calls = λ call. Unit; instants = λ now. Unit }

-- One step of the server: a request comes in, one of those that the rules tell; a request goes on in
-- its handler; or a task of process_signal makes a step.
pub data Step (rt : Runtime) (settings : Settings) (rules : Rules) : World → World → Type 0 where
  come :
      (w : World) (call : Call)
      → rules.calls call
      → Step rt settings rules w
          (record w { pending = record { call = call; progress = arrived } ∷ w.pending })
  handle :
      (before : List Pending) (p : Pending) (after : List Pending) (now : ℕ) (σ : System)
      → rules.instants now
      → Step rt settings rules
          (record { system = σ; pending = before ++ p ∷ after })
          (proceeded rt settings before p after now σ)
  route :
      (pending : List Pending) (db : Db) (before : List Task) (task : Task) (after : List Task)
      (sent : List (String × String)) (i : Inputs)
      → rules.instants i.now
      → Step rt settings rules
          (record {
            system = record { db = db; tasks = before ++ task ∷ after; sent = sent };
            pending = pending;
          })
          (record { system = routed rt db before task after sent i; pending = pending })

pub data Reach (rt : Runtime) (settings : Settings) (rules : Rules) (start : World)
    : World → Type 0 where
  here : Reach rt settings rules start start
  next :
      {w x : World}
      → Reach rt settings rules start w
      → Step rt settings rules w x
      → Reach rt settings rules start x

-- No request is under way.
abbrev pub empty_world : Db → World
empty_world db = record { system = idle db; pending = [] }

-- ===== src/Startup/Valid.antt =====
-- The server's state from its first start on: app/storage/db.py and app/main.py.
use dataveda_nifty_agent.Prelude.{String, List, Option, none, some}
use dataveda_nifty_agent.Runtime.{Runtime}
use dataveda_nifty_agent.Storage.Models.{Db}
use dataveda_nifty_agent.Api.Auth.{Settings}
use dataveda_nifty_agent.Api.Server.{History, serve}
use dataveda_nifty_agent.Api.Server.Valid.{DbValid, every_history_valid}
use dataveda_nifty_agent.Storage.Credentials.{ResetDraws}
use dataveda_nifty_agent.Api.Concurrent.World.{World, anything, Reach, empty_world}
use dataveda_nifty_agent.Api.Concurrent.Valid.{world_valid}
use dataveda_nifty_agent.Scripts.{main}
use dataveda_nifty_agent.Scripts.Keeping.{main-Keeps}
use dataveda_nifty_agent.Startup.{lifespan, init_models}

-- What the runs of the server leave, from the first one on: each with a history of requests, or with
-- requests that interleave, and the operator's script between them.
pub data IsStored (rt : Runtime) : Option Db → Type 0 where
  nothing : IsStored rt none
  left :
      (stored : Option Db) (settings : Settings) (history : History)
      → IsStored rt stored
      → IsStored rt (some (serve rt settings history (lifespan settings stored).db))
  interleaved :
      (stored : Option Db) (settings : Settings) (w : World)
      → IsStored rt stored
      → Reach rt settings anything (empty_world (lifespan settings stored).db) w
      → IsStored rt (some w.system.db)
  scripted :
      (db : Db) (drawn : ResetDraws) (argv : List String)
      → IsStored rt (some db)
      → IsStored rt (some (main rt drawn argv db).1)

module _ (rt : Runtime) where
  abbrev StoredValid : Option Db → Type 0
  StoredValid none = Unit
  StoredValid (some db) = DbValid db

  init_models-DbValid : (stored : Option Db) → StoredValid stored → DbValid (init_models stored)
  unfolding init_models
  init_models-DbValid none h = record {
    accounts = tt;
    log = record { keys = tt; ids = tt; below = tt; no_pnl = tt };
  }
  init_models-DbValid (some db) h = h

  stored_valid : (stored : Option Db) → IsStored rt stored → StoredValid stored
  unfolding lifespan init_models
  stored_valid stored nothing = tt
  stored_valid stored (left before settings history s) =
      every_history_valid rt settings history _ (init_models-DbValid before (stored_valid before s))
  stored_valid stored (interleaved before settings w s r) =
      world_valid rt settings anything _ w (init_models-DbValid before (stored_valid before s)) r
  stored_valid stored (scripted db drawn argv s) =
      (main-Keeps rt drawn argv).at db (stored_valid (some db) s)

  -- From the first start on an empty database, through any number of runs of the server, each with
  -- any history of requests, where others are handled while a webhook call waits for the agent, or
  -- with any requests interleaved at every database call, with any parameters, keys, clocks, draws
  -- and replies, and through any runs of the operator's script between them, the database is valid
  -- after any further history of requests: the tenants' unique constraints hold, and the log's
  -- keys and ids are unique, its ids lie below the next one and it has no realized PnL.
  pub restart_valid :
      (settings : Settings) (stored : Option Db)
      → IsStored rt stored
      → (history : History) → DbValid (serve rt settings history (lifespan settings stored).db)
  unfolding lifespan
  restart_valid settings stored s history =
      every_history_valid rt settings history _ (init_models-DbValid stored (stored_valid stored s))

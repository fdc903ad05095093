-- ===== src/Tests/StartRuns.antt =====
-- The start of the server.
use dataveda_nifty_agent.Prelude.{String, List, ◌≡◌, refl, true, false, none, some, [], ◌∷◌}
use dataveda_nifty_agent.Python.Text.{after_prefix}
use dataveda_nifty_agent.Api.Auth.{default_settings}
use dataveda_nifty_agent.Api.Server.{serve, kill_switch}
use dataveda_nifty_agent.Api.Server.Valid.{DbValid}
use dataveda_nifty_agent.Startup.{make_engine, parent, lifespan}
use dataveda_nifty_agent.Startup.Valid.{nothing, left, interleaved, scripted, restart_valid}
use dataveda_nifty_agent.Storage.Models.{Db}
use dataveda_nifty_agent.Storage.Credentials.{ResetDraws}
use dataveda_nifty_agent.Router.Tasks.{idle}
use dataveda_nifty_agent.Scripts.{main}
use dataveda_nifty_agent.Api.Concurrent.{of_customer, arrived}
use dataveda_nifty_agent.Api.Concurrent.World.{
  World, anything, Reach, here, next, come, handle, proceeded, empty_world,
}
use dataveda_nifty_agent.Tests.Data.{rt}
use dataveda_nifty_agent.Tests.HistoryRuns.{keyed, history}

default_directory :
    make_engine default_settings.database_url
    ≡ some (record { absolute = false; parts = "data" ∷ [] })
unfolding make_engine parent after_prefix
default_directory = refl

absolute_directory :
    make_engine "sqlite+aiosqlite:////srv/./bridge/tenants.db"
    ≡ some (record { absolute = true; parts = "srv" ∷ "bridge" ∷ [] })
unfolding make_engine parent after_prefix
absolute_directory = refl

in_memory : make_engine "sqlite+aiosqlite:///:memory:" ≡ none
unfolding make_engine after_prefix
in_memory = refl

other_database : make_engine "postgresql+asyncpg://host/db" ≡ none
unfolding make_engine
other_database = refl

-- A first run with some requests, a run in which one request interleaves with nothing, a reset by the
-- operator, and a restart.
abbrev first_run : Db
first_run = serve rt keyed history (lifespan keyed none).db

abbrev second_run : World
second_run =
    proceeded rt keyed []
      (record { call = of_customer "Bearer sk_live_2" (kill_switch true ""); progress = arrived })
      [] 50 (idle (lifespan keyed (some first_run)).db)

second_run-Reach :
    Reach rt keyed anything (empty_world (lifespan keyed (some first_run)).db) second_run
second_run-Reach = next (next here (come _ _ tt)) (handle [] _ [] 50 _ tt)

abbrev reset_argv : List String
reset_argv = "reset_tenant_credentials.py" ∷ "b@example.org" ∷ []

abbrev by_script : ResetDraws
by_script = record { api_key = "3"; webhook_passphrase = "3"; agent_token = "3" }

restart_valid_example : DbValid (
    serve rt keyed history
      (lifespan keyed (some (main rt by_script reset_argv second_run.system.db).1)).db)
restart_valid_example =
    restart_valid rt keyed (some (main rt by_script reset_argv second_run.system.db).1)
      (scripted second_run.system.db by_script reset_argv (
        interleaved (some first_run) keyed second_run (left none keyed history nothing)
          second_run-Reach))
      history

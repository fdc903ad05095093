-- ===== src/Startup.antt =====
-- app/storage/db.py and the lifespan of app/main.py: what the server does before its first request.
-- Paths are POSIX paths, as in the server's container.
pub mod Valid
use Prim.Native.String.{[], ◌∷◌}
use text.Mathlib.Text.{find?}
use dataveda_nifty_agent.Prelude.{
  ℕ, zero, suc, String, ◌+s◌, Bool, true, false, ◌||◌, Option, none, some, List, str_eq,
  if◌then◌else◌,
}
use dataveda_nifty_agent.Prelude
use dataveda_nifty_agent.Python.Text.{after_prefix}
use dataveda_nifty_agent.Storage.Models.{Db}
use dataveda_nifty_agent.Ws.Manager.{Manager, new_manager}
use dataveda_nifty_agent.Api.Auth.{Settings}

-- Where a scan from the left stands: the characters of a separator to pass over, and the last part.
abbrev at_char : ℕ → String → Option String → ℕ × String
at_char (suc k) last found = (k, last)
at_char zero last none = (zero, last)
at_char zero last (some rest) = (2, rest)

-- url.split("///")[-1]
abbrev last_part_from : ℕ → String → String → String
last_part_from skip last [] = last
last_part_from skip last (c ∷ s) =
    let (k, part) = at_char skip last (after_prefix "///" (c ∷ s)) in last_part_from k part s

abbrev last_part : String → String
last_part url = last_part_from 0 url url

-- A directory: its path from the root or from the working directory.
pub record Directory : Type 0 where
  pub absolute : Bool
  pub parts : List String

-- An empty part and "." are left out of a Path.
abbrev with_part : String → List String → List String
with_part part rest = if str_eq part "" || str_eq part "." then rest else Prelude.◌∷◌ part rest

abbrev parts_from : String → String → List String
parts_from part [] = with_part part Prelude.[]
parts_from part (c ∷ s) =
    let slash = str_eq (c ∷ []) "/" in
    let rest = parts_from (if slash then "" else part +s (c ∷ [])) s in
    if slash then with_part part rest else rest

abbrev without_last : List String → List String
without_last Prelude.[] = Prelude.[]
without_last (Prelude.◌∷◌ part Prelude.[]) = Prelude.[]
without_last (Prelude.◌∷◌ part (Prelude.◌∷◌ next rest)) =
    Prelude.◌∷◌ part (without_last (Prelude.◌∷◌ next rest))

abbrev is_absolute : Option String → Bool
is_absolute none = false
is_absolute (some rest) = true

-- Path(path).parent
unfoldable pub parent : String → Directory
unfolding after_prefix
parent path = record {
  absolute = is_absolute (after_prefix "/" path);
  parts = without_last (parts_from "" path);
}

abbrev file_directory : String → Option ℕ → Option Directory
file_directory path none = none
file_directory path (some i) = if str_eq path ":memory:" then none else some (parent path)

-- The directory that make_engine creates, if the database is an SQLite file.
unfoldable pub make_engine : String → Option Directory
unfolding parent
make_engine database_url = file_directory (last_part database_url) (find? database_url "sqlite")

-- create_all makes the tables that are not there yet; `none` is a database without them.
unfoldable pub init_models : Option Db → Db
init_models none = record { tenants = Prelude.[]; trades = Prelude.[]; next_id = 1 }
init_models (some db) = db

-- app.state, and the directory made on the way.
pub record Started : Type 0 where
  pub settings : Settings
  pub made : Option Directory
  pub db : Db
  pub ws_manager : Manager

unfoldable pub lifespan : Settings → Option Db → Started
unfolding make_engine init_models
lifespan settings stored = record {
  settings = settings;
  made = make_engine settings.database_url;
  db = init_models stored;
  ws_manager = new_manager;
}

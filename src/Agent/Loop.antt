-- ===== src/Agent/Loop.antt =====
-- bridge_agent/agent.py: the reconnecting loop of `run`, by what happens to its connections.
use dataveda_nifty_agent.Prelude.{ℕ, ◌*◌, String, ◌+s◌, Option, none, some, List, [], ◌∷◌, min}
use text.Mathlib.Text.{find?}

-- f"{server_url}{separator}token={token}"
abbrev separator : Option ℕ → String
separator none = "?"
separator (some i) = "&"

unfoldable pub connect_url : String → String → String
connect_url server_url token = server_url +s separator (find? server_url "?") +s "token=" +s token

-- The connection is up; an attempt or a connection ended in ConnectionClosed or OSError; the server
-- closed the connection in order, which ends `async for` without an exception.
pub data Event : Type 0 where
  connected lost closed : Event

abbrev pub first_backoff : ℕ
first_backoff = 2

abbrev pub max_backoff : ℕ
max_backoff = 30

-- The backoff after an event, and the sleep that the event causes.
unfoldable pub on_event : ℕ → Event → ℕ × Option ℕ
on_event backoff connected = (first_backoff, none)
on_event backoff closed = (backoff, none)
on_event backoff lost = (min (backoff * 2) max_backoff, some backoff)

abbrev slept : Option ℕ → List ℕ → List ℕ
slept none delays = delays
slept (some n) delays = n ∷ delays

-- The sleeps of a history of events.
unfoldable pub delays : ℕ → List Event → List ℕ
unfolding on_event
delays backoff [] = []
delays backoff (e ∷ es) = let (next, sleep) = on_event backoff e in slept sleep (delays next es)

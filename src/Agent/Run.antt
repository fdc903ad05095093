-- ===== src/Agent/Run.antt =====
-- bridge_agent/agent.py: `run`, from its connection's events and frames to what it asks of the terminal,
-- what it sends and how long it sleeps.
use dataveda_nifty_agent.Prelude.{ℕ, Bool, true, false, Option, none, some, List, [], ◌∷◌, ◌++◌}
use dataveda_nifty_agent.Python.Json.{Json, obj, Fields}
use dataveda_nifty_agent.Agent.Client.{Terminal, Mt5Client, Mt5Request}
use dataveda_nifty_agent.Agent.Frames.{Handled, ignored, replied, crashed, on_frame}
use dataveda_nifty_agent.Agent.Loop.{Event, lost, first_backoff, on_event}

-- What `run` meets: an event of the connection, or a frame (`none` where it is not JSON), with what
-- the terminal answers by then and whether a reply gets out before the connection is lost.
pub data Happening : Type 0 where
  event : Event → Happening
  frame : Terminal → Option Json → (sent : Bool) → Happening

pub data Effect : Type 0 where
  ask : Mt5Request → Effect
  reply : Fields → Effect
  sleep : ℕ → Effect

-- The loop with its client and its backoff; an exception that it does not catch ends it.
pub data Agent : Type 0 where
  running : Mt5Client → (backoff : ℕ) → Agent
  stopped : Agent

abbrev pub sleeps : Option ℕ → List Effect
sleeps none = []
sleeps (some n) = sleep n ∷ []

abbrev pub asks : List Mt5Request → List Effect
asks [] = []
asks (r ∷ rs) = ask r ∷ asks rs

abbrev pub on_handled : Mt5Client → ℕ → Bool → Option Handled → Agent × List Effect
on_handled c backoff sent none = (stopped, [])
on_handled c backoff sent (some ignored) = (running c backoff, [])
on_handled c backoff true (some (replied c' requests message)) =
    (running c' backoff, asks requests ++ reply message ∷ [])
on_handled c backoff false (some (replied c' requests message)) =
    (running c' (on_event backoff lost).0, asks requests ++ sleeps (on_event backoff lost).1)
on_handled c backoff sent (some (crashed requests)) = (stopped, asks requests)

unfoldable pub step : Agent → Happening → Agent × List Effect
step stopped h = (stopped, [])
step (running c backoff) (event e) =
    (running c (on_event backoff e).0, sleeps (on_event backoff e).1)
step (running c backoff) (frame mt5 (some (obj message)) sent) =
    on_handled c backoff sent (on_frame mt5 c message)
step (running c backoff) (frame mt5 other sent) = (stopped, [])

unfoldable pub run : Agent → List Happening → Agent × List Effect
run a [] = (a, [])
run a (h ∷ hs) =
    let (next, effects) = step a h in let (last, rest) = run next hs in (last, effects ++ rest)

abbrev pub start : Mt5Client → Agent
start c = running c first_backoff

-- ===== src/Agent/Reconnect.antt =====
-- bridge_agent/agent.py: the loop of `run` after connections are lost.
use dataveda_nifty_agent.Prelude.{ℕ, ◌≡◌, refl, ap, true, some, List, [], ◌∷◌, ◌++◌, map, min, ◌*◌}
use mathlib.Core.List.{append-nil}
use dataveda_nifty_agent.Python.Json.{Fields, obj}
use dataveda_nifty_agent.Agent.Client.{Terminal, Mt5Client, Mt5Request}
use dataveda_nifty_agent.Agent.Frames.{replied, on_frame}
use dataveda_nifty_agent.Agent.Loop.{
  Event, connected, lost, closed, first_backoff, max_backoff, delays, on_event,
}
use dataveda_nifty_agent.Agent.Run.{
  Happening, event, frame, Effect, reply, sleep, Agent, running, asks, step, run,
}

module _ (mt5 : Terminal) (c : Mt5Client) where
  -- Events of the connection, then the connection and one order.
  abbrev pub outage : List Event → Fields → List Happening
  outage [] message = event connected ∷ frame mt5 (some (obj message)) true ∷ []
  outage (e ∷ es) message = event e ∷ outage es message

  -- After any series of connections, losses and orderly ends, however long, the agent still runs:
  -- once it is connected again an order message that it can handle gets its requests and its
  -- reply, and until then the agent has slept the backoffs and done nothing else.
  pub comes_back :
      (backoff : ℕ) (es : List Event) (message reply_message : Fields) (c' : Mt5Client)
      (requests : List Mt5Request)
      → on_frame mt5 c message ≡ some (replied c' requests reply_message)
      → run (running c backoff) (outage es message) ≡ (
        running c' first_backoff,
        map sleep (delays backoff es) ++ asks requests ++ reply reply_message ∷ [],
      )
  unfolding run step delays on_event
  comes_back backoff [] message reply_message c' requests h = rw (h, append-nil) refl
  comes_back backoff (connected ∷ es) message reply_message c' requests h =
      comes_back first_backoff es message reply_message c' requests h
  comes_back backoff (closed ∷ es) message reply_message c' requests h =
      comes_back backoff es message reply_message c' requests h
  comes_back backoff (lost ∷ es) message reply_message c' requests h =
      ap (λ (x : Agent × List Effect). (x.0, sleep backoff ∷ x.1))
        (comes_back (min (backoff * 2) max_backoff) es message reply_message c' requests h)

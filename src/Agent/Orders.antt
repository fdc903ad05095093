-- ===== src/Agent/Orders.antt =====
-- bridge_agent/agent.py: the requests of `run` to the terminal against the orders that came in.
use mathlib.Core.List.{append-nil}
use dataveda_nifty_agent.Prelude.{
  ℕ, ◌≡◌, refl, ap, ◌⊎◌, inl, inr, Bool, true, false, Option, none, some, List, [], ◌∷◌, ◌++◌,
  arith, Option-cases, Bool-cases,
}
use dataveda_nifty_agent.Python.Json.{Json, obj, Fields, get_field}
use dataveda_nifty_agent.Agent.Client.{
  Terminal, Mt5Client, Mt5Request, OrderArgs, Answer, place_order,
}
use dataveda_nifty_agent.Agent.Frames.{
  Handled, ignored, replied, crashed, on_frame, read_order, is_place_order, reply_to,
}
use dataveda_nifty_agent.Agent.Loop.{on_event}
use dataveda_nifty_agent.Agent.Requests.{IsRequestFor, Outcome, place_order-Outcome}
use dataveda_nifty_agent.Agent.Run.{
  Happening, event, frame, Effect, ask, reply, sleep, Agent, running, stopped, sleeps, asks,
  on_handled, step, run,
}

abbrev pub requests_of : List Effect → List Mt5Request
requests_of [] = []
requests_of (ask r ∷ es) = r ∷ requests_of es
requests_of (reply message ∷ es) = requests_of es
requests_of (sleep n ∷ es) = requests_of es

requests_of-append :
    (xs ys : List Effect) → requests_of (xs ++ ys) ≡ requests_of xs ++ requests_of ys
requests_of-append [] ys = refl
requests_of-append (ask r ∷ xs) ys =
    ap (λ (rest : List Mt5Request). r ∷ rest) (requests_of-append xs ys)
requests_of-append (reply message ∷ xs) ys = requests_of-append xs ys
requests_of-append (sleep n ∷ xs) ys = requests_of-append xs ys

requests_of-asks : (rs : List Mt5Request) → requests_of (asks rs) ≡ rs
requests_of-asks [] = refl
requests_of-asks (r ∷ rs) = ap (λ (rest : List Mt5Request). r ∷ rest) (requests_of-asks rs)

requests_of-sleeps : (o : Option ℕ) → requests_of (sleeps o) ≡ []
requests_of-sleeps none = refl
requests_of-sleeps (some n) = refl

-- The JSON objects that came in, each with the terminal of that time.
abbrev pub received : List Happening → List (Terminal × Fields)
received [] = []
received (frame mt5 (some (obj message)) sent ∷ hs) = (mt5, message) ∷ received hs
received (h ∷ hs) = received hs

abbrev requests_in : Option Handled → List Mt5Request
requests_in none = []
requests_in (some ignored) = []
requests_in (some (replied c requests message)) = requests
requests_in (some (crashed requests)) = requests

on_handled-requests :
    (c : Mt5Client) (backoff : ℕ) (sent : Bool) (x : Option Handled)
    → requests_of (on_handled c backoff sent x).1 ≡ requests_in x
on_handled-requests c backoff sent none = refl
on_handled-requests c backoff sent (some ignored) = refl
on_handled-requests c backoff true (some (replied c' requests message)) =
    rw (requests_of-append, requests_of-asks, append-nil) refl
on_handled-requests c backoff false (some (replied c' requests message)) =
    rw (requests_of-append, requests_of-asks, requests_of-sleeps, append-nil) refl
on_handled-requests c backoff sent (some (crashed requests)) = requests_of-asks requests

module _ (mt5 : Terminal) where
  -- The request of an order message.
  pub record IsOrder (message : Fields) (r : Mt5Request) : Type 0 where
    pub args : OrderArgs
    pub type : is_place_order (get_field "type" message) ≡ true
    pub read : read_order message ≡ some args
    pub request : IsRequestFor mt5 args r

  abbrev OneRequest : Fields → List Mt5Request → Type 0
  OneRequest m rs = (rs ≡ []) ⊎ ((r : Mt5Request) × (rs ≡ r ∷ []) × IsOrder m r)

  reply_to-none : (id : Option Json) → requests_in (reply_to id none) ≡ []
  reply_to-none none = refl
  reply_to-none (some id) = refl

  reply_to-requests :
      (id : Option Json) (c : Mt5Client) (answer : Answer) (requests : List Mt5Request)
      → requests_in (reply_to id (some (c, answer, requests))) ≡ requests
  reply_to-requests none c answer requests = refl
  reply_to-requests (some id) c answer requests = refl

  abbrev placed : Mt5Client → Option Json → Option OrderArgs → Option Handled
  placed c id none = none
  placed c id (some args) = reply_to id (place_order mt5 args c)

  on_frame-placed :
      (c : Mt5Client) (m : Fields)
      → is_place_order (get_field "type" m) ≡ true
      → on_frame mt5 c m ≡ placed c (get_field "request_id" m) (read_order m)
  unfolding on_frame
  on_frame-placed c m t = ground arith

  on_frame-ignored :
      (c : Mt5Client) (m : Fields)
      → is_place_order (get_field "type" m) ≡ false
      → on_frame mt5 c m ≡ some ignored
  unfolding on_frame
  on_frame-ignored c m t = rw t refl

  Outcome-OneRequest :
      (m : Fields) (args : OrderArgs) (answer : Answer) (requests : List Mt5Request)
      → is_place_order (get_field "type" m) ≡ true
      → read_order m ≡ some args
      → Outcome mt5 args answer requests
      → OneRequest m requests
  Outcome-OneRequest m args answer requests t e (inl (nothing, h)) = inl nothing
  Outcome-OneRequest m args answer requests t e (inr (r, one, request, h)) =
      inr (r, one, record { args = args; type = t; read = e; request = request })

  placed-OneRequest :
      (c : Mt5Client) (m : Fields) (args : OrderArgs) (id : Option Json)
      → is_place_order (get_field "type" m) ≡ true
      → read_order m ≡ some args
      → OneRequest m (requests_in (reply_to id (place_order mt5 args c)))
  placed-OneRequest c m args id t e = elim (Option-cases (place_order mt5 args c)) [
    | inl raises ↦ rw raises (inl (reply_to-none id))
    | inr ((c', answer, requests), p) ↦
        rw (p, reply_to-requests id c' answer requests)
          (Outcome-OneRequest m args answer requests t e
            (place_order-Outcome mt5 args c c' answer requests p))
  ]

  on_frame-requests : (c : Mt5Client) (m : Fields) → OneRequest m (requests_in (on_frame mt5 c m))
  on_frame-requests c m = elim (Bool-cases (is_place_order (get_field "type" m))) [
    | inr other ↦ rw (on_frame-ignored c m other) (inl refl)
    | inl t ↦ rw (on_frame-placed c m t) (elim (Option-cases (read_order m)) [
      | inl unread ↦ rw unread (inl refl)
      | inr (args, e) ↦ rw e (placed-OneRequest c m args (get_field "request_id" m) t e)
    ])
  ]

-- At most one request for each message, in the messages' order.
abbrev pub Matches : List Mt5Request → List (Terminal × Fields) → Type 0
Matches rs [] = rs ≡ []
Matches rs ((mt5, m) ∷ ms) =
    Matches rs ms
    ⊎ ((r : Mt5Request) × (rest : List Mt5Request) × (rs ≡ r ∷ rest)
        × IsOrder mt5 m r
        × Matches rest ms)

no_requests-Matches : (ms : List (Terminal × Fields)) → Matches [] ms
no_requests-Matches [] = refl
no_requests-Matches (m ∷ ms) = inl (no_requests-Matches ms)

run-stopped : (hs : List Happening) → requests_of (run stopped hs).1 ≡ []
unfolding run step
run-stopped [] = refl
run-stopped (h ∷ hs) = run-stopped hs

Matches-one :
    (mt5 : Terminal) (m : Fields) (ms : List (Terminal × Fields)) (now later : List Mt5Request)
    → OneRequest mt5 m now
    → Matches later ms
    → Matches (now ++ later) ((mt5, m) ∷ ms)
Matches-one mt5 m ms now later (inl none_now) h = inl (rw none_now h)
Matches-one mt5 m ms now later (inr (r, one, order)) h = inr (r, later, rw one refl, order, h)

-- In any run of the agent's loop the requests to the terminal are, in their order, those of some
-- of the order messages that came in: a message leads to one request at most, which is that of the
-- order in it, also where the reply is lost with the connection.
pub run-Matches :
    (a : Agent) (hs : List Happening) → Matches (requests_of (run a hs).1) (received hs)
unfolding run step
run-Matches a [] = refl
run-Matches stopped (h ∷ hs) = rw (run-stopped (h ∷ hs)) (no_requests-Matches (received (h ∷ hs)))
run-Matches (running c backoff) (event e ∷ hs) =
    rw (requests_of-append, requests_of-sleeps) (run-Matches (running c (on_event backoff e).0) hs)
run-Matches (running c backoff) (frame mt5 (some (obj m)) sent ∷ hs) =
    rw (requests_of-append, on_handled-requests)
      (Matches-one mt5 m (received hs) _ _ (on_frame-requests mt5 c m)
        (run-Matches (on_handled c backoff sent (on_frame mt5 c m)).0 hs))
run-Matches (running c backoff) (frame mt5 other sent ∷ hs) = run-Matches stopped hs

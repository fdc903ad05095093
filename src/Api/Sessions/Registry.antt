-- ===== src/Api/Sessions/Registry.antt =====
-- Which sockets the manager sends to, over the sessions of the agents.
use mathlib.Core.Option.{some-injective}
use mathlib.Core.Path.{sym, ap, ◌∙◌}
use dataveda_nifty_agent.Prelude.{
  ap, ℕ, String, ◌≡◌, refl, true, false, not, Option, none, some, List, [], ◌∷◌, arith, any, keep,
  ◌==◌, str_eq, eq_iff, eq_refl,
}
use dataveda_nifty_agent.Python.Json.{
  Json, Fields, null, boolean, int, float, str, arr, obj, get_field,
}
use dataveda_nifty_agent.Python.Dict.{Dict, get, put, pop, get-put, get-pop}
use dataveda_nifty_agent.Ws.Manager.{
  Manager, new_manager, connect, disconnect, is_connected, resolve, resolve_at,
}
use dataveda_nifty_agent.Api.Sessions.{
  Hub, join, leave, receive, on_message, is_session, resolve_message,
}

pub data Event : Type 0 where
  joins : (websocket : ℕ) → (tenant_id : String) → Event
  leaves : (websocket : ℕ) → (tenant_id : String) → Event
  receives : (websocket : ℕ) → (tenant_id : String) → Json → Event

unfoldable pub happen : Hub → Event → Hub
happen hub (joins ws t) = join ws t hub
happen hub (leaves ws t) = leave ws t hub
happen hub (receives ws t message) = receive ws t message hub

unfoldable pub history : Hub → List Event → Hub
history hub [] = hub
history hub (e ∷ es) = history (happen hub e) es

abbrev pub new_hub : Hub
new_hub = record { manager = new_manager; sockets = [] }

-- A tenant's registered socket is one whose session runs.
abbrev pub Registered : Hub → Type 0
Registered hub =
    (t : String) (ws : ℕ)
    → get t hub.manager.connections ≡ some ws
    → any (is_session ws t) hub.sockets ≡ true

-- The end of a session takes no other session away.
keep_sessions :
    (ws ws' : ℕ) (t t' : String) (sockets : List (ℕ × String))
    → str_eq t' t ≡ false
    → any (is_session ws' t') sockets ≡ true
    → any (is_session ws' t') (keep (λ s. not (is_session ws t s)) sockets) ≡ true
keep_sessions ws ws' t t' [] ne h = h
keep_sessions ws ws' t t' ((w, u) ∷ sockets) ne h =
    ground (arith, keep_sessions ws ws' t t' sockets ne, eq_iff u t, eq_iff u t', eq_refl t)

join-Registered : (ws : ℕ) (t : String) (hub : Hub) → Registered hub → Registered (join ws t hub)
unfolding join connect
join-Registered ws t hub h t' ws' e =
    ground (arith, get-put t t' ws hub.manager.connections, h t' ws', eq_iff t' t, eq_refl t)

-- What is left after a `pop` was there, under another key.
pop-some :
    (t t' : String) (ws : ℕ) (d : Dict ℕ)
    → get t' (pop t d) ≡ some ws
    → (str_eq t' t ≡ false) × (get t' d ≡ some ws)
pop-some t t' ws d e = ground (arith, get-pop t t' d)

leave-Registered : (ws : ℕ) (t : String) (hub : Hub) → Registered hub → Registered (leave ws t hub)
unfolding leave disconnect
leave-Registered ws t hub h t' ws' e =
    let there = pop-some t t' ws' hub.manager.connections e in
    keep_sessions ws ws' t t' hub.sockets there.0 (h t' ws' there.1)

resolve_at-connections :
    (fields : Fields) (m : Manager) (f : Option ℕ)
    → (resolve_at fields m f).connections ≡ m.connections
resolve_at-connections fields m none = refl
resolve_at-connections fields m (some f) = refl

resolved :
    (fields : Fields) (id : Option Json) (m m' : Manager)
    → resolve_message fields id m ≡ some m'
    → m'.connections ≡ m.connections
unfolding resolve
resolved fields none m m' e = cc
resolved fields (some (str r)) m m' e =
    ap (λ (x : Manager). x.connections) (some-injective _ _ (sym e))
    ∙ resolve_at-connections fields m (get r m.pending)
resolved fields (some (arr xs)) m m' e = cc
resolved fields (some (obj fs)) m m' e = cc
resolved fields (some null) m m' e =
    ap (λ (x : Manager). x.connections) (some-injective _ _ (sym e))
resolved fields (some (boolean b)) m m' e =
    ap (λ (x : Manager). x.connections) (some-injective _ _ (sym e))
resolved fields (some (int n)) m m' e =
    ap (λ (x : Manager). x.connections) (some-injective _ _ (sym e))
resolved fields (some (float x)) m m' e =
    ap (λ (x : Manager). x.connections) (some-injective _ _ (sym e))

-- No message changes the connections.
on_message-connections :
    (message : Json) (m m' : Manager)
    → on_message message m ≡ some m'
    → m'.connections ≡ m.connections
unfolding on_message
on_message-connections (obj fields) m m' e =
    ground (arith, resolved fields (get_field "request_id" fields) m m')
on_message-connections null m m' e = cc
on_message-connections (boolean b) m m' e = cc
on_message-connections (int n) m m' e = cc
on_message-connections (float x) m m' e = cc
on_message-connections (str s) m m' e = cc
on_message-connections (arr xs) m m' e = cc

received :
    (ws : ℕ) (t : String) (hub : Hub) (o : Option Manager)
    → ((m : Manager) → o ≡ some m → m.connections ≡ hub.manager.connections)
    → Registered hub
    → Registered (elim o [ none ↦ leave ws t hub | some m ↦ record hub { manager = m } ])
received ws t hub none k h = leave-Registered ws t hub h
received ws t hub (some m) k h = λ t' ws' e. h t' ws' (rw (← k m refl) e)

receive-Registered :
    (ws : ℕ) (t : String) (message : Json) (hub : Hub)
    → Registered hub
    → Registered (receive ws t message hub)
unfolding receive
receive-Registered ws t message hub h =
    received ws t hub (on_message message hub.manager) (on_message-connections message hub.manager)
      h

history-Registered : (hub : Hub) (es : List Event) → Registered hub → Registered (history hub es)
unfolding history happen
history-Registered hub [] h = h
history-Registered hub (joins ws t ∷ es) h =
    history-Registered (join ws t hub) es (join-Registered ws t hub h)
history-Registered hub (leaves ws t ∷ es) h =
    history-Registered (leave ws t hub) es (leave-Registered ws t hub h)
history-Registered hub (receives ws t message ∷ es) h =
    history-Registered (receive ws t message hub) es (receive-Registered ws t message hub h)

-- Through every history of joins, messages and ends of sessions, the socket that a tenant's orders
-- go to is one whose session runs for that tenant.
pub registered_is_open :
    (es : List Event) (t : String) (ws : ℕ)
    → get t (history new_hub es).manager.connections ≡ some ws
    → any (is_session ws t) (history new_hub es).sockets ≡ true
unfolding get
registered_is_open es t ws e = history-Registered new_hub es (λ t' ws' h. ground arith) t ws e

-- Where a tenant's agent has joined on a new socket before its old session ends, the end of the
-- old session leaves the tenant unconnected while the new session runs.
pub stale_leave_unregisters :
    (old new : ℕ) (t : String) (hub : Hub)
    → (new == old) ≡ false
    → let hub' = leave old t (join new t (join old t hub)) in
      (is_connected t hub'.manager ≡ false) × (any (is_session new t) hub'.sockets ≡ true)
unfolding leave join connect disconnect is_connected
stale_leave_unregisters old new t hub ne = (
  ground (arith, get-pop t t (put t new (put t old hub.manager.connections)), eq_refl t),
  ground (arith, eq_refl t),
)

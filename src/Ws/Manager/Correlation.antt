-- ===== src/Ws/Manager/Correlation.antt =====
-- One request of app/ws/manager.py through the calls of other tasks.
use dataveda_nifty_agent.Prelude.{
  ℕ, String, ◌≡◌, refl, ◌≢◌, false, Option, none, some, List, [], ◌∷◌, arith, All, length,
  get_elem?, set, get_elem?-set_self, get_elem?-set_ne, get_elem?-append, get_elem?-length,
  lt_length, str_eq, eq_iff, eq_refl,
}
use mathlib.Core.Path.{subst}
use mathlib.Core.Option.{some-injective}
use native.Mathlib.Decide.{ℕ_discrete}
use dataveda_nifty_agent.Python.Json.{Fields}
use dataveda_nifty_agent.Python.Dict.{get, get-put, get-pop}
use dataveda_nifty_agent.Ws.Manager.{
  Future, waiting, finished, Manager, connect, disconnect, open_request, open_on, resolve,
  resolve_at, set_result, poll, cancel, expire, close_request,
}
use dataveda_nifty_agent.Ws.Manager.Requests.{
  ManagerValid, Call, connects, disconnects, opens, resolves, deadline, closes, apply, run,
  apply-ManagerValid, opened,
}

-- A future that has a result keeps it.
module _ (f : ℕ) (result : Fields) where
  abbrev IsFinished : Manager → Type 0
  IsFinished m = get_elem? m.futures f ≡ some (finished result)

  set-IsFinished :
      (fs : List Future) (g : ℕ) (v : Option Future → Future)
      → v (some (finished result)) ≡ finished result
      → get_elem? fs f ≡ some (finished result)
      → get_elem? (set fs g (v (get_elem? fs g))) f ≡ some (finished result)
  set-IsFinished fs g v keeps h = elim (ℕ_discrete g f) [
    | yes same ↦ rw same (
        rw h (
          rw keeps
            (get_elem?-set_self fs f (finished result) (lt_length fs f (finished result) h))))
    | no other ↦ rw (get_elem?-set_ne fs g f _ other) h
  ]

  open-IsFinished :
      (r : String) (m : Manager) (socket : Option ℕ)
      → IsFinished m
      → IsFinished (opened m (open_on r m socket))
  open-IsFinished r m none h = h
  open-IsFinished r m (some ws) h = get_elem?-append m.futures (waiting ∷ []) f (finished result) h

  resolve-IsFinished :
      (x : Fields) (m : Manager) (g : Option ℕ) → IsFinished m → IsFinished (resolve_at x m g)
  unfolding set_result
  resolve-IsFinished x m none h = h
  resolve-IsFinished x m (some g) h = set-IsFinished m.futures g (set_result x) refl h

  apply-IsFinished : (m : Manager) (c : Call) → IsFinished m → IsFinished (apply m c)
  unfolding apply connect disconnect open_request resolve expire close_request cancel
  apply-IsFinished m (connects t ws) h = h
  apply-IsFinished m (disconnects t) h = h
  apply-IsFinished m (opens t r) h = open-IsFinished r m (get t m.connections) h
  apply-IsFinished m (resolves r x) h = resolve-IsFinished x m (get r m.pending) h
  apply-IsFinished m (deadline g) h = set-IsFinished m.futures g cancel refl h
  apply-IsFinished m (closes r) h = h

  run-IsFinished : (m : Manager) (cs : List Call) → IsFinished m → IsFinished (run m cs)
  unfolding run
  run-IsFinished m [] h = h
  run-IsFinished m (c ∷ cs) h = run-IsFinished (apply m c) cs (apply-IsFinished m c h)

-- The request `r` waits on the future `f`.
pub record Waits (r : String) (f : ℕ) (m : Manager) : Type 0 where
  pub valid : ManagerValid m
  pub pending : get r m.pending ≡ some f
  pub unanswered : get_elem? m.futures f ≡ some waiting

-- A call about other requests: not one of this id, nor the deadline of its future.
abbrev pub IsOther : String → ℕ → Call → Type 0
IsOther r f (connects t ws) = Unit
IsOther r f (disconnects t) = Unit
IsOther r f (opens t r') = str_eq r r' ≡ false
IsOther r f (resolves r' x) = str_eq r r' ≡ false
IsOther r f (deadline g) = g ≢ f
IsOther r f (closes r') = str_eq r' r ≡ false

module _ (r : String) (f : ℕ) where
  set-unanswered :
      (fs : List Future) (g : ℕ) (v : Future)
      → g ≢ f
      → get_elem? fs f ≡ some waiting
      → get_elem? (set fs g v) f ≡ some waiting
  set-unanswered fs g v ne h = rw (get_elem?-set_ne fs g f v ne) h

  open-Waits :
      (r' : String) (m : Manager) (socket : Option ℕ)
      → str_eq r r' ≡ false
      → ManagerValid (opened m (open_on r' m socket))
      → Waits r f m
      → Waits r f (opened m (open_on r' m socket))
  open-Waits r' m none ne v w = w
  open-Waits r' m (some ws) ne v w = record {
    valid = v;
    pending = ground (arith, get-put r' r (length m.futures) m.pending, w.pending);
    unanswered = get_elem?-append m.futures (waiting ∷ []) f waiting w.unanswered;
  }

  resolve-Waits :
      (r' : String) (x : Fields) (m : Manager) (g : Option ℕ)
      → get r' m.pending ≡ g
      → str_eq r r' ≡ false
      → ManagerValid (resolve_at x m g)
      → Waits r f m
      → Waits r f (resolve_at x m g)
  resolve-Waits r' x m none e ne v w = w
  resolve-Waits r' x m (some g) e ne v w = record {
    valid = v;
    pending = w.pending;
    unanswered =
        set-unanswered m.futures g (set_result x (get_elem? m.futures g))
          (λ same. ground (arith, eq_iff r r', w.valid.injective r r' f w.pending (rw (← same) e)))
          w.unanswered;
  }

  step-Waits :
      (m : Manager) (c : Call)
      → IsOther r f c
      → ManagerValid (apply m c)
      → Waits r f m
      → Waits r f (apply m c)
  unfolding apply connect disconnect open_request resolve expire close_request
  step-Waits m (connects t ws) o v w = record {
    valid = v;
    pending = w.pending;
    unanswered = w.unanswered;
  }
  step-Waits m (disconnects t) o v w = record {
    valid = v;
    pending = w.pending;
    unanswered = w.unanswered;
  }
  step-Waits m (opens t r') o v w = open-Waits r' m (get t m.connections) o v w
  step-Waits m (resolves r' x) o v w = resolve-Waits r' x m (get r' m.pending) refl o v w
  step-Waits m (deadline g) o v w = record {
    valid = v;
    pending = w.pending;
    unanswered = set-unanswered m.futures g (cancel (get_elem? m.futures g)) o w.unanswered;
  }
  step-Waits m (closes r') o v w = record {
    valid = v;
    pending = ground (arith, get-pop r' r m.pending, eq_iff r r', eq_iff r' r, w.pending);
    unanswered = w.unanswered;
  }

  run-Waits :
      (m : Manager) (cs : List Call) → All (IsOther r f) cs → Waits r f m → Waits r f (run m cs)
  unfolding run
  run-Waits m [] o w = w
  run-Waits m (c ∷ cs) (o, os) w =
      run-Waits (apply m c) cs os (step-Waits m c o (apply-ManagerValid m c w.valid) w)

  resolve-IsAnswered :
      (result : Fields) (m : Manager) → Waits r f m → IsFinished f result (resolve r result m)
  unfolding resolve set_result
  resolve-IsAnswered result m w =
      rw (w.pending, resolve_at)
        (rw w.unanswered (
          get_elem?-set_self m.futures f (finished result)
            (lt_length m.futures f waiting w.unanswered)))

-- A request that has just begun waits on its own future.
open_on-Waits :
    (r : String) (m : Manager) (socket : Option ℕ) (ws f : ℕ) (begun : Manager)
    → ManagerValid m
    → ManagerValid (opened m (open_on r m socket))
    → open_on r m socket ≡ some (ws, f, begun)
    → Waits r f begun
open_on-Waits r m none ws f begun v v' e = cc
open_on-Waits r m (some w) ws f begun v v' e =
    subst (λ (x : ℕ × ℕ × Manager). Waits r x.1 x.2) (some-injective _ _ e)
      (record {
        valid = v';
        pending = ground (arith, get-put r r (length m.futures) m.pending, eq_refl r);
        unanswered = get_elem?-length m.futures waiting [];
      })

open_request-Waits :
    (t r : String) (m : Manager) (ws f : ℕ) (begun : Manager)
    → ManagerValid m
    → open_request t r m ≡ some (ws, f, begun)
    → Waits r f begun
unfolding open_request
open_request-Waits t r m ws f begun v e =
    open_on-Waits r m (get t m.connections) ws f begun v
      (unfold apply in apply-ManagerValid m (opens t r) v) e

-- For a valid manager and a request that a connected tenant's order has begun: while only calls
-- about other requests are made it has no result, and once a result comes for its id, that is its
-- result through any calls that follow, later results for the same id included.
pub request_gets_its_reply :
    (tenant_id request_id : String) (m : Manager) (ws f : ℕ) (begun : Manager)
    → ManagerValid m
    → open_request tenant_id request_id m ≡ some (ws, f, begun)
    → (before after : List Call) (result : Fields) → All (IsOther request_id f) before
    → (poll f (run begun before) ≡ none)
      × (poll f (run (resolve request_id result (run begun before)) after) ≡ some result)
unfolding poll
request_gets_its_reply tenant_id request_id m ws f begun v e before after result others =
    let w =
      run-Waits request_id f begun before others
        (open_request-Waits tenant_id request_id m ws f begun v e) in
    (
      rw w.unanswered,
      rw (
          run-IsFinished f result (resolve request_id result (run begun before)) after
            (resolve-IsAnswered request_id f result (run begun before) w)),
    )

-- ===== src/Ws/Manager/Requests.antt =====
-- What each call of the manager does to the pending requests and to their futures.
use dataveda_nifty_agent.Ws.Manager.{
  open_on, resolve_at, waiting, Manager, connect, disconnect, open_request, resolve, expire,
  close_request,
}
use dataveda_nifty_agent.Prelude.{
  ℕ, ◌<◌, String, ◌≡◌, Option, none, some, List, [], ◌∷◌, arith, length, length-append, length-set,
  eq_iff,
}
use dataveda_nifty_agent.Python.Json.{Fields}
use dataveda_nifty_agent.Python.Dict.{get, get-put, get-pop}

-- Pending requests have futures, and no two of them the same one.
pub record ManagerValid (m : Manager) : Type 0 where
  pub bounded : (r : String) (f : ℕ) → get r m.pending ≡ some f → f < length m.futures
  pub injective :
      (r r' : String) (f : ℕ) → get r m.pending ≡ some f → get r' m.pending ≡ some f → r ≡ r'

-- The calls that change the manager, in the order of the event loop. `open` begins a request, which
-- does nothing where the tenant has no connection; `deadline` is a timeout, and `close` the end of
-- `send_request`.
pub data Call : Type 0 where
  connects : String → ℕ → Call
  disconnects : String → Call
  opens : (tenant_id request_id : String) → Call
  resolves : String → Fields → Call
  deadline : ℕ → Call
  closes : String → Call

abbrev pub opened : Manager → Option (ℕ × ℕ × Manager) → Manager
opened m none = m
opened m (some (ws, f, m')) = m'

unfoldable pub apply : Manager → Call → Manager
apply m (connects t ws) = connect t ws m
apply m (disconnects t) = disconnect t m
apply m (opens t r) = opened m (open_request t r m)
apply m (resolves r result) = resolve r result m
apply m (deadline f) = expire f m
apply m (closes r) = close_request r m

unfoldable pub run : Manager → List Call → Manager
run m [] = m
run m (c ∷ cs) = run (apply m c) cs

open-ManagerValid :
    (r : String) (m : Manager) (socket : Option ℕ)
    → ManagerValid m
    → ManagerValid (opened m (open_on r m socket))
open-ManagerValid r m none v = v
open-ManagerValid r m (some ws) v = record {
  bounded = λ r' f e. ground (
    arith,
    get-put r r' (length m.futures) m.pending,
    length-append m.futures (waiting ∷ []),
    v.bounded r' f,
  );
  injective = λ r' r'' f e e'. ground (
    arith,
    get-put r r' (length m.futures) m.pending,
    get-put r r'' (length m.futures) m.pending,
    eq_iff r' r,
    eq_iff r'' r,
    v.bounded r' f,
    v.bounded r'' f,
    v.injective r' r'' f,
  );
}

resolve-ManagerValid :
    (result : Fields) (m : Manager) (f : Option ℕ)
    → ManagerValid m
    → ManagerValid (resolve_at result m f)
resolve-ManagerValid result m none v = v
resolve-ManagerValid result m (some g) v = record {
  bounded = λ r f e. rw length-set (v.bounded r f e);
  injective = v.injective;
}

-- Every call of the manager keeps it valid: pending requests have futures, and no two of them the
-- same one.
pub apply-ManagerValid : (m : Manager) (c : Call) → ManagerValid m → ManagerValid (apply m c)
unfolding apply connect disconnect open_request resolve expire close_request
apply-ManagerValid m (connects t ws) v = record { bounded = v.bounded; injective = v.injective }
apply-ManagerValid m (disconnects t) v = record { bounded = v.bounded; injective = v.injective }
apply-ManagerValid m (opens t r) v = open-ManagerValid r m (get t m.connections) v
apply-ManagerValid m (resolves r result) v = resolve-ManagerValid result m (get r m.pending) v
apply-ManagerValid m (deadline g) v = record {
  bounded = λ r f e. rw length-set (v.bounded r f e);
  injective = v.injective;
}
apply-ManagerValid m (closes r) v = record {
  bounded = λ r' f e. ground (arith, get-pop r r' m.pending, v.bounded r' f);
  injective = λ r' r'' f e e'.
      ground (arith, get-pop r r' m.pending, get-pop r r'' m.pending, v.injective r' r'' f);
}

-- ===== src/Agent/Backoff.antt =====
-- The delays between the agent's attempts to connect.
use native.Mathlib.Nat.{pow-suc}
use dataveda_nifty_agent.Prelude.{
  ap, ℕ, zero, suc, ◌*◌, ◌^◌, ◌≤◌, ◌≡◌, refl, List, [], ◌∷◌, min, arith, All,
}
use dataveda_nifty_agent.Agent.Loop.{
  Event, connected, lost, closed, first_backoff, max_backoff, delays,
}

abbrev pub Within : ℕ → Type 0
Within n = (first_backoff ≤ n) × (n ≤ max_backoff)

-- From a backoff within the bounds every sleep of every history is within them.
delays-Within : (backoff : ℕ) (es : List Event) → Within backoff → All Within (delays backoff es)
unfolding delays
delays-Within backoff [] h = tt
delays-Within backoff (connected ∷ es) h = delays-Within 2 es (omega arith)
delays-Within backoff (closed ∷ es) h = delays-Within backoff es h
delays-Within backoff (lost ∷ es) h =
    (h, delays-Within (min (backoff * 2) max_backoff) es (omega arith))

-- Every sleep of the agent's reconnecting loop, in any history from its start, lasts from 2 to 30
-- seconds.
pub delays_bounded : (es : List Event) → All Within (delays first_backoff es)
delays_bounded es = delays-Within first_backoff es (omega arith)

abbrev pub losses : ℕ → List Event
losses zero = []
losses (suc n) = lost ∷ losses n

-- The doubled backoffs, cut off at the maximum.
abbrev pub doubling : ℕ → ℕ → List ℕ
doubling zero k = []
doubling (suc n) k = min (2 ^ suc k) max_backoff ∷ doubling n (suc k)

min_doubled :
    (k : ℕ) → min (min (2 ^ suc k) max_backoff * 2) max_backoff ≡ min (2 ^ suc (suc k)) max_backoff
min_doubled k = omega (arith, pow-suc 2 (suc k))

delays-doubling : (n k : ℕ) → delays (min (2 ^ suc k) max_backoff) (losses n) ≡ doubling n k
unfolding delays
delays-doubling zero k = refl
delays-doubling (suc n) k =
    ap (λ (rest : List ℕ). min (2 ^ suc k) max_backoff ∷ rest)
      (rw (min_doubled k) (delays-doubling n (suc k)))

-- After a connection, n losses in a row make the agent sleep 2, 4, 8, ... seconds, doubling up to
-- 30.
pub delays_double : (backoff n : ℕ) → delays backoff (connected ∷ losses n) ≡ doubling n 0
unfolding delays
delays_double backoff n = delays-doubling n 0

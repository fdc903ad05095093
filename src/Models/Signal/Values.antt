-- ===== src/Models/Signal/Values.antt =====
-- app/models/signal.py: the values of a signal's fields against the request's JSON values.
use mathlib.Core.Option.{some-injective}
use dataveda_nifty_agent.Prelude.{
  String, ◌≡◌, refl, sym, ◌↔◌, ◌⊎◌, inl, inr, true, Option, none, some, arith, eq_iff,
}
use dataveda_nifty_agent.Python.Float.{Float, float_zero, lt}
use dataveda_nifty_agent.Python.Json.{Json}
use dataveda_nifty_agent.Runtime.{Runtime}
use dataveda_nifty_agent.Models.Signal.{
  SignalAction, buy, sell, close_long, close_short, close_all, OrderType, limit, market,
  action_value, order_type_value, action_of, order_type_of, required, read_action, read_order_type,
  positive, ◌>>=◌,
}

then_some :
    {A B : Type 0} (m : Option A) (f : A → Option B) (b : B)
    → (m >>= f) ≡ some b
    → (a : A) × (m ≡ some a) × (f a ≡ some b)
then_some none f b h = ground arith
then_some (some a) f b h = (a, refl, h)

-- The enums' values.
action_of_iff : (t : String) (a : SignalAction) → (action_of t ≡ some a) ↔ (t ≡ action_value a)
unfolding action_of
action_of_iff t buy = (
  λ h. ground (
    arith,
    eq_iff t "buy",
    eq_iff t "sell",
    eq_iff t "close_long",
    eq_iff t "close_short",
    eq_iff t "close_all",
  ),
  λ h. rw h refl,
)
action_of_iff t sell = (
  λ h. ground (
    arith,
    eq_iff t "buy",
    eq_iff t "sell",
    eq_iff t "close_long",
    eq_iff t "close_short",
    eq_iff t "close_all",
  ),
  λ h. rw h refl,
)
action_of_iff t close_long = (
  λ h. ground (
    arith,
    eq_iff t "buy",
    eq_iff t "sell",
    eq_iff t "close_long",
    eq_iff t "close_short",
    eq_iff t "close_all",
  ),
  λ h. rw h refl,
)
action_of_iff t close_short = (
  λ h. ground (
    arith,
    eq_iff t "buy",
    eq_iff t "sell",
    eq_iff t "close_long",
    eq_iff t "close_short",
    eq_iff t "close_all",
  ),
  λ h. rw h refl,
)
action_of_iff t close_all = (
  λ h. ground (
    arith,
    eq_iff t "buy",
    eq_iff t "sell",
    eq_iff t "close_long",
    eq_iff t "close_short",
    eq_iff t "close_all",
  ),
  λ h. rw h refl,
)

order_type_of_iff :
    (t : String) (o : OrderType) → (order_type_of t ≡ some o) ↔ (t ≡ order_type_value o)
unfolding order_type_of
order_type_of_iff t market = (
  λ h. ground (arith, eq_iff t "market", eq_iff t "limit"),
  λ h. ground (arith, eq_iff t "market"),
)
order_type_of_iff t limit =
    (λ h. ground (arith, eq_iff t "market", eq_iff t "limit"), λ h. rw h refl)

module _ (rt : Runtime) where
  -- A field with a text, and an optional one with a number.
  abbrev pub text_in : Option Json → Option String
  text_in = required rt rt.as_text

  pub read_action_iff :
      (o : Option Json) (a : SignalAction)
      → (required rt (read_action rt) o ≡ some a)
        ↔ ((t : String) × (text_in o ≡ some t) × (t ≡ action_value a))
  read_action_iff none a = (λ h. ground arith, λ (t, e, h). ground arith)
  read_action_iff (some v) a = (
    λ h. let (t, e, k) = then_some (rt.as_text v) action_of a h in (t, e, (action_of_iff t a).0 k),
    λ (t, e, h). rw (e, h) ((action_of_iff (action_value a) a).1 refl),
  )

  positive-some : (x q : Float) → positive rt x ≡ some q → (x ≡ q) × (lt float_zero x ≡ true)
  positive-some x q h = (ground arith, ground arith)

  pub positive_iff :
      (o : Option Json) (q : Float)
      → ((required rt rt.as_float o >>= positive rt) ≡ some q)
        ↔ ((required rt rt.as_float o ≡ some q) × (lt float_zero q ≡ true))
  positive_iff o q = (
    λ h.
        let (x, e, k) = then_some (required rt rt.as_float o) (positive rt) q h in
        let (same, above) = positive-some x q k in (rw (sym same) e, rw (sym same) above),
    λ (e, h). rw (e, h) refl,
  )

  pub read_order_type_iff :
      (o : Option Json) (k : OrderType)
      → (read_order_type rt o ≡ some k) ↔ (
          ((o ≡ none) × (k ≡ market))
          ⊎ ((t : String) × (text_in o ≡ some t) × (t ≡ order_type_value k)))
  read_order_type_iff none k = (
    λ h. inl (refl, sym (some-injective _ _ h)),
    λ h. elim h [ inl (e, m) ↦ rw m refl | inr (t, e, m) ↦ ground arith ],
  )
  read_order_type_iff (some v) k = (
    λ h.
        let (t, e, m) = then_some (rt.as_text v) order_type_of k h in
        inr (t, e, (order_type_of_iff t k).0 m),
    λ h. elim h [
      | inl (e, m) ↦ ground arith
      | inr (t, e, m) ↦ rw (e, m) ((order_type_of_iff (order_type_value k) k).1 refl)
    ],
  )

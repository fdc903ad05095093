-- ===== src/Models/Signal/Reading.antt =====
-- app/models/signal.py: what a validated signal has of the request's JSON object.
use mathlib.Core.Option.{some-injective}
use mathlib.Core.Path.{subst}
use dataveda_nifty_agent.Prelude.{
  String, ◌≡◌, refl, sym, ◌↔◌, ◌&&◌, ◌⊎◌, inl, inr, true, false, Option, none, some, arith,
  Option-cases, Bool-cases,
}
use dataveda_nifty_agent.Python.Float.{Float, float_zero, lt, le}
use dataveda_nifty_agent.Python.Json.{Fields, get_field}
use dataveda_nifty_agent.Runtime.{Runtime}
use dataveda_nifty_agent.Models.Signal.{
  OrderType, limit, market, TradingViewSignal, action_value, order_type_value, upper_symbol,
  required, optional_float, read_action, read_order_type, positive, lacks_price, is_limit,
  price_required_for_limit, validate, ◌>>=◌,
}
use dataveda_nifty_agent.Models.Signal.Values.{
  text_in, read_action_iff, positive_iff, read_order_type_iff,
}

with_some :
    {A B C : Type 0} (m : Option A) (f : A → Option B) (b : B)
    → (m >>= f) ≡ some b
    → ((a : A) → m ≡ some a → f a ≡ some b → C)
    → C
with_some none f b h k = ground arith
with_some (some a) f b h k = k a refl h

module _ (rt : Runtime) where
  -- A limit order has a price that is not below or at zero.
  abbrev pub HasPrice : TradingViewSignal → Type 0
  HasPrice s = s.order_type ≡ limit → (p : Float) × (s.price ≡ some p) × (le p float_zero ≡ false)

  priced :
      (s : TradingViewSignal)
      → (is_limit rt s.order_type && lacks_price rt s.price) ≡ false
      → HasPrice s
  priced s h e = elim (Option-cases s.price) [
    | inl absent ↦ ground (arith, h, e, absent)
    | inr (p, present) ↦ (p, present, ground (arith, h, e, present))
  ]

  required_some :
      (s s' : TradingViewSignal) → price_required_for_limit rt s ≡ some s' → (s ≡ s') × HasPrice s
  unfolding price_required_for_limit
  required_some s s' h = elim (Bool-cases (is_limit rt s.order_type && lacks_price rt s.price)) [
    | inl lacks ↦ ground arith
    | inr has ↦ (some-injective _ _ (ground (arith, h, has)), priced s has)
  ]

  not_lacking :
      (o : OrderType) (price : Option Float)
      → (o ≡ limit → (p : Float) × (price ≡ some p) × (le p float_zero ≡ false))
      → (is_limit rt o && lacks_price rt price) ≡ false
  not_lacking market price h = refl
  not_lacking limit price h = let (p, e, k) = h refl in rw e k

  has_price : (s : TradingViewSignal) → HasPrice s → price_required_for_limit rt s ≡ some s
  unfolding price_required_for_limit
  has_price s h = rw (not_lacking s.order_type s.price h) refl

  -- The signal that a request's JSON object stands for.
  pub record IsReading (raw : Fields) (s : TradingViewSignal) : Type 0 where
    pub passphrase : text_in rt (get_field "passphrase" raw) ≡ some s.passphrase
    pub signal_id : text_in rt (get_field "signal_id" raw) ≡ some s.signal_id
    pub strategy : text_in rt (get_field "strategy" raw) ≡ some s.strategy
    pub symbol :
        (t : String) × (text_in rt (get_field "symbol" raw) ≡ some t)
        × (s.symbol ≡ upper_symbol rt t)
    pub action :
        (t : String) × (text_in rt (get_field "action" raw) ≡ some t) × (t ≡ action_value s.action)
    pub quantity :
        (required rt rt.as_float (get_field "quantity" raw) ≡ some s.quantity)
        × (lt float_zero s.quantity ≡ true)
    -- a market order where there is no such field
    pub order_type :
        ((get_field "order_type" raw ≡ none) × (s.order_type ≡ market))
        ⊎ ((t : String) × (text_in rt (get_field "order_type" raw) ≡ some t)
            × (t ≡ order_type_value s.order_type))
    pub price : optional_float rt (get_field "price" raw) ≡ some s.price
    pub stop_loss : optional_float rt (get_field "stop_loss" raw) ≡ some s.stop_loss
    pub take_profit : optional_float rt (get_field "take_profit" raw) ≡ some s.take_profit
    pub limit_price : HasPrice s

  reading_validates :
      (raw : Fields) (s : TradingViewSignal) → IsReading raw s → validate rt raw ≡ some s
  unfolding validate
  reading_validates raw s r =
      let (t, e, upper) = r.symbol in
      rw
        (
          r.passphrase,
          r.signal_id,
          r.strategy,
          e,
          (read_action_iff rt _ _).1 r.action,
          (positive_iff rt _ _).1 r.quantity,
          (read_order_type_iff rt _ _).1 r.order_type,
          r.price,
          r.stop_loss,
          r.take_profit,
          sym upper,
        )
        (has_price s r.limit_price)

  validated_reads :
      (raw : Fields) (s : TradingViewSignal) → validate rt raw ≡ some s → IsReading raw s
  unfolding validate
  validated_reads raw s h = with_some (text_in rt (get_field "passphrase" raw)) _ s h (λ p e1 h1.
      with_some (text_in rt (get_field "signal_id" raw)) _ s h1 (λ i e2 h2.
        with_some (text_in rt (get_field "strategy" raw)) _ s h2 (λ g e3 h3.
          with_some (text_in rt (get_field "symbol" raw)) _ s h3 (λ y e4 h4.
            with_some (required rt (read_action rt) (get_field "action" raw)) _ s h4 (λ a e5 h5.
              with_some (required rt rt.as_float (get_field "quantity" raw) >>= positive rt) _ s h5
                (λ q e6 h6.
                  with_some (read_order_type rt (get_field "order_type" raw)) _ s h6 (λ o e7 h7.
                    with_some (optional_float rt (get_field "price" raw)) _ s h7 (λ x e8 h8.
                      with_some (optional_float rt (get_field "stop_loss" raw)) _ s h8 (λ l e9 h9.
                        with_some (optional_float rt (get_field "take_profit" raw)) _ s h9
                          (λ t e10 h10.
                            let (same, priced_at) = required_some _ s h10 in
                            subst (IsReading raw) same (record {
                              passphrase = e1;
                              signal_id = e2;
                              strategy = e3;
                              symbol = (y, e4, refl);
                              action = (read_action_iff rt _ a).0 e5;
                              quantity = (positive_iff rt _ q).0 e6;
                              order_type = (read_order_type_iff rt _ o).0 e7;
                              price = e8;
                              stop_loss = e9;
                              take_profit = e10;
                              limit_price = priced_at;
                            })))))))))))

  -- A request's JSON object validates to a signal exactly if it is a reading of that signal: the
  -- texts and numbers are those of the signal's fields as pydantic coerces them, the symbol is the
  -- given one stripped and in upper case, action and order type are the enums' values, the type of
  -- an order without one is market, the quantity is above zero, and a limit order has a price for
  -- which price <= 0 is false.
  pub validate_iff :
      (raw : Fields) (s : TradingViewSignal) → (validate rt raw ≡ some s) ↔ IsReading raw s
  validate_iff raw s = (validated_reads raw s, reading_validates raw s)

-- ===== src/Agent/Requests.antt =====
-- Which requests `MT5Client.place_order` sends to the terminal.
use mathlib.Core.Path.{subst}
use mathlib.Core.Option.{some-injective}
use dataveda_nifty_agent.Agent.Client.{
  SendResult, accepted, placed, send, read_result, deal, pending, buy, sell, buy_limit, sell_limit,
  Mt5Request, Tick, Terminal, Mt5Client, OrderArgs, Answer, when_truthy, Prepared, refused, ready,
  prepare, place_order, ensure_init,
}
use dataveda_nifty_agent.Prelude.{
  String, ◌≡◌, refl, ◌≢◌, ◌⊎◌, inl, inr, true, false, Option, none, some, List, [], ◌∷◌, arith,
  str_eq, eq_iff, Option-cases, Bool-cases,
}

-- At the market: a deal at the ask for a buy, at the bid for a sell.
pub record IsMarket (mt5 : Terminal) (a : OrderArgs) (r : Mt5Request) : Type 0 where
  pub tick : Tick
  pub known : mt5.symbol_info_tick a.symbol ≡ some tick
  pub action : r.action ≡ deal
  pub side :
      ((a.is_buy ≡ true) × (r.type ≡ buy) × (r.price ≡ tick.ask))
      ⊎ ((a.is_buy ≡ false) × (r.type ≡ sell) × (r.price ≡ tick.bid))

-- At a limit: a pending order at the given price.
pub record IsLimit (a : OrderArgs) (r : Mt5Request) : Type 0 where
  pub action : r.action ≡ pending
  pub price : a.price ≡ some r.price
  pub side :
      ((a.is_buy ≡ true) × (r.type ≡ buy_limit)) ⊎ ((a.is_buy ≡ false) × (r.type ≡ sell_limit))

-- The request of an order: its symbol, which the terminal has selected, its volume, its stops where
-- they are not zero, and the rest by its type.
pub record IsRequestFor (mt5 : Terminal) (a : OrderArgs) (r : Mt5Request) : Type 0 where
  pub selected : mt5.symbol_select a.symbol ≡ true
  pub symbol : r.symbol ≡ a.symbol
  pub volume : r.volume ≡ a.quantity
  pub sl : r.sl ≡ when_truthy a.sl
  pub tp : r.tp ≡ when_truthy a.tp
  pub kind :
      ((a.order_type ≡ "market") × IsMarket mt5 a r) ⊎ ((a.order_type ≢ "market") × IsLimit a r)

module _ (mt5 : Terminal) (a : OrderArgs) where
  prepare-IsMarket :
      (r : Mt5Request)
      → prepare mt5 a ≡ ready r
      → str_eq a.order_type "market" ≡ true
      → IsMarket mt5 a r
  unfolding prepare
  prepare-IsMarket r h m = elim (Option-cases (mt5.symbol_info_tick a.symbol)) [
    | inl e ↦ ground arith
    | inr (t, e) ↦ record { tick = t; known = e; action = ground arith; side = ground arith }
  ]

  prepare-IsRequestFor : (r : Mt5Request) → prepare mt5 a ≡ ready r → IsRequestFor mt5 a r
  unfolding prepare
  prepare-IsRequestFor r h = record {
    selected = ground arith;
    symbol = ground arith;
    volume = ground arith;
    sl = ground arith;
    tp = ground arith;
    kind = elim (Bool-cases (str_eq a.order_type "market")) [
      | inl m ↦ inl ((eq_iff _ _).0 m, prepare-IsMarket r h m)
      | inr l ↦ inr (
        λ e. ground (arith, eq_iff a.order_type "market"),
        record { action = ground arith; price = ground arith; side = ground arith },
      )
    ];
  }

  -- What became of an order: no request and no acceptance, or its one request, and an acceptance only
  -- as the terminal reports it done, under the terminal's number.
  abbrev pub Outcome : Answer → List Mt5Request → Type 0
  Outcome answer requests =
      ((requests ≡ []) × ((id m : String) → answer ≢ accepted id m))
      ⊎ ((r : Mt5Request) × (requests ≡ r ∷ [])
          × IsRequestFor mt5 a r
          × ((id m : String)
              → answer ≡ accepted id m
              → (result : SendResult) × (mt5.order_send r ≡ some result)
                × (result.retcode ≡ mt5.done)
                × (result.order ≡ id)))

  read_result-accepted :
      (o : Option SendResult) (id m : String)
      → read_result mt5 o ≡ accepted id m
      → (result : SendResult) × (o ≡ some result)
        × (result.retcode ≡ mt5.done)
        × (result.order ≡ id)
  read_result-accepted none id m h = cc
  read_result-accepted (some r) id m h = (r, refl, ground arith, ground arith)

  refused-not_accepted :
      (answer : Answer) → prepare mt5 a ≡ refused answer → (id m : String) → answer ≢ accepted id m
  unfolding prepare
  refused-not_accepted answer h id m e = ground arith

  send-Outcome : (p : Prepared) → prepare mt5 a ≡ p → Outcome (send mt5 p).0 (send mt5 p).1
  send-Outcome (refused answer) h = inl (refl, refused-not_accepted answer h)
  send-Outcome (ready r) h =
      inr (r, refl, prepare-IsRequestFor r h, read_result-accepted (mt5.order_send r))

  placed-Outcome :
      (o : Option Mt5Client) (c' : Mt5Client) (answer : Answer) (requests : List Mt5Request)
      → placed mt5 a o ≡ some (c', answer, requests)
      → Outcome answer requests
  placed-Outcome none c' answer requests h = cc
  placed-Outcome (some c) c' answer requests h =
      subst (λ (x : Mt5Client × Answer × List Mt5Request). Outcome x.1 x.2) (some-injective _ _ h)
        (send-Outcome (prepare mt5 a) refl)

  -- Where placing an order does not raise, the agent sends no request and does not accept, or
  -- sends the one request of that order, at the ask or bid or at its limit, and accepts only with
  -- the terminal's number of a request that the terminal reports done.
  pub place_order-Outcome :
      (c c' : Mt5Client) (answer : Answer) (requests : List Mt5Request)
      → place_order mt5 a c ≡ some (c', answer, requests)
      → Outcome answer requests
  unfolding place_order
  place_order-Outcome c c' answer requests h =
      placed-Outcome (ensure_init mt5 c) c' answer requests h

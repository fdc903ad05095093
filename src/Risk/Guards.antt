-- ===== src/Risk/Guards.antt =====
-- `check_risk` against a statement of what it guards, and the order of its refusals.
use dataveda_nifty_agent.Prelude.{
  Bool-cases, ◌&&◌, not, ℕ, ◌<◌, String, ◌≡◌, refl, ◌↔◌, ◌⊎◌, inl, inr, true, false, Option, none,
  some, List, [], ◌∷◌, any, arith, str_eq, eq_iff,
}
use dataveda_nifty_agent.Risk.{
  nonempty_list, RiskCheckResult, lapsed, normalized, symbols_of, symbol_refused, quantity_refused,
  loss_refused, check_risk,
}
use dataveda_nifty_agent.Python.Float.{Float, lt, le, neg_abs, truthy}
use dataveda_nifty_agent.Runtime.{Runtime}
use dataveda_nifty_agent.Models.Signal.{TradingViewSignal}
use dataveda_nifty_agent.Storage.Models.{Tenant, Db}
use dataveda_nifty_agent.Storage.Trades.{get_today_realized_pnl}

-- A text stands in a list.
abbrev pub IsIn : String → List String → Type 0
IsIn s [] = ⊥
IsIn s (t ∷ ts) = (s ≡ t) ⊎ IsIn s ts

module _ (rt : Runtime) (now later : ℕ) (tenant : Tenant) (signal : TradingViewSignal)
    (db : Db) where
  -- What a signal must meet to be let through, in words of the settings alone.
  pub record Passes : Type 0 where
    pub subscribed : (t : ℕ) × (tenant.subscription_expires_at ≡ some t) × (now < t)
    pub running : tenant.kill_switch_engaged ≡ false
    pub symbol :
        (normalized rt (symbols_of tenant.risk_settings.allowed_symbols) ≡ [])
        ⊎ IsIn signal.symbol (normalized rt (symbols_of tenant.risk_settings.allowed_symbols))
    pub quantity :
        (q : Float)
        → tenant.risk_settings.max_qty_per_order ≡ some q
        → truthy q ≡ true
        → lt q signal.quantity ≡ false
    pub loss :
        (x : Float)
        → tenant.risk_settings.max_daily_loss ≡ some x
        → truthy x ≡ true
        → le (get_today_realized_pnl rt later tenant.id db) (neg_abs x) ≡ false

IsIn-any : (s : String) (ts : List String) → (any (str_eq s) ts ≡ true) ↔ IsIn s ts
IsIn-any s [] = (λ h. cc, λ h. absurd h)
IsIn-any s (t ∷ ts) = (
  λ h. ground (arith, (IsIn-any s ts).0, eq_iff s t),
  λ h. ground (arith, (IsIn-any s ts).1, eq_iff s t),
)

refused_by_list_iff :
    (s : String) (ts : List String)
    → ((nonempty_list ts && not (any (str_eq s) ts)) ≡ false) ↔ ((ts ≡ []) ⊎ IsIn s ts)
refused_by_list_iff s [] = (λ h. inl refl, λ h. refl)
refused_by_list_iff s (t ∷ ts) = (
  λ h. inr ((IsIn-any s (t ∷ ts)).0 (ground arith)),
  λ h. elim h [ inl e ↦ cc | inr m ↦ ground (arith, (IsIn-any s (t ∷ ts)).1 m) ],
)

symbol_refused_iff :
    (rt : Runtime) (allowed : Option (List String)) (s : String)
    → (symbol_refused rt allowed s ≡ false)
      ↔ ((normalized rt (symbols_of allowed) ≡ []) ⊎ IsIn s (normalized rt (symbols_of allowed)))
unfolding symbol_refused
symbol_refused_iff rt allowed s = refused_by_list_iff s (normalized rt (symbols_of allowed))

quantity_refused_iff :
    (limit : Option Float) (quantity : Float)
    → (quantity_refused limit quantity ≡ false)
      ↔ ((q : Float) → limit ≡ some q → truthy q ≡ true → lt q quantity ≡ false)
unfolding quantity_refused
quantity_refused_iff none quantity = (λ h q e. ground arith, λ h. refl)
quantity_refused_iff (some m) quantity = (λ h q e k. ground arith, λ h. ground (arith, h m refl))

loss_refused_iff :
    (limit : Option Float) (pnl : Float)
    → (loss_refused limit pnl ≡ false)
      ↔ ((x : Float) → limit ≡ some x → truthy x ≡ true → le pnl (neg_abs x) ≡ false)
unfolding loss_refused
loss_refused_iff none pnl = (λ h q e. ground arith, λ h. refl)
loss_refused_iff (some m) pnl = (λ h q e k. ground arith, λ h. ground (arith, h m refl))

module _ (rt : Runtime) (now later : ℕ) (tenant : Tenant) (signal : TradingViewSignal)
    (db : Db) where
  lapsed_iff : (e : Option ℕ) → (lapsed now e ≡ false) ↔ ((t : ℕ) × (e ≡ some t) × (now < t))
  unfolding lapsed
  lapsed_iff none = (λ h. cc, λ h. cc (h.1))
  lapsed_iff (some t) = (λ h. (t, refl, ground arith), λ h. ground arith)

  abbrev check : RiskCheckResult
  check = check_risk rt now later tenant signal db

  -- The five tests of the code, none of which may refuse.
  pub record NoneRefuses : Type 0 where
    pub subscribed : lapsed now tenant.subscription_expires_at ≡ false
    pub running : tenant.kill_switch_engaged ≡ false
    pub symbol : symbol_refused rt tenant.risk_settings.allowed_symbols signal.symbol ≡ false
    pub quantity : quantity_refused tenant.risk_settings.max_qty_per_order signal.quantity ≡ false
    pub loss :
        loss_refused tenant.risk_settings.max_daily_loss
          (get_today_realized_pnl rt later tenant.id db)
        ≡ false

  allowed→NoneRefuses : check.allowed ≡ true → NoneRefuses
  unfolding check_risk
  allowed→NoneRefuses h = ground arith

  NoneRefuses→allowed : NoneRefuses → check.allowed ≡ true
  unfolding check_risk
  NoneRefuses→allowed h = ground arith

  -- The risk check allows a signal exactly if the subscription ends after now, the kill switch is
  -- off, the normalized allow-list is empty or holds the symbol, the quantity is not above a set
  -- maximum, and today's PnL is above the negated loss limit where one is set.
  pub check_risk-allowed_iff : (check.allowed ≡ true) ↔ Passes rt now later tenant signal db
  check_risk-allowed_iff =
      let settings = tenant.risk_settings in
      (
        λ h.
            let n = allowed→NoneRefuses h in
            record {
              subscribed = (lapsed_iff tenant.subscription_expires_at).0 n.subscribed;
              running = n.running;
              symbol = (symbol_refused_iff rt settings.allowed_symbols signal.symbol).0 n.symbol;
              quantity =
                  (quantity_refused_iff settings.max_qty_per_order signal.quantity).0 n.quantity;
              loss = (loss_refused_iff settings.max_daily_loss _).0 n.loss;
            },
        λ p. NoneRefuses→allowed (record {
          subscribed = (lapsed_iff tenant.subscription_expires_at).1 p.subscribed;
          running = p.running;
          symbol = (symbol_refused_iff rt settings.allowed_symbols signal.symbol).1 p.symbol;
          quantity = (quantity_refused_iff settings.max_qty_per_order signal.quantity).1 p.quantity;
          loss = (loss_refused_iff settings.max_daily_loss _).1 p.loss;
        }),
      )

-- An engaged kill switch refuses every signal.
pub engaged_blocked :
    (rt : Runtime) (now later : ℕ) (tenant : Tenant)
    → tenant.kill_switch_engaged ≡ true
    → (signal : TradingViewSignal) (db : Db)
    → (check_risk rt now later tenant signal db).allowed ≡ false
engaged_blocked rt now later tenant on signal db =
    elim (Bool-cases (check_risk rt now later tenant signal db).allowed) [
      | inl allowed ↦
          let p : Passes rt now later tenant signal db =
            (check_risk-allowed_iff rt now later tenant signal db).0 allowed in
          ground (arith, p.running, on)
      | inr refused ↦ refused
    ]

-- ===== src/Api/Bodies/Binding.antt =====
-- app/main.py: limits from the JSON of a PUT to the alerts that they refuse.
use mathlib.Core.Path.{subst}
use dataveda_nifty_agent.Prelude.{
  String, ◌≡◌, ◌≢◌, ◌⊎◌, inl, inr, refl, true, false, Option, some, List, [], arith, Bool-cases,
}
use dataveda_nifty_agent.Python.Float.{Float, lt, truthy}
use dataveda_nifty_agent.Python.Json.{float, str, obj, Fields}
use dataveda_nifty_agent.Runtime.{Runtime}
use dataveda_nifty_agent.Models.Signal.{TradingViewSignal, validate}
use dataveda_nifty_agent.Models.Order.{OrderRequest, OrderResult}
use dataveda_nifty_agent.Storage.Models.{RiskSettings, Tenant, Db}
use dataveda_nifty_agent.Storage.Action.{ok, Action}
use dataveda_nifty_agent.Storage.Tenants.Save.{row_of}
use dataveda_nifty_agent.Risk.{normalized, symbols_of, check_risk}
use dataveda_nifty_agent.Risk.Guards.{IsIn, Passes, check_risk-allowed_iff}
use dataveda_nifty_agent.Router.{Times}
use dataveda_nifty_agent.Api.Auth.{Settings, get_current_tenant}
use dataveda_nifty_agent.Api.Server.Valid.{DbValid}
use dataveda_nifty_agent.Api.Server.Halts.{current_row, saved-webhook}
use dataveda_nifty_agent.Api.Webhook.{tradingview_webhook}
use dataveda_nifty_agent.Api.Webhook.Halt.{Gives, AnswersRejected, signal_silent, signal_rejected}
use dataveda_nifty_agent.Api.Bodies.Receive.{for_risk_settings, receive}
use dataveda_nifty_agent.Api.Bodies.Limits.{
  settings_json, Kept, IsUpdated, with_limits, with_limits-SameKeys, risk_settings-PutLimits,
}

Kept-some {ℓ} :
    {A : Type ℓ} (old asked now : Option A) (a : A)
    → Kept old asked now
    → asked ≡ some a
    → now ≡ some a
Kept-some old asked now a (inl (e, same)) named = ground (arith, e, named)
Kept-some old asked now a (inr (h, e)) named = cc

module _ (rt : Runtime) where
  -- The signal's quantity is above the limit, or its symbol is not in the list.
  abbrev pub IsBeyond : RiskSettings → TradingViewSignal → Type 0
  IsBeyond limits signal =
      ((q : Float) × (limits.max_qty_per_order ≡ some q)
        × (truthy q ≡ true)
        × (lt q signal.quantity ≡ true))
      ⊎ ((ss : List String) × (limits.allowed_symbols ≡ some ss)
          × (normalized rt ss ≢ [])
          × ¬ IsIn signal.symbol (normalized rt ss))

  IsUpdated-IsBeyond :
      (old asked now : RiskSettings) (signal : TradingViewSignal)
      → IsUpdated old asked now
      → IsBeyond asked signal
      → IsBeyond now signal
  IsUpdated-IsBeyond old asked now signal u (inl (q, e, h, over)) =
      inl (q, Kept-some _ _ _ q u.max_qty_per_order e, h, over)
  IsUpdated-IsBeyond old asked now signal u (inr (ss, e, h, outside)) =
      inr (ss, Kept-some _ _ _ ss u.allowed_symbols e, h, outside)

  module _ (times : Times) (tenant : Tenant) (signal : TradingViewSignal) (db : Db) where
    beyond-fails :
        IsBeyond tenant.risk_settings signal → ¬ Passes rt times.checked times.pnl tenant signal db
    beyond-fails (inl (q, e, h, over)) p = ground (arith, p.quantity q e h, over)
    beyond-fails (inr (ss, e, some_left, outside)) p = elim p.symbol [
      | inl nothing ↦
          some_left
            (subst (λ (o : Option (List String)). normalized rt (symbols_of o) ≡ []) e nothing)
      | inr inside ↦ outside (
          subst (λ (o : Option (List String)). IsIn signal.symbol (normalized rt (symbols_of o))) e
            inside)
    ]

    beyond-refused :
        IsBeyond tenant.risk_settings signal
        → (check_risk rt times.checked times.pnl tenant signal db).allowed ≡ false
    beyond-refused h =
        elim (Bool-cases (check_risk rt times.checked times.pnl tenant signal db).allowed) [
          | inl passes ↦ absurd (
              beyond-fails h
                ((check_risk-allowed_iff rt times.checked times.pnl tenant signal db).0 passes))
          | inr refused ↦ refused
        ]

  -- Where pydantic reads texts and floats as they are: in a valid database, after a customer's
  -- request to /me/risk-settings whose JSON names a quantity limit, not 0, below an alert's
  -- quantity, or symbols, some not blank, without the alert's, the account's webhook has for this
  -- alert an outcome that does not depend on the broker, and rejects the order where it answers.
  pub new_limit_binds :
      (settings : Settings)
      → ((s : String) → rt.as_text (str s) ≡ some s)
      → ((x : Float) → rt.as_float (float x) ≡ some x)
      → (authorization : String) (t : Tenant) (asked : RiskSettings) (db : Db) → DbValid db
      → get_current_tenant rt authorization db ≡ (ok t, db)
      → (raw : Fields) (signal : TradingViewSignal) → validate rt raw ≡ some signal
      → IsBeyond asked signal
      → (times : Times) (broker other : Tenant → OrderRequest → Action OrderResult)
      → let after =
          (receive rt settings
            (for_risk_settings authorization)
            (some (obj (settings_json asked)))
            db).1 in
        (tradingview_webhook rt times broker t.webhook_id (some (obj raw)) after
          ≡ tradingview_webhook rt times other t.webhook_id (some (obj raw)) after)
        × Gives AnswersRejected
            (tradingview_webhook rt times broker t.webhook_id (some (obj raw)) after).0
  new_limit_binds settings texts floats authorization t asked db v found raw signal read beyond
        times broker other =
      let (now, updated, e) =
        risk_settings-PutLimits rt settings texts floats authorization t asked db v found in
      let row : row_of t.id db.tenants ≡ some t =
        current_row rt authorization db t v.accounts found in
      let hook =
        saved-webhook (with_limits now) t db v.accounts row (with_limits-SameKeys now t)
          (λ u. refl) in
      let refused : (d : Db)
          → (check_risk rt times.checked times.pnl (with_limits now t) signal d).allowed ≡ false =
        λ d.
          beyond-refused times (with_limits now t) signal d
            (IsUpdated-IsBeyond t.risk_settings asked now signal updated beyond) in
      rw e (
        signal_silent rt times (with_limits now t) t.webhook_id (some (obj raw)) _ hook raw signal
            refl read refused broker other,
        signal_rejected rt times (with_limits now t) t.webhook_id (some (obj raw)) _ hook raw signal
            refl read refused broker,
      )

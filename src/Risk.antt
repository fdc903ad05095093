-- ===== src/Risk.antt =====
-- app/risk/manager.py: the guardrails that every signal passes before an order is sent.
pub mod Guards
pub mod Breaker
use dataveda_nifty_agent.Prelude.{
  ℕ, String, ◌+s◌, Bool, true, false, not, ◌&&◌, Option, none, some, List, [], ◌∷◌, any, leb,
  str_eq, if◌then◌else◌,
}
use dataveda_nifty_agent.Python.Float.{Float, lt, le, neg_abs, truthy}
use dataveda_nifty_agent.Python.Text.{strip, nonempty}
use dataveda_nifty_agent.Runtime.{Runtime}
use dataveda_nifty_agent.Models.Signal.{TradingViewSignal, upper_symbol}
use dataveda_nifty_agent.Storage.Models.{Tenant, Db}
use dataveda_nifty_agent.Storage.Trades.{get_today_realized_pnl}

pub record RiskCheckResult : Type 0 where
  pub allowed : Bool
  pub reason : String

abbrev refuse : String → RiskCheckResult
refuse reason = record { allowed = false; reason = reason }

abbrev allow : RiskCheckResult
allow = record { allowed = true; reason = "" }

-- subscription_expires_at is None or subscription_expires_at <= utcnow_naive()
unfoldable pub lapsed : ℕ → Option ℕ → Bool
lapsed now none = true
lapsed now (some t) = leb t now

-- reason or 'no reason given'
abbrev reason_or_default : String → String
reason_or_default reason = if nonempty reason then reason else "no reason given"

abbrev no_subscription : String
no_subscription = "No active subscription - contact us to renew access"

-- settings.get("allowed_symbols", [])
abbrev pub symbols_of : Option (List String) → List String
symbols_of none = []
symbols_of (some ss) = ss

abbrev pub nonempty_list : List String → Bool
nonempty_list [] = false
nonempty_list (s ∷ ss) = true

-- max_qty and signal.quantity > max_qty
unfoldable pub quantity_refused : Option Float → Float → Bool
quantity_refused none quantity = false
quantity_refused (some max_qty) quantity = truthy max_qty && lt max_qty quantity

-- max_daily_loss and today_pnl <= -abs(max_daily_loss)
unfoldable pub loss_refused : Option Float → Float → Bool
loss_refused none today_pnl = false
loss_refused (some max_loss) today_pnl = truthy max_loss && le today_pnl (neg_abs max_loss)

module _ (rt : Runtime) where
  -- [s.strip().upper() for s in symbols if s.strip()]
  unfoldable pub normalized : List String → List String
  unfolding upper_symbol
  normalized [] = []
  normalized (s ∷ ss) =
      let rest = normalized ss in if nonempty (strip s) then upper_symbol rt s ∷ rest else rest

  -- allowed_symbols and signal.symbol not in allowed_symbols
  unfoldable pub symbol_refused : Option (List String) → String → Bool
  unfolding normalized
  symbol_refused setting symbol =
      let allowed = normalized (symbols_of setting) in
      nonempty_list allowed && not (any (str_eq symbol) allowed)

  abbrev show_setting : Option Float → String
  show_setting none = ""
  show_setting (some x) = rt.show_float x

  -- `now` is the clock at the subscription check, `later` the clock at the query of today's PnL.
  unfoldable pub check_risk : (now later : ℕ) → Tenant → TradingViewSignal → Db → RiskCheckResult
  check_risk now later tenant signal db =
      let settings = tenant.risk_settings in
      let today_pnl = get_today_realized_pnl rt later tenant.id db in
      if lapsed now tenant.subscription_expires_at
      then refuse no_subscription
      else if tenant.kill_switch_engaged
      then refuse ("Kill switch engaged: " +s reason_or_default tenant.kill_switch_reason)
      else if symbol_refused settings.allowed_symbols signal.symbol
      then refuse ("Symbol " +s signal.symbol +s " is not in this account's allowed_symbols")
      else if quantity_refused settings.max_qty_per_order signal.quantity
      then refuse (
          "Quantity "
          +s rt.show_float signal.quantity
          +s " exceeds max_qty_per_order="
          +s show_setting settings.max_qty_per_order)
      else if loss_refused settings.max_daily_loss today_pnl
      then refuse (
          "Daily loss circuit breaker tripped: realized PnL today "
          +s rt.show_fixed today_pnl
          +s " <= -"
          +s show_setting settings.max_daily_loss)
      else allow

-- ===== src/Router/Orders.antt =====
-- Which signals become orders, and which orders.
use dataveda_nifty_agent.Prelude.{◌≡◌, ◌↔◌, ◌⊎◌, true, some, arith}
use dataveda_nifty_agent.Python.Dict.{get}
use dataveda_nifty_agent.Python.Text.{nonempty}
use dataveda_nifty_agent.Models.Signal.{
  SignalAction, buy, sell, close_long, close_short, TradingViewSignal,
}
use dataveda_nifty_agent.Models.Order.{OrderSide, OrderRequest}
use dataveda_nifty_agent.Storage.Models.{Tenant}
use dataveda_nifty_agent.Risk.{RiskCheckResult}
use dataveda_nifty_agent.Router.{place, decide}

-- The side that an action trades on: opening or closing, a long position is bought and sold, a short
-- one sold and bought. `close_all` has none.
abbrev pub Trades : SignalAction → OrderSide → Type 0
Trades action side =
    ((side ≡ OrderSide.buy) × ((action ≡ buy) ⊎ (action ≡ close_short)))
    ⊎ ((side ≡ OrderSide.sell) × ((action ≡ sell) ⊎ (action ≡ close_long)))

-- The order that a signal asks for, on the tenant's own symbol.
pub record IsOrderFor (tenant : Tenant) (signal : TradingViewSignal) (order : OrderRequest)
    : Type 0 where
  pub mapped : get signal.symbol tenant.symbol_map ≡ some order.mt5_symbol
  pub named : nonempty order.mt5_symbol ≡ true
  pub side : Trades signal.action order.side
  pub signal_id : order.signal_id ≡ signal.signal_id
  pub symbol : order.symbol ≡ signal.symbol
  pub action : order.action ≡ signal.action
  pub quantity : order.quantity ≡ signal.quantity
  pub order_type : order.order_type ≡ signal.order_type
  pub price : order.price ≡ signal.price
  pub stop_loss : order.stop_loss ≡ signal.stop_loss
  pub take_profit : order.take_profit ≡ signal.take_profit

module _ (tenant : Tenant) (signal : TradingViewSignal) (risk : RiskCheckResult) where
  -- A signal is decided as a given order exactly if the risk check allows it and the order is the
  -- one it asks for: the mapped, nonempty symbol of the tenant, the side of the action, and the
  -- signal's id, quantity, type and prices.
  pub decide-place_iff :
      (order : OrderRequest)
      → (decide tenant signal risk ≡ place order)
        ↔ ((risk.allowed ≡ true) × IsOrderFor tenant signal order)
  unfolding decide
  decide-place_iff order = (λ h. ground arith, λ h. ground arith)

-- ===== src/Storage/Trades/Pnl.antt =====
-- Today's realized PnL, over rows none of which has one.
use dataveda_nifty_agent.Prelude.{
  ℕ, String, ◌≡◌, refl, none, List, [], ◌∷◌, arith, All, All-keep, ap,
}
use dataveda_nifty_agent.Python.Float.{float_zero}
use dataveda_nifty_agent.Runtime.{Runtime}
use dataveda_nifty_agent.Storage.Models.{TradeLog, Db}
use dataveda_nifty_agent.Storage.Trades.{known_pnls, get_today_realized_pnl, today, sum_or_zero}
use dataveda_nifty_agent.Storage.Trades.Invariant.{TradesValid}

known_pnls-none : (rs : List TradeLog) → All (λ r. r.realized_pnl ≡ none) rs → known_pnls rs ≡ []
unfolding known_pnls
known_pnls-none [] h = refl
known_pnls-none (r ∷ rs) h = ground (arith, known_pnls-none rs h.1)

-- As long as no row has a PnL, the sum of the day is zero.
pub today_pnl-zero :
    (rt : Runtime) (now : ℕ) (tenant_id : String) (db : Db)
    → TradesValid db
    → get_today_realized_pnl rt now tenant_id db ≡ float_zero
unfolding get_today_realized_pnl
today_pnl-zero rt now tenant_id db v = ap (sum_or_zero rt) (
    known_pnls-none _
      (All-keep (λ r. r.realized_pnl ≡ none) (today now tenant_id) db.trades v.no_pnl))

-- ===== src/Api/Server/Valid.antt =====
-- The tables' constraints over every route of app/main.py.
use dataveda_nifty_agent.Api.Server.{
  MeCall, account, symbol_map, risk_settings, kill_switch, trades, webhook_passphrase, agent_token,
  Request, History, quiet, then_request, health, signup, customer, administrator, webhook, serve,
}
use dataveda_nifty_agent.Api.Server.Requests.{
  Served, IsSparedCall, IsSpared, AreSpared, history_keeps,
}
use dataveda_nifty_agent.Storage.Models.{TradeLog, Tenant, Db}
use dataveda_nifty_agent.Prelude.{
  ℕ, String, ◌≡◌, refl, Option, none, some, List, any, arith, Unique, Bool-cases, inl, inr,
}
use dataveda_nifty_agent.Runtime.{Runtime}
use dataveda_nifty_agent.Models.Signal.{TradingViewSignal}
use dataveda_nifty_agent.Storage.Action.Keeps.{Keeps}
use dataveda_nifty_agent.Storage.Tenants.{
  Draws, same_key, new_tenant, create_tenant, write_row, others, save,
}
use dataveda_nifty_agent.Storage.Tenants.Save.{save-Unique, row_of}
use dataveda_nifty_agent.Storage.Tenants.Lookup.{create_tenant-Unique}
use dataveda_nifty_agent.Storage.Trades.{
  insert_row, try_reserve_signal, finalize_signal_log, log_trade, result_row,
}
use dataveda_nifty_agent.Storage.Trades.Rows.{log_row-keeps, or_none-db}
use dataveda_nifty_agent.Storage.Trades.Invariant.{
  TradesValid, insert_row-TradesValid, finalize-TradesValid,
}
use dataveda_nifty_agent.Router.{reserve}
use dataveda_nifty_agent.Router.Keeping.{IsKept}
use dataveda_nifty_agent.Api.Auth.{Settings}

-- The unique constraints of `tenants`, and a valid `trade_log`.
pub record DbValid (db : Db) : Type 0 where
  pub accounts : Unique same_key db.tenants
  pub log : TradesValid db

with_tenants-TradesValid :
    (db : Db) (ts : List Tenant) → TradesValid db → TradesValid (record db { tenants = ts })
with_tenants-TradesValid db ts v = record {
  keys = v.keys;
  ids = v.ids;
  below = v.below;
  no_pnl = v.no_pnl;
}

with_trades-DbValid :
    (db db' : Db) → db'.tenants ≡ db.tenants → TradesValid db' → DbValid db → DbValid db'
with_trades-DbValid db db' e log v = record { accounts = rw e v.accounts; log = log }

write_row-TradesValid :
    (id : String) (change : Tenant → Tenant) (db : Db) (found : Option Tenant)
    → TradesValid db
    → TradesValid (write_row id change db found).1
write_row-TradesValid id change db none v = v
write_row-TradesValid id change db (some row) v =
    elim (Bool-cases (any (same_key (change row)) (others id db.tenants))) [
      | inl clash ↦ rw clash v
      | inr free ↦ rw free (with_tenants-TradesValid db _ v)
    ]

pub save-Keeps :
    (id : String) (change : Tenant → Tenant)
    → ((t : Tenant) → (change t).id ≡ t.id)
    → Keeps DbValid (save id change)
unfolding save
save-Keeps id change same = record {
  at = λ db v. record {
    accounts = save-Unique id change db same v.accounts;
    log = write_row-TradesValid id change db (row_of id db.tenants) v.log;
  };
}

create_tenant-TradesValid :
    (rt : Runtime) (email : String) (drawn : Draws) (now : ℕ) (db : Db)
    → TradesValid db
    → TradesValid (create_tenant rt email drawn now db).1
unfolding create_tenant
create_tenant-TradesValid rt email drawn now db v =
    elim (Bool-cases (any (same_key (new_tenant rt email drawn now)) db.tenants)) [
      | inl taken ↦ rw taken v
      | inr free ↦ rw free (with_tenants-TradesValid db _ v)
    ]

pub create_tenant-Keeps :
    (rt : Runtime) (email : String) (drawn : Draws) (now : ℕ)
    → Keeps DbValid (create_tenant rt email drawn now)
create_tenant-Keeps rt email drawn now = record {
  at = λ db v. record {
    accounts = create_tenant-Unique rt email drawn now db v.accounts;
    log = create_tenant-TradesValid rt email drawn now db v.log;
  };
}

-- The writes of the router leave the accounts alone.
pub finalize-tenants :
    (e : TradeLog) (status message : String) (db : Db)
    → (finalize_signal_log e status message db).1.tenants ≡ db.tenants
unfolding finalize_signal_log
finalize-tenants e status message db = ground arith

pub insert_row-tenants : (e : TradeLog) (db : Db) → (insert_row e db).1.tenants ≡ db.tenants
unfolding insert_row
insert_row-tenants e db = ground arith

insert_row-DbValid :
    (e : TradeLog) (db : Db) → DbValid db → e.realized_pnl ≡ none → DbValid (insert_row e db).1
unfolding insert_row
insert_row-DbValid e db v p =
    with_trades-DbValid db _ (insert_row-tenants e db) (insert_row-TradesValid e db v.log p) v

pub DbValid-IsKept : (rt : Runtime) → IsKept rt DbValid
unfolding log_trade
DbValid-IsKept rt = record {
  by_finalize = λ r status message. record {
    at = λ db v.
        with_trades-DbValid db _ (finalize-tenants r status message db)
          (finalize-TradesValid r status message db v.log) v;
  };
  by_log = λ now t s strategy symbol action side quantity status message order_id. record {
    at = λ db v.
        log_row-keeps DbValid (rt.bind_text message) (rt.bind_text order_id)
          (result_row now t s strategy symbol action side quantity status) db
          (λ x y. insert_row-DbValid _ db v refl) v;
  };
}

pub reserve-Keeps :
    (rt : Runtime) (now : ℕ) (tenant : Tenant) (signal : TradingViewSignal)
    → Keeps DbValid (reserve rt now tenant signal)
unfolding reserve try_reserve_signal
reserve-Keeps rt now tenant signal = record {
  at = λ db v. rw or_none-db (insert_row-DbValid _ db v refl);
}

DbValid-Served : (rt : Runtime) → Served rt DbValid (λ engaged. Unit)
DbValid-Served rt = record {
  by_save = λ id change same hook engaged. save-Keeps id change same;
  by_switch = λ id engaged reason h. save-Keeps id _ (λ t. refl);
  by_create = create_tenant-Keeps rt;
  by_reserve = reserve-Keeps rt;
  kept = DbValid-IsKept rt;
}

call-IsSparedCall : (call : MeCall) → IsSparedCall (λ engaged. Unit) call
call-IsSparedCall (account now later manager) = tt
call-IsSparedCall (symbol_map payload) = tt
call-IsSparedCall (risk_settings payload) = tt
call-IsSparedCall (kill_switch engaged reason) = tt
call-IsSparedCall (trades limit offset) = tt
call-IsSparedCall (webhook_passphrase drawn) = tt
call-IsSparedCall (agent_token drawn) = tt

mutual
  unfolding IsSpared

  all-AreSpared : (history : History) → AreSpared (λ engaged. Unit) history
  all-AreSpared quiet = tt
  all-AreSpared (then_request request rest) = (each-IsSpared request, all-AreSpared rest)

  each-IsSpared : (request : Request) → IsSpared (λ engaged. Unit) request
  each-IsSpared health = tt
  each-IsSpared (signup email drawn now) = tt
  each-IsSpared (customer authorization call) = call-IsSparedCall call
  each-IsSpared (administrator key now call) = tt
  each-IsSpared (webhook webhook_id body times ended meanwhile) = all-AreSpared meanwhile

-- Any history of requests keeps a valid database valid.
pub every_history_valid :
    (rt : Runtime) (settings : Settings) (history : History) (db : Db)
    → DbValid db
    → DbValid (serve rt settings history db)
every_history_valid rt settings history =
    history_keeps rt settings DbValid (λ engaged. Unit) (DbValid-Served rt) history
      (all-AreSpared history)

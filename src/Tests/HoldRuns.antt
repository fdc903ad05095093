-- ===== src/Tests/HoldRuns.antt =====
-- Accounts that are halted while requests interleave.
use dataveda_nifty_agent.Prelude.{◌≡◌, refl, true, some, [], ◌∷◌, arith}
use dataveda_nifty_agent.Python.Float.{lt, le}
use dataveda_nifty_agent.Python.Json.{get_field}
use dataveda_nifty_agent.Python.Text.{strip, upper}
use dataveda_nifty_agent.Python.Dict.{get, put}
use dataveda_nifty_agent.Models.Signal.{validate, action_of, upper_symbol}
use dataveda_nifty_agent.Storage.Models.{Tenant, Db}
use dataveda_nifty_agent.Storage.Columns.{commit, update_columns, list_eq, dict_eq}
use dataveda_nifty_agent.Storage.Tenants.{
  hash_secret, get_tenant_by_webhook_id, save, same_key, set_row, others,
}
use dataveda_nifty_agent.Storage.Trades.{try_reserve_signal, insert_row}
use dataveda_nifty_agent.Risk.{lapsed, symbol_refused, quantity_refused, loss_refused, check_risk}
use dataveda_nifty_agent.Router.{reserve, decide}
use dataveda_nifty_agent.Router.Tasks.{Task, starting, idle, advance}
use dataveda_nifty_agent.Router.Tasks.Held.{orders_of}
use dataveda_nifty_agent.Security.{passphrase_matches}
use dataveda_nifty_agent.Api.Account.{normalize_map}
use dataveda_nifty_agent.Api.Server.{symbol_map}
use dataveda_nifty_agent.Api.Server.Valid.{DbValid}
use dataveda_nifty_agent.Api.Server.Rows.{HasRow}
use dataveda_nifty_agent.Api.Server.Lasting.{IsStopped}
use dataveda_nifty_agent.Api.Concurrent.{
  of_customer, handed_over, loaded, admit, entering, open_call, proceed, plan, plan_me,
}
use dataveda_nifty_agent.Api.Concurrent.World.{
  Pending, World, handle, route, proceeded, Reach, here, next,
}
use dataveda_nifty_agent.Api.Concurrent.KillSwitch.{no_release, kill_switch_holds}
use dataveda_nifty_agent.Api.Concurrent.Revoked.{EndsAt, unrenewed, revoked_holds}
use dataveda_nifty_agent.Api.Concurrent.Stale.{before_check, read_before_switch_sends}
use dataveda_nifty_agent.Tests.Data.{rt, tenant, signal, order, db, row}
use dataveda_nifty_agent.Tests.TaskRuns.{inputs, ran, written}
use dataveda_nifty_agent.Tests.HistoryRuns.{keyed}
use dataveda_nifty_agent.Tests.WorldRuns.{alerting}

-- The kill switch is engaged; an alert comes in while a request has the row as it was before.
abbrev stopped : Tenant
stopped = record tenant { kill_switch_engaged = true; kill_switch_reason = "holiday" }

abbrev stopped_db : Db
stopped_db = record db { tenants = stopped ∷ [] }

abbrev stopped-IsStopped : IsStopped "ten_1" "hook" stopped_db
stopped-IsStopped = record { row = stopped; stored = refl; blocked = refl; hook = refl }

stopped-DbValid : DbValid stopped_db
unfolding same_key
stopped-DbValid = record {
  accounts = (refl, tt);
  log = record { keys = tt; ids = tt; below = tt; no_pnl = tt };
}

abbrev stale : Pending
stale = record {
  call = of_customer "Bearer sk_live_1" (symbol_map (("GBPUSD", "GBPUSD.m") ∷ []));
  progress = loaded tenant;
}

abbrev halted : World
halted = record { system = idle stopped_db; pending = alerting ∷ stale ∷ [] }

-- The row after the symbol map is written to it.
abbrev mapped_row : Tenant
mapped_row = record stopped { symbol_map = ("GBPUSD", "GBPUSD.m") ∷ [] }

abbrev mapped_db : Db
mapped_db = record db { tenants = mapped_row ∷ [] }

abbrev entered : Task
entered = record { tenant = mapped_row; signal = signal; stage = starting }

-- The symbol map is written, the alert is let in, reserves its key and is refused.
abbrev halted_later : World
halted_later = record {
  system = record {
    db = written (ran entered mapped_db) (written entered mapped_db);
    tasks = ran (ran entered mapped_db) (written entered mapped_db) ∷ [];
    sent = [];
  };
  pending =
      record alerting { progress = handed_over }
      ∷ record stale { progress = (proceed rt keyed stale.call 5 stale.progress stopped_db).0 }
      ∷ [];
}

halted-Reach : Reach rt keyed no_release halted halted_later
unfolding proceed plan plan_me commit update_columns save set_row others same_key dict_eq list_eq
    normalize_map upper_symbol upper strip put open_call entering admit get_tenant_by_webhook_id
    hash_secret get_field validate action_of passphrase_matches advance reserve try_reserve_signal
    insert_row decide check_risk lapsed symbol_refused quantity_refused loss_refused get lt le
halted-Reach =
    next
      (next
        (next (next here (handle (alerting ∷ []) stale [] 5 (idle stopped_db) tt))
          (handle [] alerting _ 6 _ tt))
        (route _ mapped_db [] entered [] [] inputs tt))
      (route _ (written entered mapped_db) [] (ran entered mapped_db) [] [] inputs tt)

kill_switch_holds_example :
    orders_of "ten_1" halted_later.system.sent ≡ orders_of "ten_1" halted.system.sent
kill_switch_holds_example =
    kill_switch_holds rt keyed "ten_1" "hook" halted halted_later stopped-DbValid stopped-IsStopped
      (tt, (tt, tt)) tt halted-Reach

read_before_switch_sends_example :
    (w : World) × Reach rt keyed no_release
      (before_check rt keyed tenant signal (row "sig1") inputs stopped_db [] [])
      w
    × (w.system.sent ≡ ("ten_1", "sig1") ∷ [])
    × IsStopped "ten_1" "hook" w.system.db
unfolding decide check_risk lapsed symbol_refused quantity_refused loss_refused get
read_before_switch_sends_example =
    read_before_switch_sends rt keyed tenant signal (row "sig1") inputs stopped_db [] [] "hook"
      order stopped-IsStopped refl

-- The subscription was revoked at instant 7.
abbrev cut_off : Db
cut_off = record db { tenants = record tenant { subscription_expires_at = some 7 } ∷ [] }

cut_off-DbValid : DbValid cut_off
unfolding same_key
cut_off-DbValid = record {
  accounts = (refl, tt);
  log = record { keys = tt; ids = tt; below = tt; no_pnl = tt };
}

cut_off-HasRow : HasRow (EndsAt 7) "ten_1" "hook" cut_off
cut_off-HasRow = record {
  row = record tenant { subscription_expires_at = some 7 };
  stored = refl;
  blocked = refl;
  hook = refl;
}

abbrev revoked : World
revoked = record { system = idle cut_off; pending = alerting ∷ stale ∷ [] }

abbrev revoked_later : World
revoked_later =
    let once = proceeded rt keyed (alerting ∷ []) stale [] 8 (idle cut_off) in
    proceeded rt keyed [] alerting
      (record stale { progress = (proceed rt keyed stale.call 8 stale.progress cut_off).0 } ∷ []) 9
      once.system

revoked-Reach : Reach rt keyed (unrenewed 7) revoked revoked_later
revoked-Reach =
    next (next here (handle (alerting ∷ []) stale [] 8 (idle cut_off) (omega arith)))
      (handle [] alerting _ 9 _ (omega arith))

revoked_holds_example :
    orders_of "ten_1" revoked_later.system.sent ≡ orders_of "ten_1" revoked.system.sent
revoked_holds_example =
    revoked_holds rt keyed 7 "ten_1" "hook" revoked revoked_later cut_off-DbValid cut_off-HasRow
      (tt, (tt, tt)) tt revoked-Reach

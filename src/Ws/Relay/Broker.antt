-- ===== src/Ws/Relay/Broker.antt =====
-- app/ws/relay_broker.py: `WSRelayBroker` as a broker.
use dataveda_nifty_agent.Prelude.{
  ◌≡◌, refl, ap, arith, String, Option, none, some, [], if◌then◌else◌, Bool-cases, inl, inr,
}
use dataveda_nifty_agent.Storage.Action.Keeps.{Keeps}
use dataveda_nifty_agent.Python.Json.{end}
use dataveda_nifty_agent.Python.Text.{nonempty}
use dataveda_nifty_agent.Models.Order.{OrderRequest}
use dataveda_nifty_agent.Storage.Models.{Db}
use dataveda_nifty_agent.Storage.Action.{pure}
use dataveda_nifty_agent.Brokers.{BrokerAdapter}
use dataveda_nifty_agent.Ws.Manager.{Reply}
use dataveda_nifty_agent.Ws.Relay.{place_order}

-- An offline tenant's order, and an order without a symbol, end before the first wait.
abbrev waited : (Db → Db) → OrderRequest → Option Reply → Db → Db
waited meanwhile order none db = db
waited meanwhile order (some reply) db = if nonempty order.mt5_symbol then meanwhile db else db

-- The broker of a tenant, given how `send_request` ends and what other tasks write while it waits.
unfoldable pub relay_broker : String → Option Reply → (meanwhile : Db → Db) → BrokerAdapter
relay_broker tenant_id ended meanwhile = record {
  name = "mt5";
  place_order = λ order db. (place_order tenant_id order ended, waited meanwhile order ended db);
  get_open_positions = pure [];
  get_account_summary = pure end;
}

waited_alone :
    (order : OrderRequest) (ended : Option Reply) (db : Db) → waited (λ d. d) order ended db ≡ db
waited_alone order none db = refl
waited_alone order (some reply) db = ground arith

-- Where nothing else is written, an order leaves the database alone.
pub relay_broker-alone :
    (tenant_id : String) (ended : Option Reply) (order : OrderRequest) (db : Db)
    → (relay_broker tenant_id ended (λ d. d)).place_order order db
      ≡ (place_order tenant_id order ended, db)
unfolding relay_broker
relay_broker-alone tenant_id ended order db =
    ap (λ (d : Db). (place_order tenant_id order ended, d)) (waited_alone order ended db)

-- What the other tasks keep, an order keeps.
module _ (P : Db → Type 0) (meanwhile : Db → Db) (k : (db : Db) → P db → P (meanwhile db)) where
  waited_keeps :
      (order : OrderRequest) (ended : Option Reply) (db : Db)
      → P db
      → P (waited meanwhile order ended db)
  waited_keeps order none db h = h
  waited_keeps order (some reply) db h = elim (Bool-cases (nonempty order.mt5_symbol)) [
    | inl named ↦ rw named (k db h)
    | inr unnamed ↦ rw unnamed h
  ]

  pub relay_broker-Keeps :
      (tenant_id : String) (ended : Option Reply) (order : OrderRequest)
      → Keeps P ((relay_broker tenant_id ended meanwhile).place_order order)
  unfolding relay_broker
  relay_broker-Keeps tenant_id ended order = record { at = waited_keeps order ended }

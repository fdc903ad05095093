-- ===== src/Api/Server/Rows.antt =====
-- A property of one account's row over the writes of app/main.py.
use mathlib.Core.Path.{subst}
use mathlib.Core.Option.{some-injective}
use dataveda_nifty_agent.Prelude.{
  ℕ, String, ◌≡◌, ◌∙◌, refl, sym, Option, none, some, List, [], ◌∷◌, ◌++◌, arith, any, str_eq,
  eq_iff, Bool-cases, inl, inr,
}
use dataveda_nifty_agent.Runtime.{Runtime}
use dataveda_nifty_agent.Storage.Models.{Tenant, Db}
use dataveda_nifty_agent.Storage.Action.Keeps.{Keeps}
use dataveda_nifty_agent.Storage.Tenants.{
  Draws, same_key, set_row, others, write_row, save, new_tenant, create_tenant,
}
use dataveda_nifty_agent.Storage.Tenants.Save.{row_of, row_of-set_row, row_of-set_row_ne, id-row_of}
use dataveda_nifty_agent.Storage.Trades.{try_reserve_signal, log_trade, result_row}
use dataveda_nifty_agent.Storage.Trades.Rows.{log_row-keeps, or_none-db}
use dataveda_nifty_agent.Router.{reserve}
use dataveda_nifty_agent.Api.Server.Valid.{finalize-tenants, insert_row-tenants}
use dataveda_nifty_agent.Router.Keeping.{IsKept}
use dataveda_nifty_agent.Models.Signal.{TradingViewSignal}

-- The account's row has a property, and the account its hook.
pub record HasRow (Q : Tenant → Type 0) (id webhook_id : String) (db : Db) : Type 0 where
  pub row : Tenant
  pub stored : row_of id db.tenants ≡ some row
  pub blocked : Q row
  pub hook : row.webhook_id ≡ webhook_id

row_of-append :
    (id : String) (ts us : List Tenant) (row : Tenant)
    → row_of id ts ≡ some row
    → row_of id (ts ++ us) ≡ some row
row_of-append id [] us row h = ground arith
row_of-append id (t ∷ ts) us row h = ground (arith, row_of-append id ts us row)

module _ (Q : Tenant → Type 0) where
  pub same_tenants-HasRow :
      (id w : String) (db db' : Db)
      → db'.tenants ≡ db.tenants
      → HasRow Q id w db
      → HasRow Q id w db'
  same_tenants-HasRow id w db db' e s = record {
    row = s.row;
    stored = rw e s.stored;
    blocked = s.blocked;
    hook = s.hook;
  }

  module _ (id w : String) (changed_id : String) (change : Tenant → Tenant)
      (same : (t : Tenant) → (change t).id ≡ t.id)
      (hook : (t : Tenant) → (change t).webhook_id ≡ t.webhook_id)
      (keeps : (t : Tenant) → Q t → Q (change t)) where
    moved :
        (db : Db) (found : Tenant)
        → row_of changed_id db.tenants ≡ some found
        → (change found).id ≡ changed_id
    moved db found f = same found ∙ id-row_of changed_id db.tenants found f

    set_here :
        (db : Db) (found : Tenant)
        → row_of id db.tenants ≡ some found
        → HasRow Q id w db
        → HasRow Q id w (record db { tenants = set_row (change found) db.tenants })
    set_here db found f s =
        let e : s.row ≡ found = some-injective _ _ (sym s.stored ∙ f) in
        record {
          row = change found;
          stored =
              row_of-set_row id (change found) db.tenants found f
                (same found ∙ id-row_of id db.tenants found f);
          blocked = keeps found (subst Q e s.blocked);
          hook = hook found ∙ subst (λ (t : Tenant). t.webhook_id ≡ w) e s.hook;
        }

    set_row-HasRow :
        (db : Db) (found : Tenant)
        → row_of changed_id db.tenants ≡ some found
        → HasRow Q id w db
        → HasRow Q id w (record db { tenants = set_row (change found) db.tenants })
    set_row-HasRow db found f s = elim (Bool-cases (str_eq changed_id id)) [
      | inl here ↦
          set_here db found (subst (λ k. row_of k db.tenants ≡ some found) ((eq_iff _ _).0 here) f)
            s
      | inr other ↦ record {
        row = s.row;
        stored =
            row_of-set_row_ne id (change found) db.tenants (rw (moved db found f) other) ∙ s.stored;
        blocked = s.blocked;
        hook = s.hook;
      }
    ]

    write_row-HasRow :
        (db : Db) (found : Option Tenant)
        → row_of changed_id db.tenants ≡ found
        → HasRow Q id w db
        → HasRow Q id w (write_row changed_id change db found).1
    write_row-HasRow db none f s = s
    write_row-HasRow db (some found) f s =
        elim (Bool-cases (any (same_key (change found)) (others changed_id db.tenants))) [
          | inl clash ↦ rw clash s
          | inr free ↦ rw free (set_row-HasRow db found f s)
        ]

    pub save-HasRow : Keeps (HasRow Q id w) (save changed_id change)
    unfolding save
    save-HasRow = record { at = λ db s. write_row-HasRow db (row_of changed_id db.tenants) refl s }

  pub create_tenant-HasRow :
      (rt : Runtime) (id w email : String) (drawn : Draws) (now : ℕ) (db : Db)
      → HasRow Q id w db
      → HasRow Q id w (create_tenant rt email drawn now db).1
  unfolding create_tenant
  create_tenant-HasRow rt id w email drawn now db s =
      elim (Bool-cases (any (same_key (new_tenant rt email drawn now)) db.tenants)) [
        | inl taken ↦ rw taken s
        | inr free ↦ rw free (record {
          row = s.row;
          stored = row_of-append id db.tenants _ s.row s.stored;
          blocked = s.blocked;
          hook = s.hook;
        })
      ]

  pub HasRow-reserve :
      (rt : Runtime) (id w : String) (now : ℕ) (tenant : Tenant) (signal : TradingViewSignal)
      → Keeps (HasRow Q id w) (reserve rt now tenant signal)
  unfolding reserve try_reserve_signal
  HasRow-reserve rt id w now tenant signal = record {
    at = λ db s. rw or_none-db (same_tenants-HasRow id w db _ (insert_row-tenants _ db) s);
  }

  pub HasRow-IsKept : (rt : Runtime) (id w : String) → IsKept rt (HasRow Q id w)
  unfolding log_trade
  HasRow-IsKept rt id w = record {
    by_finalize = λ r status message. record {
      at = λ db s. same_tenants-HasRow id w db _ (finalize-tenants r status message db) s;
    };
    by_log = λ now t s strategy symbol action side quantity status message order_id. record {
      at = λ db k.
          log_row-keeps (HasRow Q id w) (rt.bind_text message) (rt.bind_text order_id)
            (result_row now t s strategy symbol action side quantity status) db
            (λ x y. same_tenants-HasRow id w db _ (insert_row-tenants _ db) k) k;
    };
  }

-- ===== src/Storage/Subscription/Renewal.antt =====
-- Granting, renewing and revoking a subscription.
use dataveda_nifty_agent.Storage.Tenants.Save.{
  save-Unique, row_of, SameKeys, save_keeps_keys, row_of-set_row, row_of-set_row_ne,
}
use dataveda_nifty_agent.Prelude.{
  ◌⊎◌, ℕ, ◌+◌, ◌*◌, ◌≤◌, ◌<◌, max, String, ◌≡◌, refl, false, Option, none, some, arith, Unique,
  str_eq,
}
use dataveda_nifty_agent.Storage.Models.{Tenant, Db}
use dataveda_nifty_agent.Storage.Action.{Result, ok, raised, overflow_error}
use dataveda_nifty_agent.Storage.Tenants.{same_key, save, set_row}
use dataveda_nifty_agent.Storage.Subscription.{
  day, end_of_time, max_days, renewal_base, add_days, grant_subscription, revoke_subscription,
}

-- The tenant is the row that the table holds under its id, and the table meets its constraints.
pub record IsStored (tenant : Tenant) (db : Db) : Type 0 where
  pub unique : Unique same_key db.tenants
  pub stored : row_of tenant.id db.tenants ≡ some tenant

-- What an UPDATE has done: the row is `t`, every other row and the log are as before.
pub record Updated (t : Tenant) (db db' : Db) : Type 0 where
  pub row : row_of t.id db'.tenants ≡ some t
  pub rest : (id : String) → str_eq t.id id ≡ false → row_of id db'.tenants ≡ row_of id db.tenants
  pub trades : db'.trades ≡ db.trades

pub set_row-Updated :
    (t : Tenant) (row : Tenant) (db : Db)
    → row_of t.id db.tenants ≡ some row
    → Updated t db (record db { tenants = set_row t db.tenants })
set_row-Updated t row db e = record {
  row = row_of-set_row t.id t db.tenants row e refl;
  rest = λ id ne. row_of-set_row_ne id t db.tenants ne;
  trades = refl;
}

-- A write that leaves the unique columns alone succeeds on a stored row.
pub save_stored :
    (change : Tenant → Tenant) (tenant : Tenant) (db : Db)
    → IsStored tenant db
    → SameKeys (change tenant) tenant
    → ((save tenant.id change db).0 ≡ ok (change tenant))
      × Updated (change tenant) db (save tenant.id change db).1
save_stored change tenant db st s =
    rw (save_keeps_keys tenant.id change db tenant st.unique st.stored s)
      (refl, set_row-Updated (change tenant) tenant db (rw s.id st.stored))

-- The expiry before, or now if there is none.
abbrev pub expiry_or : ℕ → Option ℕ → ℕ
expiry_or now none = now
expiry_or now (some t) = t

abbrev pub renewed : ℕ → Tenant → ℕ → Tenant
renewed now tenant days = record tenant {
  subscription_expires_at =
      some (max now (expiry_or now tenant.subscription_expires_at) + days * day);
}

renewal_base-eq-max : (now : ℕ) (e : Option ℕ) → renewal_base now e ≡ max now (expiry_or now e)
unfolding renewal_base
renewal_base-eq-max now none = omega arith
renewal_base-eq-max now (some t) = ground arith

pub expiry-SameKeys :
    (tenant : Tenant) (e : Option ℕ)
    → SameKeys (record tenant { subscription_expires_at = e }) tenant
expiry-SameKeys tenant e = record {
  id = refl;
  email = refl;
  api_key_hash = refl;
  webhook_id = refl;
  agent_token_hash = refl;
}

add_days_renewed :
    (now : ℕ) (tenant : Tenant) (days : ℕ)
    → days ≤ max_days
    → max now (expiry_or now tenant.subscription_expires_at) + days * day < end_of_time
    → add_days (renewal_base now tenant.subscription_expires_at) days
      ≡ ok (max now (expiry_or now tenant.subscription_expires_at) + days * day)
unfolding add_days
add_days_renewed now tenant days h k =
    rw (renewal_base-eq-max now tenant.subscription_expires_at) (ground arith)

module _ (now : ℕ) (tenant : Tenant) (days : ℕ) (db : Db) where
  abbrev granted : Result Tenant × Db
  granted = grant_subscription now tenant days db

  abbrev new_expiry : ℕ
  new_expiry = max now (expiry_or now tenant.subscription_expires_at) + days * day

  -- For a stored tenant, days within a timedelta and a new expiry before the end of time: a grant
  -- gives the row with the days added to the later of now and the old expiry, stores it, and
  -- changes no other row and no trade.
  pub grant_extends :
      IsStored tenant db
      → days ≤ max_days
      → new_expiry < end_of_time
      → (granted.0 ≡ ok (renewed now tenant days)) × Updated (renewed now tenant days) db granted.1
  unfolding grant_subscription
  grant_extends stored h k = rw (add_days_renewed now tenant days h k) (
      save_stored (λ t. record t { subscription_expires_at = some new_expiry }) tenant db stored
        (expiry-SameKeys tenant (some new_expiry)))

  -- A grant of more days than a timedelta holds, or past the last date, raises an overflow and
  -- writes nothing.
  pub grant_overflows :
      (max_days < days) ⊎ (end_of_time ≤ new_expiry) → granted ≡ (raised overflow_error, db)
  unfolding grant_subscription add_days
  grant_overflows h = rw (renewal_base-eq-max now tenant.subscription_expires_at) (ground arith)

-- For a stored tenant a revocation gives the row with the expiry now, stores it, and changes no
-- other row and no trade.
pub revoke_ends :
    (now : ℕ) (tenant : Tenant) (db : Db)
    → IsStored tenant db
    → ((revoke_subscription now tenant db).0
        ≡ ok (record tenant { subscription_expires_at = some now }))
      × Updated
          (record tenant { subscription_expires_at = some now })
          db
          (revoke_subscription now tenant db).1
unfolding revoke_subscription
revoke_ends now tenant db stored =
    save_stored (λ t. record t { subscription_expires_at = some now }) tenant db stored
      (expiry-SameKeys tenant (some now))

-- After a write of an expiry the row is stored with that expiry.
expiry_write-IsStored :
    (e : ℕ) (tenant : Tenant) (db : Db)
    → IsStored tenant db
    → IsStored
        (record tenant { subscription_expires_at = some e })
        (save tenant.id (λ t. record t { subscription_expires_at = some e }) db).1
expiry_write-IsStored e tenant db st = record {
  unique =
      save-Unique tenant.id (λ t. record t { subscription_expires_at = some e }) db (λ t. refl)
        st.unique;
  stored =
      (save_stored (λ t. record t { subscription_expires_at = some e }) tenant db st
        (expiry-SameKeys tenant (some e))).1.row;
}

-- For two grants that have read the same stored row, within the bounds of dates, the row after
-- both is the second grant's renewal of the row as it was read: the days of the first one are
-- lost.
pub stale_grant_overwrites :
    (now later : ℕ) (tenant : Tenant) (days more : ℕ) (db : Db)
    → IsStored tenant db
    → days ≤ max_days
    → more ≤ max_days
    → max now (expiry_or now tenant.subscription_expires_at) + days * day < end_of_time
    → max later (expiry_or later tenant.subscription_expires_at) + more * day < end_of_time
    → row_of tenant.id
        (grant_subscription later tenant more (grant_subscription now tenant days db).1).1.tenants
      ≡ some (renewed later tenant more)
unfolding grant_subscription
stale_grant_overwrites now later tenant days more db st h k h' k' =
    let e = max now (expiry_or now tenant.subscription_expires_at) + days * day in
    let e' = max later (expiry_or later tenant.subscription_expires_at) + more * day in
    rw (add_days_renewed now tenant days h h', add_days_renewed later tenant more k k')
      (save_stored (λ t. record t { subscription_expires_at = some e' })
        (record tenant { subscription_expires_at = some e })
        (save tenant.id (λ t. record t { subscription_expires_at = some e }) db).1
        (expiry_write-IsStored e tenant db st)
        (expiry-SameKeys (record tenant { subscription_expires_at = some e }) (some e'))).1.row

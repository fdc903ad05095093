-- ===== src/Storage/Tenants/Lookup.antt =====
-- Signing up, and who is found by a secret.
use mathlib.Core.Path.{subst}
use mathlib.Core.Option.{some-injective}
use dataveda_nifty_agent.Prelude.{
  ℕ, String, ◌≡◌, refl, false, Option, none, some, List, [], ◌∷◌, ◌++◌, arith, any, keep, str_eq,
  eq_iff, eq_refl, Bool-cases, inl, inr, Unique, Unique-append,
}
use dataveda_nifty_agent.Runtime.{Runtime}
use dataveda_nifty_agent.Storage.Models.{Tenant, Db}
use dataveda_nifty_agent.Storage.Action.{Result, ok, raised}
use dataveda_nifty_agent.Storage.Tenants.{
  same_key, set_row, Draws, Secrets, hash_secret, new_tenant, create_tenant, get_tenant_by_api_key,
  get_tenant_by_agent_token, get_tenant_by_webhook_id,
}
use dataveda_nifty_agent.Storage.Tenants.Save.{same_key-IsSymmetric, any-row_of, row_of}

-- Rows without a conflict differ in the column.
abbrev pub IsApart : (Tenant → String) → Type 0
IsApart column = (t u : Tenant) → same_key t u ≡ false → str_eq (column t) (column u) ≡ false

pub api_key-IsApart : IsApart (λ t. t.api_key_hash)
unfolding same_key
api_key-IsApart t u h = ground arith

pub agent_token-IsApart : IsApart (λ t. t.agent_token_hash)
unfolding same_key
agent_token-IsApart t u h = ground arith

pub webhook_id-IsApart : IsApart (λ t. t.webhook_id)
unfolding same_key
webhook_id-IsApart t u h = ground arith

pub id-IsApart : IsApart (λ t. t.id)
unfolding same_key
id-IsApart t u h = ground arith

module _ (column : Tenant → String) (key : IsApart column) where
  -- A new row that is in conflict with none is the only one with its value of the column.
  keep-new :
      (t : Tenant) (ts : List Tenant)
      → any (same_key t) ts ≡ false
      → keep (λ u. str_eq (column u) (column t)) (ts ++ t ∷ []) ≡ t ∷ []
  keep-new t [] h = ground (arith, eq_refl (column t))
  keep-new t (u ∷ ts) h =
      ground
        (arith, keep-new t ts, key t u, eq_iff (column t) (column u), eq_iff (column u) (column t))

  -- Where a row is given a new value of the column, no row has the old one.
  keep-others :
      (row t : Tenant) (ts : List Tenant)
      → t.id ≡ row.id
      → any (same_key row) ts ≡ false
      → keep (λ u. str_eq (column u) (column row)) (set_row t ts) ≡ []
  unfolding set_row
  keep-others row t [] e h = refl
  keep-others row t (u ∷ ts) e h = ground (
    arith,
    keep-others row t ts e,
    key row u,
    id-IsApart row u,
    eq_iff (column row) (column u),
    eq_iff (column u) (column row),
    eq_iff row.id u.id,
    eq_iff u.id t.id,
  )

  keep-head :
      (u t : Tenant) (ts : List Tenant)
      → t.id ≡ u.id
      → str_eq (column t) (column u) ≡ false
      → any (same_key u) ts ≡ false
      → keep (λ w. str_eq (column w) (column u)) (set_row t (u ∷ ts)) ≡ []
  unfolding set_row
  keep-head u t ts e h fresh = ground (arith, keep-others u t ts e fresh, eq_iff u.id t.id)

  pub keep-changed :
      (row t : Tenant) (ts : List Tenant)
      → Unique same_key ts
      → row_of row.id ts ≡ some row
      → t.id ≡ row.id
      → str_eq (column t) (column row) ≡ false
      → keep (λ u. str_eq (column u) (column row)) (set_row t ts) ≡ []
  unfolding set_row
  keep-changed row t [] v r e h = ground arith
  keep-changed row t (u ∷ ts) (fresh, v) r e h = elim (Bool-cases (str_eq u.id row.id)) [
    | inl same ↦
        let p : u ≡ row = some-injective _ _ (ground (arith, r, same)) in
        subst
          (λ (x : Tenant).
            t.id ≡ x.id
            → str_eq (column t) (column x) ≡ false
            → keep (λ w. str_eq (column w) (column x)) (set_row t (u ∷ ts)) ≡ [])
          p (λ e' h'. keep-head u t ts e' h' fresh) e h
    | inr other ↦
        let r' : row_of row.id ts ≡ some row = ground (arith, r, other) in
        ground (
          arith,
          keep-changed row t ts v r' e h,
          key u row (any-row_of (same_key u) row.id ts row fresh r'),
          e,
        )
  ]

-- The secrets' plaintexts find the account.
pub record Finds (rt : Runtime) (tenant : Tenant) (secrets : Secrets) (db : Db) : Type 0 where
  pub api_key : get_tenant_by_api_key rt secrets.api_key db ≡ (ok (some tenant), db)
  pub agent_token : get_tenant_by_agent_token rt secrets.agent_token db ≡ (ok (some tenant), db)
  pub webhook_id : get_tenant_by_webhook_id secrets.webhook_id db ≡ (ok (some tenant), db)
  pub passphrase : hash_secret rt secrets.webhook_passphrase ≡ tenant.webhook_passphrase_hash

module _ (rt : Runtime) where
  abbrev FindsIn : Result (Option (Tenant × Secrets)) × Db → Type 0
  FindsIn (ok (some (tenant, secrets)), db) = Finds rt tenant secrets db
  FindsIn (ok none, db) = Unit
  FindsIn (raised e, db) = Unit

  module _ (email : String) (drawn : Draws) (now : ℕ) (db : Db) where
    abbrev created : Tenant
    created = new_tenant rt email drawn now

    create_tenant-FindsIn : FindsIn (create_tenant rt email drawn now db)
    unfolding create_tenant get_tenant_by_api_key get_tenant_by_agent_token get_tenant_by_webhook_id
    create_tenant-FindsIn = elim (Bool-cases (any (same_key created) db.tenants)) [
      | inl taken ↦ rw taken tt
      | inr free ↦ rw free (record {
        api_key = rw (keep-new (λ t. t.api_key_hash) api_key-IsApart created db.tenants free) refl;
        agent_token =
            rw (keep-new (λ t. t.agent_token_hash) agent_token-IsApart created db.tenants free)
              refl;
        webhook_id =
            rw (keep-new (λ t. t.webhook_id) webhook_id-IsApart created db.tenants free) refl;
        passphrase = refl;
      })
    ]

    -- Where an account is created, the api key, the agent token and the webhook id that are shown
    -- once each find that account and no other, and the shown passphrase has the stored hash.
    pub create_tenant-Finds :
        (tenant : Tenant) (secrets : Secrets) (db' : Db)
        → create_tenant rt email drawn now db ≡ (ok (some (tenant, secrets)), db')
        → Finds rt tenant secrets db'
    create_tenant-Finds tenant secrets db' e = subst FindsIn e create_tenant-FindsIn

    -- Creating an account keeps the unique constraints of the tenants' table, whatever was drawn
    -- and whether an account is created or not.
    pub create_tenant-Unique :
        Unique same_key db.tenants → Unique same_key (create_tenant rt email drawn now db).1.tenants
    unfolding create_tenant
    create_tenant-Unique v = elim (Bool-cases (any (same_key created) db.tenants)) [
      | inl taken ↦ rw taken v
      | inr free ↦ rw free (Unique-append same_key same_key-IsSymmetric db.tenants _ v free)
    ]

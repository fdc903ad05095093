-- ===== src/Storage/Tenants/Found.antt =====
-- An account that a secret finds is the row of its id, and that row is found by its webhook id.
use dataveda_nifty_agent.Storage.Models.{Db, Tenant}
use mathlib.Core.Path.{subst}
use mathlib.Core.Option.{some-injective}
use dataveda_nifty_agent.Prelude.{
  String, ◌≡◌, refl, ap, Bool, false, Option, none, some, List, [], ◌∷◌, arith, any, keep, str_eq,
  eq_iff, eq_refl, Bool-cases, inl, inr, Unique,
}
use dataveda_nifty_agent.Storage.Action.{Result, ok, raised, one_or_none}
use dataveda_nifty_agent.Storage.Tenants.{same_key, get_tenant_by_webhook_id}
use dataveda_nifty_agent.Storage.Tenants.Save.{row_of, any-row_of}
use dataveda_nifty_agent.Storage.Tenants.Lookup.{IsApart, id-IsApart, webhook_id-IsApart}

abbrev the_value {ℓ} : {A : Type ℓ} → Result (Option A) → Option A
the_value (ok found) = found
the_value (raised e) = none

one_or_none_head : (t u : Tenant) (us : List Tenant) → one_or_none (u ∷ us) ≡ ok (some t) → u ≡ t
one_or_none_head t u [] e = some-injective _ _ (ap the_value e)
one_or_none_head t u (w ∷ us) e = ground (arith, ap the_value e)

module _ (p : Tenant → Bool) where
  pub found_row :
      (t : Tenant) (ts : List Tenant)
      → Unique same_key ts
      → one_or_none (keep p ts) ≡ ok (some t)
      → row_of t.id ts ≡ some t
  found_row t [] v e = ground (arith, ap the_value e)
  found_row t (u ∷ us) (fresh, v) e = elim (Bool-cases (p u)) [
    | inl picked ↦
        let same : u ≡ t = one_or_none_head t u (keep p us) (ground (arith, e, picked)) in
        rw (same, eq_refl t.id) refl
    | inr passed ↦
        let r : row_of t.id us ≡ some t = found_row t us v (ground (arith, e, passed)) in
        ground (arith, r, id-IsApart u t (any-row_of (same_key u) t.id us t fresh r))
  ]

module _ (column : Tenant → String) (key : IsApart column) where
  keep_none :
      (t : Tenant) (us : List Tenant)
      → any (same_key t) us ≡ false
      → keep (λ w. str_eq (column w) (column t)) us ≡ []
  keep_none t [] h = refl
  keep_none t (u ∷ us) h =
      ground
        (arith, keep_none t us, key t u, eq_iff (column t) (column u), eq_iff (column u) (column t))

  pub keep_row :
      (id : String) (t : Tenant) (ts : List Tenant)
      → Unique same_key ts
      → row_of id ts ≡ some t
      → keep (λ w. str_eq (column w) (column t)) ts ≡ t ∷ []
  keep_row id t [] v r = ground (arith, r)
  keep_row id t (u ∷ us) (fresh, v) r = elim (Bool-cases (str_eq u.id id)) [
    | inl same ↦
        let e : u ≡ t = some-injective _ _ (ground (arith, r, same)) in
        subst (λ (x : Tenant). keep (λ w. str_eq (column w) (column x)) (u ∷ us) ≡ x ∷ []) e
          (rw (eq_refl (column u), keep_none u us fresh) refl)
    | inr other ↦
        let r' : row_of id us ≡ some t = ground (arith, r, other) in
        ground (arith, keep_row id t us v r', key u t (any-row_of (same_key u) id us t fresh r'))
  ]

-- A stored account is found by its webhook id.
pub get_tenant_by_webhook_id-row :
    (id : String) (row : Tenant) (db : Db)
    → Unique same_key db.tenants
    → row_of id db.tenants ≡ some row
    → get_tenant_by_webhook_id row.webhook_id db ≡ (ok (some row), db)
unfolding get_tenant_by_webhook_id
get_tenant_by_webhook_id-row id row db v stored =
    rw (keep_row (λ t. t.webhook_id) webhook_id-IsApart id row db.tenants v stored) refl

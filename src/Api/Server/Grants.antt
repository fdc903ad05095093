-- ===== src/Api/Server/Grants.antt =====
-- POST /admin/tenants/{tenant_id}/subscription of app/main.py, on every branch.
use mathlib.Core.Path.{subst}
use dataveda_nifty_agent.Prelude.{
  ℕ, zero, suc, String, ◌+◌, ◌*◌, ◌≤◌, ◌<◌, max, ◌≡◌, ◌≢◌, ◌∙◌, refl, sym, ◌&&◌, ltb, leb, ◌⊎◌, inl,
  inr, none, some, arith, Bool-cases, Option-cases,
}
use dataveda_nifty_agent.Python.Float.{ℤ, pos, negsuc, pos_part}
use dataveda_nifty_agent.Runtime.{Runtime}
use dataveda_nifty_agent.Storage.Models.{Tenant, Db}
use dataveda_nifty_agent.Storage.Action.{http, overflow_error, Result, ok, raised, pure, continue}
use dataveda_nifty_agent.Storage.Tenants.{get_tenant_by_id}
use dataveda_nifty_agent.Storage.Tenants.Save.{row_of, id-row_of}
use dataveda_nifty_agent.Storage.Subscription.{day, end_of_time, max_days, grant_subscription}
use dataveda_nifty_agent.Storage.Subscription.Renewal.{
  IsStored, Updated, expiry_or, renewed, grant_extends, grant_overflows,
}
use dataveda_nifty_agent.Api.Auth.{Settings, get_current_admin}
use dataveda_nifty_agent.Api.Auth.Access.{get_current_admin-ok_iff, get_current_admin_cases}
use dataveda_nifty_agent.Api.Admin.{to_view, admin_grant_subscription}
use dataveda_nifty_agent.Api.Server.{Response, viewed, administrator, grant, respond_admin, respond}
use dataveda_nifty_agent.Api.Server.Valid.{DbValid}

module _ (settings : Settings) (key : String) (now : ℕ) (tenant_id : String) (days : ℤ)
    (db : Db) where
  abbrev IsAdmin : Type 0
  IsAdmin = (settings.admin_api_key ≢ "") × (key ≡ settings.admin_api_key)

  -- The days are within a timedelta, and the new expiry is a date.
  abbrev Fits : Tenant → Type 0
  Fits t =
      (pos_part days ≤ max_days)
      × (max now (expiry_or now t.subscription_expires_at) + pos_part days * day < end_of_time)

  -- What a grant answers or raises, and when.
  pub data Granting : Result Response × Db → Type 0 where
    stranger : ¬ IsAdmin → Granting (raised (http 401), db)
    not_positive : IsAdmin → pos_part days ≡ 0 → Granting (raised (http 422), db)
    unknown : IsAdmin → row_of tenant_id db.tenants ≡ none → Granting (raised (http 404), db)
    too_far :
        IsAdmin
        → (t : Tenant) → row_of tenant_id db.tenants ≡ some t
        → ¬ Fits t
        → Granting (raised overflow_error, db)
    extended :
        IsAdmin
        → (t : Tenant) → row_of tenant_id db.tenants ≡ some t
        → Fits t
        → (db' : Db) → Updated (renewed now t (pos_part days)) db db'
        → Granting (ok (viewed (to_view now (renewed now t (pos_part days)))), db')

module _ (rt : Runtime) (settings : Settings) (key : String) (now : ℕ) (tenant_id : String)
    (db : Db) (v : DbValid db) where
  abbrev answered : Result Tenant × Db → Result Response × Db
  answered x = continue (continue x (λ s. pure (to_view now s))) (λ a. pure (viewed a))

  -- The end of a grant, from the row that was found.
  granted_outcome :
      (days : ℤ) (t : Tenant)
      → IsAdmin settings key now tenant_id days db
      → row_of tenant_id db.tenants ≡ some t
      → Granting settings key now tenant_id days db
          (answered (grant_subscription now t (pos_part days) db))
  granted_outcome days t admin found =
      let n = pos_part days in
      let e = max now (expiry_or now t.subscription_expires_at) + n * day in
      let stored : IsStored t db = record {
        unique = v.accounts;
        stored =
            subst (λ id. row_of id db.tenants ≡ some t)
              (sym (id-row_of tenant_id db.tenants t found)) found;
      } in
      elim (Bool-cases (leb n max_days && ltb e end_of_time)) [
        | inl fits ↦
            let fit : Fits settings key now tenant_id days db t = ground arith in
            let (row, updated) = grant_extends now t n db stored (fit.0) (fit.1) in
            let p : grant_subscription now t n db
                ≡ (ok (renewed now t n), (grant_subscription now t n db).1) =
              λ i. (row i, (grant_subscription now t n db).1) in
            subst (λ x. Granting settings key now tenant_id days db (answered x)) (sym p)
              (extended admin t found fit _ updated)
        | inr exceeds ↦
            let over : (max_days < n) ⊎ (end_of_time ≤ e) = ground arith in
            subst (λ x. Granting settings key now tenant_id days db (answered x))
              (sym (grant_overflows now t n db over)) (too_far admin t found (λ fit. ground arith))
      ]

  admitted_outcome :
      (days : ℤ)
      → get_current_admin settings key db ≡ (ok tt, db)
      → Granting settings key now tenant_id days db
          (respond rt settings (administrator key now (grant tenant_id days)) db)
  unfolding respond respond_admin admin_grant_subscription get_tenant_by_id
  admitted_outcome (pos zero) h =
      rw h (not_positive ((get_current_admin-ok_iff settings key db).0 h) refl)
  admitted_outcome (negsuc n) h =
      rw h (not_positive ((get_current_admin-ok_iff settings key db).0 h) refl)
  admitted_outcome (pos (suc n)) h =
      let admin = (get_current_admin-ok_iff settings key db).0 h in
      elim (Option-cases (row_of tenant_id db.tenants)) [
        | inl none_found ↦ rw (h, none_found) (unknown admin none_found)
        | inr (t, found) ↦ rw (h, found) (granted_outcome (pos (suc n)) t admin found)
      ]

  -- In a valid database, a grant of days raises 401 without the administrator's key, 422 for no or
  -- a negative number of days, 404 for an unknown tenant, and an overflow past a timedelta's days
  -- or the last date, and writes nothing then; else it answers with the view of the row with the
  -- days added to the later of now and the old expiry, stores that row and changes no other row
  -- and no trade.
  pub grant_outcome :
      (days : ℤ)
      → Granting settings key now tenant_id days db
          (respond rt settings (administrator key now (grant tenant_id days)) db)
  unfolding respond respond_admin admin_grant_subscription
  grant_outcome days = elim (get_current_admin_cases settings key db) [
    | inl h ↦ admitted_outcome days h
    | inr shut ↦ rw shut (
        stranger
          (λ admin. ground (arith, sym shut ∙ (get_current_admin-ok_iff settings key db).1 admin)))
  ]

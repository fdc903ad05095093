-- ===== src/Storage/Tenants/Unambiguous.antt =====
-- The lookups and writes of app/storage/repository.py find at most one account, and raise no
-- MultipleResultsFound.
use dataveda_nifty_agent.Prelude.{
  ℕ, String, ◌≡◌, refl, false, Option, none, some, List, [], ◌∷◌, arith, any, keep, str_eq, eq_iff,
  Bool-cases, inl, inr, Unique,
}
use dataveda_nifty_agent.Runtime.{Runtime}
use dataveda_nifty_agent.Storage.Models.{Tenant, Db}
use dataveda_nifty_agent.Storage.Action.{one_or_none}
use dataveda_nifty_agent.Storage.Action.Unambiguous.{is_multiple, Unambiguous}
use dataveda_nifty_agent.Storage.Tenants.{
  same_key, Draws, create_tenant, get_tenant_by_api_key, get_tenant_by_agent_token,
  get_tenant_by_webhook_id, get_tenant_by_id, list_tenants, write_row, others, save,
}
use dataveda_nifty_agent.Storage.Tenants.Lookup.{
  IsApart, api_key-IsApart, agent_token-IsApart, webhook_id-IsApart,
}

-- Of rows that are pairwise without a conflict, at most one has a value of a unique column.
module _ (column : Tenant → String) (key : IsApart column) (x : String) where
  keep_first :
      (t : Tenant) (ts : List Tenant)
      → any (same_key t) ts ≡ false
      → column t ≡ x
      → keep (λ u. str_eq (column u) x) ts ≡ []
  keep_first t [] h e = refl
  keep_first t (u ∷ ts) h e =
      ground (arith, keep_first t ts, key t u, eq_iff (column t) (column u), eq_iff (column u) x)

  at_most_one :
      (ts : List Tenant)
      → Unique same_key ts
      → is_multiple (one_or_none (keep (λ u. str_eq (column u) x) ts)) ≡ false
  at_most_one [] v = refl
  at_most_one (t ∷ ts) (fresh, v) = elim (Bool-cases (str_eq (column t) x)) [
    | inl same ↦ rw (same, keep_first t ts fresh (ground (arith, eq_iff (column t) x))) refl
    | inr other ↦ rw other (at_most_one ts v)
  ]

pub by_api_key_unambiguous :
    (rt : Runtime) (key : String) (db : Db)
    → Unique same_key db.tenants
    → is_multiple (get_tenant_by_api_key rt key db).0 ≡ false
unfolding get_tenant_by_api_key
by_api_key_unambiguous rt key db = at_most_one (λ t. t.api_key_hash) api_key-IsApart _ db.tenants

pub by_agent_token_unambiguous :
    (rt : Runtime) (token : String) (db : Db)
    → Unique same_key db.tenants
    → is_multiple (get_tenant_by_agent_token rt token db).0 ≡ false
unfolding get_tenant_by_agent_token
by_agent_token_unambiguous rt token db =
    at_most_one (λ t. t.agent_token_hash) agent_token-IsApart _ db.tenants

pub by_webhook_id_unambiguous :
    (id : String) (db : Db)
    → Unique same_key db.tenants
    → is_multiple (get_tenant_by_webhook_id id db).0 ≡ false
unfolding get_tenant_by_webhook_id
by_webhook_id_unambiguous id db = at_most_one (λ t. t.webhook_id) webhook_id-IsApart id db.tenants

write_row_unambiguous :
    (id : String) (change : Tenant → Tenant) (db : Db) (found : Option Tenant)
    → is_multiple (write_row id change db found).0 ≡ false
write_row_unambiguous id change db none = refl
write_row_unambiguous id change db (some row) =
    elim (Bool-cases (any (same_key (change row)) (others id db.tenants))) [
      | inl clash ↦ rw clash refl
      | inr free ↦ rw free refl
    ]

pub save-Unambiguous : (id : String) (change : Tenant → Tenant) → Unambiguous (save id change)
unfolding save
save-Unambiguous id change = record { at = λ db. write_row_unambiguous id change db _ }

pub create_tenant-Unambiguous :
    (rt : Runtime) (email : String) (drawn : Draws) (now : ℕ)
    → Unambiguous (create_tenant rt email drawn now)
unfolding create_tenant
create_tenant-Unambiguous rt email drawn now = record { at = λ db. ground arith }

pub by_id-Unambiguous : (id : String) → Unambiguous (get_tenant_by_id id)
unfolding get_tenant_by_id
by_id-Unambiguous id = record { at = λ db. refl }

pub list_tenants-Unambiguous : (limit offset : ℕ) → Unambiguous (list_tenants limit offset)
unfolding list_tenants
list_tenants-Unambiguous limit offset = record { at = λ db. refl }

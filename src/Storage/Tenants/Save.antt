-- ===== src/Storage/Tenants/Save.antt =====
-- An UPDATE of a tenant's row: when it goes through, and what it leaves alone.
use dataveda_nifty_agent.Storage.Tenants.{write_row, same_key, set_row, others, save}
use dataveda_nifty_agent.Prelude.{
  String, ◌≡◌, ◌∙◌, ap, refl, Bool, true, false, Option, none, some, List, [], ◌∷◌, arith, any,
  find, Unique, IsSymmetric, str_eq, eq_iff, Bool-cases, inl, inr,
}
use dataveda_nifty_agent.Storage.Models.{Tenant, Db}
use dataveda_nifty_agent.Storage.Action.{ok}

pub same_key-IsSymmetric : IsSymmetric same_key
unfolding same_key
same_key-IsSymmetric a b = ground (
  arith,
  eq_iff a.id b.id,
  eq_iff b.id a.id,
  eq_iff a.email b.email,
  eq_iff b.email a.email,
  eq_iff a.api_key_hash b.api_key_hash,
  eq_iff b.api_key_hash a.api_key_hash,
  eq_iff a.webhook_id b.webhook_id,
  eq_iff b.webhook_id a.webhook_id,
  eq_iff a.agent_token_hash b.agent_token_hash,
  eq_iff b.agent_token_hash a.agent_token_hash,
)

-- The row of an id, if there is one.
abbrev pub row_of : String → List Tenant → Option Tenant
row_of id = find (λ t. str_eq t.id id)

pub id-row_of :
    (id : String) (ts : List Tenant) (row : Tenant) → row_of id ts ≡ some row → row.id ≡ id
id-row_of id [] row h = ground arith
id-row_of id (t ∷ ts) row h = ground (arith, id-row_of id ts row, eq_iff t.id id)

module _ (p : Tenant → Bool) where
  pub any-row_of :
      (id : String) (ts : List Tenant) (row : Tenant)
      → any p ts ≡ false
      → row_of id ts ≡ some row
      → p row ≡ false
  any-row_of id [] row h e = ground arith
  any-row_of id (t ∷ ts) row h e = ground (arith, any-row_of id ts row)

  any-others : (id : String) (ts : List Tenant) → any p ts ≡ false → any p (others id ts) ≡ false
  unfolding others
  any-others id [] h = refl
  any-others id (t ∷ ts) h = ground (arith, any-others id ts)

  any-set_row :
      (t : Tenant) (ts : List Tenant)
      → any p ts ≡ false
      → p t ≡ false
      → any p (set_row t ts) ≡ false
  unfolding set_row
  any-set_row t [] h k = refl
  any-set_row t (u ∷ ts) h k = ground (arith, any-set_row t ts)

-- In a table that meets the constraints a row is in conflict with no other.
row-others :
    (id : String) (ts : List Tenant) (row : Tenant)
    → Unique same_key ts
    → row_of id ts ≡ some row
    → any (same_key row) (others id ts) ≡ false
unfolding others
row-others id [] row v e = refl
row-others id (t ∷ ts) row (fresh, v) e = ground (
  arith,
  any-others (same_key row) id ts,
  row-others id ts row v,
  any-row_of (same_key t) id ts row fresh,
  same_key-IsSymmetric row t,
)

-- The columns under a unique constraint are the same in both rows.
pub record SameKeys (a b : Tenant) : Type 0 where
  pub id : a.id ≡ b.id
  pub email : a.email ≡ b.email
  pub api_key_hash : a.api_key_hash ≡ b.api_key_hash
  pub webhook_id : a.webhook_id ≡ b.webhook_id
  pub agent_token_hash : a.agent_token_hash ≡ b.agent_token_hash

same_key-SameKeys : (a b t : Tenant) → SameKeys a b → same_key a t ≡ same_key b t
unfolding same_key
same_key-SameKeys a b t s = rw (s.id, s.email, s.api_key_hash, s.webhook_id, s.agent_token_hash)

any-SameKeys :
    (a b : Tenant) (ts : List Tenant) → SameKeys a b → any (same_key a) ts ≡ any (same_key b) ts
any-SameKeys a b [] s = refl
any-SameKeys a b (t ∷ ts) s = cc (same_key-SameKeys a b t s, any-SameKeys a b ts s)

-- In a table that meets its constraints, an UPDATE of a row that is there which changes no unique
-- column succeeds, gives the changed row and puts it in the row's place.
pub save_keeps_keys :
    (id : String) (change : Tenant → Tenant) (db : Db) (row : Tenant)
    → Unique same_key db.tenants
    → row_of id db.tenants ≡ some row
    → SameKeys (change row) row
    → save id change db ≡ (ok (change row), record db { tenants = set_row (change row) db.tenants })
unfolding save
save_keeps_keys id change db row v e s =
    rw (e, any-SameKeys (change row) row (others id db.tenants) s, row-others id db.tenants row v e)

-- The row of an id after a write to that id, and after a write to another.
pub row_of-set_row :
    (id : String) (t : Tenant) (ts : List Tenant) (row : Tenant)
    → row_of id ts ≡ some row
    → t.id ≡ id
    → row_of id (set_row t ts) ≡ some t
unfolding set_row
row_of-set_row id t [] row e p = ground arith
row_of-set_row id t (u ∷ ts) row e p =
    ground (arith, row_of-set_row id t ts row, eq_iff u.id t.id, eq_iff u.id id, eq_iff t.id id)

pub row_of-set_row_ne :
    (id : String) (t : Tenant) (ts : List Tenant)
    → str_eq t.id id ≡ false
    → row_of id (set_row t ts) ≡ row_of id ts
unfolding set_row
row_of-set_row_ne id t [] p = refl
row_of-set_row_ne id t (u ∷ ts) p = ground (arith, row_of-set_row_ne id t ts, eq_iff u.id t.id)

module _ (t u : Tenant) (same : str_eq u.id t.id ≡ true) where
  set_row_absent : (ts : List Tenant) → any (same_key u) ts ≡ false → set_row t ts ≡ ts
  unfolding set_row same_key
  set_row_absent [] h = refl
  set_row_absent (x ∷ ts) h =
      ground (arith, set_row_absent ts, eq_iff x.id t.id, eq_iff u.id t.id, eq_iff u.id x.id)

  others_absent : (ts : List Tenant) → any (same_key u) ts ≡ false → others t.id ts ≡ ts
  unfolding others same_key
  others_absent [] h = refl
  others_absent (x ∷ ts) h =
      ground (arith, others_absent ts, eq_iff x.id t.id, eq_iff u.id t.id, eq_iff u.id x.id)

-- Replacing a row keeps the constraints, if the new row is in conflict with no other.
set_row-Unique :
    (t : Tenant) (ts : List Tenant)
    → Unique same_key ts
    → any (same_key t) (others t.id ts) ≡ false
    → Unique same_key (set_row t ts)
unfolding set_row others
set_row-Unique t [] v h = tt
set_row-Unique t (u ∷ ts) (fresh, v) h = elim (Bool-cases (str_eq u.id t.id)) [
  | inl same ↦
      rw (same, set_row_absent t u same ts fresh)
        (ground (arith, others_absent t u same ts fresh), v)
  | inr other ↦
      ground (
        arith,
        any-set_row (same_key u) t ts fresh,
        set_row-Unique t ts v,
        same_key-IsSymmetric t u,
      )
]

write_row-Unique :
    (id : String) (change : Tenant → Tenant) (db : Db) (found : Option Tenant)
    → ((row : Tenant) → found ≡ some row → (change row).id ≡ id)
    → Unique same_key db.tenants
    → Unique same_key (write_row id change db found).1.tenants
write_row-Unique id change db none keeps v = v
write_row-Unique id change db (some row) keeps v =
    elim (Bool-cases (any (same_key (change row)) (others id db.tenants))) [
      | inl clash ↦ rw clash v
      | inr free ↦ rw free (
          set_row-Unique (change row) db.tenants v
            (ap (λ k. any (same_key (change row)) (others k db.tenants)) (keeps row refl) ∙ free))
    ]

-- An UPDATE that leaves the id alone keeps the unique constraints of the tenants' table, whatever
-- else it changes and whether it succeeds or raises.
pub save-Unique :
    (id : String) (change : Tenant → Tenant) (db : Db)
    → ((t : Tenant) → (change t).id ≡ t.id)
    → Unique same_key db.tenants
    → Unique same_key (save id change db).1.tenants
unfolding save
save-Unique id change db keeps v =
    write_row-Unique id change db (row_of id db.tenants)
      (λ row e. keeps row ∙ id-row_of id db.tenants row e) v

-- ===== src/Storage/Trades/Listing.antt =====
-- What a page of a tenant's trades shows.
use mathlib.Core.List.{Perm, perm_middle}
use mathlib.Core.List.Perm
use dataveda_nifty_agent.Prelude.{
  Bool, not, ◌⊎◌, ◌++◌, ℕ, ◌≤◌, String, ◌≡◌, refl, ◌≢◌, List, [], ◌∷◌, arith, All, keep, take, drop,
  eq_iff, ltb, ltb→lt, Bool-cases, inl, inr,
}
use dataveda_nifty_agent.Storage.Models.{TradeLog, Db}
use dataveda_nifty_agent.Storage.Trades.{insert_newest, newest_first, shown, list_trades}

-- No row is older than one below it.
abbrev pub NewestFirst : List TradeLog → Type 0
NewestFirst [] = Unit
NewestFirst (r ∷ rs) = All (λ u. u.created_at ≤ r.created_at) rs × NewestFirst rs

abbrev pub IsShown : String → TradeLog → Type 0
IsShown tenant_id r = (r.tenant_id ≡ tenant_id) × (r.status ≢ "dispatched")

module _ (P : TradeLog → Type 0) where
  insert_newest-All :
      (t : TradeLog) (us : List TradeLog) → P t → All P us → All P (insert_newest t us)
  unfolding insert_newest
  insert_newest-All t [] p h = (p, tt)
  insert_newest-All t (u ∷ us) p (q, h) = ground (arith, insert_newest-All t us p h)

  newest_first-All : (ts : List TradeLog) → All P ts → All P (newest_first ts)
  unfolding newest_first
  newest_first-All [] h = tt
  newest_first-All (t ∷ ts) (p, h) = insert_newest-All t (newest_first ts) p (newest_first-All ts h)

-- A row of another tenant or a dispatched reservation.
abbrev pub IsHidden : String → TradeLog → Type 0
IsHidden tenant_id r = (r.tenant_id ≢ tenant_id) ⊎ (r.status ≡ "dispatched")

abbrev hidden : String → TradeLog → Bool
hidden tenant_id r = not (shown tenant_id r)

keep-All-shown : (id : String) (ts : List TradeLog) → All (IsShown id) (keep (shown id) ts)
unfolding shown
keep-All-shown id [] = tt
keep-All-shown id (t ∷ ts) =
    ground (arith, keep-All-shown id ts, eq_iff t.tenant_id id, eq_iff t.status "dispatched")

below_trans :
    (m n : ℕ) (ts : List TradeLog)
    → m ≤ n
    → All (λ u. u.created_at ≤ m) ts
    → All (λ u. u.created_at ≤ n) ts
below_trans m n [] h k = tt
below_trans m n (t ∷ ts) h (k, ks) = (omega arith, below_trans m n ts h ks)

insert_newest-NewestFirst :
    (t : TradeLog) (us : List TradeLog) → NewestFirst us → NewestFirst (insert_newest t us)
unfolding insert_newest
insert_newest-NewestFirst t [] h = (tt, tt)
insert_newest-NewestFirst t (u ∷ us) (below, h) =
    elim (Bool-cases (ltb t.created_at u.created_at)) [
      | inl older ↦ rw older (
        insert_newest-All (λ w. w.created_at ≤ u.created_at) t us
            (omega (arith, ltb→lt t.created_at u.created_at older)) below,
        insert_newest-NewestFirst t us h,
      )
      | inr newer ↦ rw newer (
        (
          ground (arith, newer),
          below_trans u.created_at t.created_at us (ground (arith, newer)) below,
        ),
        (below, h),
      )
    ]

newest_first-NewestFirst : (ts : List TradeLog) → NewestFirst (newest_first ts)
unfolding newest_first
newest_first-NewestFirst [] = tt
newest_first-NewestFirst (t ∷ ts) =
    insert_newest-NewestFirst t (newest_first ts) (newest_first-NewestFirst ts)

keep-All-hidden : (id : String) (ts : List TradeLog) → All (IsHidden id) (keep (hidden id) ts)
unfolding shown
keep-All-hidden id [] = tt
keep-All-hidden id (t ∷ ts) =
    ground (arith, keep-All-hidden id ts, eq_iff t.tenant_id id, eq_iff t.status "dispatched")

-- What a test keeps and what it drops are the whole list.
keep-Perm :
    (p : TradeLog → Bool) (ts : List TradeLog) → Perm (keep p ts ++ keep (λ t. not (p t)) ts) ts
keep-Perm p [] = Perm.nil
keep-Perm p (t ∷ ts) = elim (Bool-cases (p t)) [
  | inl kept ↦ rw kept (Perm.cons t (keep-Perm p ts))
  | inr dropped ↦ rw dropped (Perm.trans (perm_middle (keep p ts) _) (Perm.cons t (keep-Perm p ts)))
]

insert_newest-Perm : (t : TradeLog) (us : List TradeLog) → Perm (insert_newest t us) (t ∷ us)
unfolding insert_newest
insert_newest-Perm t [] = Perm.rfl
insert_newest-Perm t (u ∷ us) = elim (Bool-cases (ltb t.created_at u.created_at)) [
  | inl older ↦ rw older (Perm.trans (Perm.cons u (insert_newest-Perm t us)) (Perm.swap t u us))
  | inr newer ↦ rw newer Perm.rfl
]

newest_first-Perm : (ts : List TradeLog) → Perm (newest_first ts) ts
unfolding newest_first
newest_first-Perm [] = Perm.nil
newest_first-Perm (t ∷ ts) =
    Perm.trans (insert_newest-Perm t (newest_first ts)) (Perm.cons t (newest_first-Perm ts))

-- The page is cut from an order of the tenant's rows: newest first, and with the rows that are not
-- shown the log.
abbrev pub PageOf : String → ℕ → ℕ → Db → List TradeLog → Type 0
PageOf tenant_id limit offset db page =
    (rows : List TradeLog) × (rest : List TradeLog) × Perm (rows ++ rest) db.trades
    × All (IsShown tenant_id) rows
    × All (IsHidden tenant_id) rest
    × NewestFirst rows
    × (page ≡ take limit (drop offset rows))

-- There is an order of a tenant's rows, newest first, from which a page is cut: offset rows are
-- left out and at most limit rows taken. These rows are all of the log's that are the tenant's and
-- not dispatched reservations, each as often as the log has it.
pub list_trades-PageOf :
    (tenant_id : String) (limit offset : ℕ) (db : Db)
    → PageOf tenant_id limit offset db (list_trades tenant_id limit offset db)
unfolding list_trades
list_trades-PageOf tenant_id limit offset db =
    let rows = keep (shown tenant_id) db.trades in
    (
      newest_first rows,
      keep (hidden tenant_id) db.trades,
      Perm.trans (Perm.append_right _ (newest_first-Perm rows))
          (keep-Perm (shown tenant_id) db.trades),
      newest_first-All (IsShown tenant_id) rows (keep-All-shown tenant_id db.trades),
      keep-All-hidden tenant_id db.trades,
      newest_first-NewestFirst rows,
      refl,
    )

-- ===== src/Storage/Columns/Settled.antt =====
-- An UPDATE of a row that nobody wrote since it was read.
use dataveda_nifty_agent.Prelude.{
  String, ◌≡◌, refl, sym, ap, Bool, true, false, ◌&&◌, none, some, [], ◌∷◌, arith, ==_iff, ◌==◌,
  eq_iff, str_eq, Bool-cases, inl, inr,
}
use dataveda_nifty_agent.Python.Float.{pos, negsuc, leb_ℤ, finite, plus_inf, minus_inf, nan, le}
use dataveda_nifty_agent.Python.Dict.{Dict}
use dataveda_nifty_agent.Storage.Models.{Tenant}
use dataveda_nifty_agent.Storage.Columns.{
  bool_eq, option_eq, list_eq, dict_eq, float_eq, settings_eq, column, update_columns,
}

-- Values that the test takes for equal are the same.
abbrev IsSound {ℓ} : {A : Type ℓ} → (A → A → Bool) → Type ℓ
IsSound {A = A} eq = (a b : A) → eq a b ≡ true → a ≡ b

module _ {ℓ} {A : Type ℓ} (eq : A → A → Bool) (sound : IsSound eq) where
  column-IsSound : (was set : A) → column eq was set was ≡ set
  column-IsSound was set = elim (Bool-cases (eq set was)) [
    | inl same ↦ rw same (sym (sound set was same))
    | inr other ↦ rw other refl
  ]

  option_eq-IsSound : IsSound (option_eq eq)
  option_eq-IsSound none none h = refl
  option_eq-IsSound none (some b) h = ground arith
  option_eq-IsSound (some a) none h = ground arith
  option_eq-IsSound (some a) (some b) h = ap (λ x. some x) (sound a b h)

  list_eq-IsSound : IsSound (list_eq eq)
  unfolding list_eq
  list_eq-IsSound [] [] h = refl
  list_eq-IsSound [] (b ∷ bs) h = ground arith
  list_eq-IsSound (a ∷ xs) [] h = ground arith
  list_eq-IsSound (a ∷ xs) (b ∷ bs) h = ground (arith, sound a b, list_eq-IsSound xs bs)

str_eq-IsSound : IsSound str_eq
str_eq-IsSound a b h = (eq_iff a b).0 h

bool_eq-IsSound : IsSound bool_eq
bool_eq-IsSound true true h = refl
bool_eq-IsSound true false h = ground arith
bool_eq-IsSound false true h = ground arith
bool_eq-IsSound false false h = refl

nat_eq-IsSound : IsSound ◌==◌
nat_eq-IsSound a b h = (==_iff a b).0 h

whole_eq-IsSound : IsSound (λ a b. leb_ℤ a b && leb_ℤ b a)
whole_eq-IsSound (pos m) (pos n) h = ground arith
whole_eq-IsSound (pos m) (negsuc n) h = ground arith
whole_eq-IsSound (negsuc m) (pos n) h = ground arith
whole_eq-IsSound (negsuc m) (negsuc n) h = ground arith

float_eq-IsSound : IsSound float_eq
unfolding le
float_eq-IsSound (finite a) (finite b) h = ap finite (whole_eq-IsSound a b h)
float_eq-IsSound (finite a) plus_inf h = ground arith
float_eq-IsSound (finite a) minus_inf h = ground arith
float_eq-IsSound (finite a) nan h = ground arith
float_eq-IsSound plus_inf (finite b) h = ground arith
float_eq-IsSound plus_inf plus_inf h = refl
float_eq-IsSound plus_inf minus_inf h = ground arith
float_eq-IsSound plus_inf nan h = ground arith
float_eq-IsSound minus_inf (finite b) h = ground arith
float_eq-IsSound minus_inf plus_inf h = ground arith
float_eq-IsSound minus_inf minus_inf h = refl
float_eq-IsSound minus_inf nan h = ground arith
float_eq-IsSound nan b h = ground arith

settings_eq-IsSound : IsSound settings_eq
settings_eq-IsSound a b h =
    let q : a.max_qty_per_order ≡ b.max_qty_per_order =
      option_eq-IsSound float_eq float_eq-IsSound _ _ (ground arith) in
    let l : a.max_daily_loss ≡ b.max_daily_loss =
      option_eq-IsSound float_eq float_eq-IsSound _ _ (ground arith) in
    let s : a.allowed_symbols ≡ b.allowed_symbols =
      option_eq-IsSound (list_eq str_eq) (list_eq-IsSound str_eq str_eq-IsSound) _ _
        (ground arith) in
    λ i. record { max_qty_per_order = q i; max_daily_loss = l i; allowed_symbols = s i }

map_settles :
    (was set : Dict String)
    → (dict_eq set was ≡ true → set ≡ was)
    → column dict_eq was set was ≡ set
map_settles was set h = elim (Bool-cases (dict_eq set was)) [
  | inl same ↦ rw same (sym (h same))
  | inr other ↦ rw other refl
]

-- The stored row becomes the row that was set.
pub update_settles :
    (was set : Tenant)
    → (dict_eq set.symbol_map was.symbol_map ≡ true → set.symbol_map ≡ was.symbol_map)
    → update_columns was set was ≡ record set {
      id = was.id;
      email = was.email;
      webhook_id = was.webhook_id;
      plan = was.plan;
      created_at = was.created_at;
    }
unfolding update_columns
update_settles was set h =
    let text = column-IsSound str_eq str_eq-IsSound in
    λ i. record was {
      api_key_hash = text was.api_key_hash set.api_key_hash i;
      webhook_passphrase_hash = text was.webhook_passphrase_hash set.webhook_passphrase_hash i;
      agent_token_hash = text was.agent_token_hash set.agent_token_hash i;
      symbol_map = map_settles was.symbol_map set.symbol_map h i;
      risk_settings =
          column-IsSound settings_eq settings_eq-IsSound was.risk_settings set.risk_settings i;
      kill_switch_engaged =
          column-IsSound bool_eq bool_eq-IsSound was.kill_switch_engaged set.kill_switch_engaged i;
      kill_switch_reason = text was.kill_switch_reason set.kill_switch_reason i;
      subscription_expires_at =
          column-IsSound (option_eq ◌==◌) (option_eq-IsSound ◌==◌ nat_eq-IsSound)
            was.subscription_expires_at set.subscription_expires_at i;
    }

-- ===== src/Api/Bodies/Limits.antt =====
-- app/main.py: a PUT of risk settings, from the JSON that names some of them to the account's row.
use dataveda_nifty_agent.Prelude.{
  String, ◌≡◌, ◌≢◌, ◌⊎◌, inl, inr, arith, refl, Option, none, some, List, [], ◌∷◌,
}
use dataveda_nifty_agent.Python.Float.{Float}
use dataveda_nifty_agent.Python.Json.{
  Json, float, str, arr, obj, Items, nil, cons, Fields, end, field, get_field,
}
use dataveda_nifty_agent.Runtime.{Runtime}
use dataveda_nifty_agent.Storage.Models.{RiskSettings, Tenant, Db}
use dataveda_nifty_agent.Storage.Action.{ok, Result}
use dataveda_nifty_agent.Storage.Tenants.{set_row}
use dataveda_nifty_agent.Storage.Settings.{update_risk_settings}
use dataveda_nifty_agent.Storage.Tenants.Save.{row_of, save_keeps_keys, SameKeys}
use dataveda_nifty_agent.Api.Auth.{Settings, get_current_tenant}
use dataveda_nifty_agent.Api.Account.{or_old, merge_settings, put_risk_settings}
use dataveda_nifty_agent.Api.Server.{Response, limited, respond_me}
use dataveda_nifty_agent.Api.Server.Valid.{DbValid}
use dataveda_nifty_agent.Api.Server.Halts.{current_row}
use dataveda_nifty_agent.Api.Bodies.Receive.{for_risk_settings, receive}
use dataveda_nifty_agent.Api.Bodies.{read_items, read_risk_settings}

-- The JSON of risk settings: a key that is not there is left out.
abbrev items_json : List String → Items
items_json [] = nil
items_json (s ∷ ss) = cons (str s) (items_json ss)

abbrev shown {ℓ} : {A : Type ℓ} → String → (A → Json) → Option A → Fields → Fields
shown key json none rest = rest
shown key json (some a) rest = field key (json a) rest

abbrev pub settings_json : RiskSettings → Fields
settings_json s = shown "max_qty_per_order" float s.max_qty_per_order (
    shown "max_daily_loss" float s.max_daily_loss
      (shown "allowed_symbols" (λ ss. arr (items_json ss)) s.allowed_symbols end))

module _ (rt : Runtime) (texts : (s : String) → rt.as_text (str s) ≡ some s)
    (floats : (x : Float) → rt.as_float (float x) ≡ some x) where
  items_read : (ss : List String) → read_items rt (items_json ss) ≡ some ss
  unfolding read_items
  items_read [] = refl
  items_read (s ∷ ss) = rw (texts s, items_read ss) refl

  pub read-settings_json : (s : RiskSettings) → read_risk_settings rt (settings_json s) ≡ some s
  unfolding read_risk_settings get_field
  read-settings_json s = read_shown s.max_qty_per_order s.max_daily_loss s.allowed_symbols
    where
      read_shown :
          (q l : Option Float) (ss : Option (List String))
          → read_risk_settings rt (
              settings_json
                (record { max_qty_per_order = q; max_daily_loss = l; allowed_symbols = ss }))
            ≡ some (record { max_qty_per_order = q; max_daily_loss = l; allowed_symbols = ss })
      read_shown none none none = refl
      read_shown none none (some ss) = rw (items_read ss) refl
      read_shown none (some l) none = rw (floats l) refl
      read_shown none (some l) (some ss) = rw (floats l, items_read ss) refl
      read_shown (some q) none none = rw (floats q) refl
      read_shown (some q) none (some ss) = rw (floats q, items_read ss) refl
      read_shown (some q) (some l) none = rw (floats q, floats l) refl
      read_shown (some q) (some l) (some ss) = rw (floats q, floats l, items_read ss) refl

-- A limit that is named is the new one, and one that is not stays as it was.
abbrev pub Kept {ℓ} : {A : Type ℓ} → (old asked now : Option A) → Type ℓ
Kept old asked now = ((asked ≡ none) × (now ≡ old)) ⊎ ((asked ≢ none) × (now ≡ asked))

or_old-Kept {ℓ} : {A : Type ℓ} (old asked : Option A) → Kept old asked (or_old asked old)
or_old-Kept old none = inl (refl, refl)
or_old-Kept old (some a) = inr (λ e. ground (arith, e), refl)

pub record IsUpdated (old asked now : RiskSettings) : Type 0 where
  pub max_qty_per_order : Kept old.max_qty_per_order asked.max_qty_per_order now.max_qty_per_order
  pub max_daily_loss : Kept old.max_daily_loss asked.max_daily_loss now.max_daily_loss
  pub allowed_symbols : Kept old.allowed_symbols asked.allowed_symbols now.allowed_symbols

merge_settings-IsUpdated :
    (old asked : RiskSettings) → IsUpdated old asked (merge_settings old asked)
unfolding merge_settings
merge_settings-IsUpdated old asked = record {
  max_qty_per_order = or_old-Kept old.max_qty_per_order asked.max_qty_per_order;
  max_daily_loss = or_old-Kept old.max_daily_loss asked.max_daily_loss;
  allowed_symbols = or_old-Kept old.allowed_symbols asked.allowed_symbols;
}

abbrev pub with_limits : RiskSettings → Tenant → Tenant
with_limits s u = record u { risk_settings = s }

pub with_limits-SameKeys : (s : RiskSettings) (t : Tenant) → SameKeys (with_limits s t) t
with_limits-SameKeys s t = record {
  id = refl;
  email = refl;
  api_key_hash = refl;
  webhook_id = refl;
  agent_token_hash = refl;
}

-- The answer shows the limits of the update, and they are the only change: of the account's row.
abbrev pub PutLimits : Tenant → RiskSettings → Db → Result Response × Db → Type 0
PutLimits t asked db outcome =
    (now : RiskSettings) × IsUpdated t.risk_settings asked now
    × (outcome ≡ (ok (limited now), record db { tenants = set_row (with_limits now t) db.tenants }))

module _ (rt : Runtime) (settings : Settings) where
  -- Where pydantic reads texts and floats as they are: in a valid database, a customer's request
  -- to /me/risk-settings whose JSON names any of the limits is answered with the limits that it
  -- names and, for the others, those that the account had; the database is as before but for these
  -- limits in the account's row.
  pub risk_settings-PutLimits :
      ((s : String) → rt.as_text (str s) ≡ some s)
      → ((x : Float) → rt.as_float (float x) ≡ some x)
      → (authorization : String) (t : Tenant) (asked : RiskSettings) (db : Db) → DbValid db
      → get_current_tenant rt authorization db ≡ (ok t, db)
      → PutLimits t asked db (
          receive rt settings
            (for_risk_settings authorization)
            (some (obj (settings_json asked)))
            db)
  unfolding receive respond_me put_risk_settings update_risk_settings
  risk_settings-PutLimits texts floats authorization t asked db v found =
      let row : row_of t.id db.tenants ≡ some t =
        current_row rt authorization db t v.accounts found in
      let now = merge_settings t.risk_settings asked in
      (
        now,
        merge_settings-IsUpdated t.risk_settings asked,
        rw
            (
              found,
              read-settings_json rt texts floats asked,
              save_keeps_keys t.id (with_limits now) db t v.accounts row
                  (with_limits-SameKeys now t),
            )
            refl,
      )

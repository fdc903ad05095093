-- ===== src/Storage/Columns.antt =====
-- app/storage/repository.py with other sessions at work between the read of a row and the commit:
-- SQLAlchemy's UPDATE writes the columns whose value is not that which the session read, and the
-- refresh after it reads the row as it is stored by then.
pub mod Settled
use dataveda_nifty_agent.Prelude.{
  ℕ, String, Bool, true, false, ◌&&◌, not, Option, none, some, List, [], ◌∷◌, any, find, ◌==◌,
  str_eq, length, if◌then◌else◌,
}
use dataveda_nifty_agent.Python.Float.{Float, le}
use dataveda_nifty_agent.Python.Dict.{Dict, get}
use dataveda_nifty_agent.Storage.Models.{RiskSettings, Tenant}
use dataveda_nifty_agent.Storage.Action.{Action, ok, raised, stale_data, Result}
use dataveda_nifty_agent.Storage.Tenants.{save}

-- Python's == on the columns' values.
abbrev pub bool_eq : Bool → Bool → Bool
bool_eq true b = b
bool_eq false b = not b

abbrev pub option_eq {ℓ} : {A : Type ℓ} → (A → A → Bool) → Option A → Option A → Bool
option_eq eq none none = true
option_eq eq (some a) (some b) = eq a b
option_eq eq _ _ = false

unfoldable pub list_eq {ℓ} : {A : Type ℓ} → (A → A → Bool) → List A → List A → Bool
list_eq eq [] [] = true
list_eq eq (x ∷ xs) (y ∷ ys) = eq x y && list_eq eq xs ys
list_eq eq _ _ = false

-- The order of the keys does not count.
unfoldable pub dict_eq : Dict String → Dict String → Bool
dict_eq d e =
    length d == length e && not (any (λ (k, v). not (option_eq str_eq (get k e) (some v))) d)

abbrev pub float_eq : Float → Float → Bool
float_eq a b = le a b && le b a

abbrev pub settings_eq : RiskSettings → RiskSettings → Bool
settings_eq a b =
    option_eq float_eq a.max_qty_per_order b.max_qty_per_order
    && option_eq float_eq a.max_daily_loss b.max_daily_loss
    && option_eq (list_eq str_eq) a.allowed_symbols b.allowed_symbols

abbrev the_row : Option Tenant → Result Tenant
the_row none = raised stale_data
the_row (some row) = ok row

-- A column of the stored row, where `was` is what the session read and `set` what it has now.
abbrev pub column {ℓ} : {A : Type ℓ} → (A → A → Bool) → A → A → A → A
column eq was set stored = if eq set was then stored else set

-- The row after the UPDATE. (No code sets one of the other columns.)
unfoldable pub update_columns : Tenant → Tenant → Tenant → Tenant
update_columns was set stored = record stored {
  api_key_hash = column str_eq was.api_key_hash set.api_key_hash stored.api_key_hash;
  webhook_passphrase_hash =
      column str_eq was.webhook_passphrase_hash set.webhook_passphrase_hash
        stored.webhook_passphrase_hash;
  agent_token_hash =
      column str_eq was.agent_token_hash set.agent_token_hash stored.agent_token_hash;
  symbol_map = column dict_eq was.symbol_map set.symbol_map stored.symbol_map;
  risk_settings = column settings_eq was.risk_settings set.risk_settings stored.risk_settings;
  kill_switch_engaged =
      column bool_eq was.kill_switch_engaged set.kill_switch_engaged stored.kill_switch_engaged;
  kill_switch_reason =
      column str_eq was.kill_switch_reason set.kill_switch_reason stored.kill_switch_reason;
  subscription_expires_at =
      column (option_eq ◌==◌) was.subscription_expires_at set.subscription_expires_at
        stored.subscription_expires_at;
}

-- commit(), for a row that was read as `was` and whose attributes are those of `set`.
unfoldable pub commit : Tenant → Tenant → Action Tenant
unfolding save update_columns
commit was set = save was.id (update_columns was set)

-- refresh(tenant)
unfoldable pub refresh : String → Action Tenant
refresh id db = (the_row (find (λ t. str_eq t.id id) db.tenants), db)

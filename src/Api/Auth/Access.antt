-- ===== src/Api/Auth/Access.antt =====
-- app/main.py: whom the administrator's key lets in.
use dataveda_nifty_agent.Prelude.{ap, String, ◌≡◌, refl, ◌≢◌, ◌↔◌, ◌⊎◌, true, arith, eq_iff}
use Prim.Native.String.{[], ◌∷◌}
use dataveda_nifty_agent.Python.Text.{nonempty}
use dataveda_nifty_agent.Security.{passphrase_matches}
use dataveda_nifty_agent.Storage.Models.{Db}
use dataveda_nifty_agent.Storage.Action.{ok, raised, http}
use dataveda_nifty_agent.Api.Auth.{Settings, get_current_admin}

nonempty_ne : (s : String) → s ≢ "" → nonempty s ≡ true
nonempty_ne [] h = absurd (h refl)
nonempty_ne (c ∷ s) h = refl

-- A request passes as the administrator's, without a change of the database, exactly if an
-- administrator's key is set and the request has that key.
pub get_current_admin-ok_iff :
    (settings : Settings) (key : String) (db : Db)
    → (get_current_admin settings key db ≡ (ok tt, db))
      ↔ ((settings.admin_api_key ≢ "") × (key ≡ settings.admin_api_key))
unfolding get_current_admin passphrase_matches
get_current_admin-ok_iff settings key db = (
  λ h. (λ e. ground (arith, ap nonempty e), ground (arith, eq_iff key settings.admin_api_key)),
  λ h. ground (arith, eq_iff key settings.admin_api_key, nonempty_ne settings.admin_api_key h.0),
)

pub get_current_admin_cases :
    (settings : Settings) (key : String) (db : Db)
    → (get_current_admin settings key db ≡ (ok tt, db))
      ⊎ (get_current_admin settings key db ≡ (raised (http 401), db))
unfolding get_current_admin
get_current_admin_cases settings key db = ground arith

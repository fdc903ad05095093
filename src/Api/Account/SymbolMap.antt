-- ===== src/Api/Account/SymbolMap.antt =====
-- What a customer's symbol map holds after an update.
use dataveda_nifty_agent.Prelude.{
  String, ◌≡◌, refl, Option, none, some, [], ◌∷◌, str_eq, if◌then◌else◌,
}
use dataveda_nifty_agent.Python.Dict.{Dict, get, put, get-put}
use dataveda_nifty_agent.Python.Text.{strip}
use dataveda_nifty_agent.Runtime.{Runtime}
use dataveda_nifty_agent.Models.Signal.{upper_symbol}
use dataveda_nifty_agent.Api.Account.{normalize_map}

module _ (rt : Runtime) (symbol : String) where
  -- The last entry whose symbol, stripped and in upper case, is this one.
  abbrev pub last_entry : Option String → Dict String → Option String
  last_entry found [] = found
  last_entry found ((k, v) ∷ rest) =
      last_entry (if str_eq symbol (upper_symbol rt k) then some (strip v) else found) rest

  get-normalize_map_from :
      (done payload : Dict String)
      → get symbol (normalize_map rt done payload) ≡ last_entry (get symbol done) payload
  unfolding normalize_map
  get-normalize_map_from done [] = refl
  get-normalize_map_from done ((k, v) ∷ rest) =
      rw (get-normalize_map_from (put (upper_symbol rt k) (strip v) done) rest)
        (rw (get-put (upper_symbol rt k) symbol (strip v) done) refl)

  -- The normalized symbol map has for a symbol the stripped name of the last entry of the payload
  -- whose symbol, stripped and in upper case, is that symbol, and none where there is no such
  -- entry.
  pub get-normalize_map :
      (payload : Dict String) → get symbol (normalize_map rt [] payload) ≡ last_entry none payload
  unfolding get
  get-normalize_map payload = get-normalize_map_from [] payload

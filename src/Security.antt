-- ===== src/Security.antt =====
-- app/security/auth.py. The parsing of addresses and networks is that of `ipaddress`, a parameter.
pub mod Allowed
use text.Mathlib.Text.{find?}
use dataveda_nifty_agent.Prelude.{
  String, Bool, true, false, Option, none, some, List, [], ◌∷◌, str_eq, if◌then◌else◌,
}

-- hmac.compare_digest of the two encodings: equality.
unfoldable pub passphrase_matches : String → String → Bool
passphrase_matches provided expected = str_eq provided expected

-- `ipaddress`: `none` where it raises ValueError.
pub record Addresses : Type 1 where
  pub Ip : Type 0
  pub Network : Type 0
  pub ip_address : String → Option Ip
  pub ip_network : String → Option Network
  pub same_ip : Ip → Ip → Bool
  pub contains : Network → Ip → Bool

-- "/" in entry
unfoldable pub is_network : String → Bool
is_network entry = elim (find? entry "/") [ none ↦ false | some _ ↦ true ]

module _ (a : Addresses) where
  open a use {Ip, Network, ip_address, ip_network, same_ip, contains}

  abbrev in_network : Ip → Option Network → Bool
  in_network client none = false
  in_network client (some n) = contains n client

  abbrev is_ip : Ip → Option Ip → Bool
  is_ip client none = false
  is_ip client (some ip) = same_ip client ip

  -- One entry; one that does not parse is skipped.
  unfoldable pub entry_allows : Ip → String → Bool
  entry_allows client entry =
      if is_network entry
      then in_network client (ip_network entry)
      else is_ip client (ip_address entry)

  -- The loop over the entries.
  unfoldable pub some_allows : Ip → List String → Bool
  unfolding entry_allows
  some_allows client [] = false
  some_allows client (entry ∷ rest) =
      let later = some_allows client rest in if entry_allows client entry then true else later

  abbrev pub client_allowed : Option Ip → List String → Bool
  client_allowed none allowed_ips = false
  client_allowed (some client) allowed_ips = some_allows client allowed_ips

  unfoldable pub ip_allowed : String → List String → Bool
  unfolding some_allows
  ip_allowed client_ip [] = true
  ip_allowed client_ip (entry ∷ rest) = client_allowed (ip_address client_ip) (entry ∷ rest)

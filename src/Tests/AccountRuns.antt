-- ===== src/Tests/AccountRuns.antt =====
-- Accounts: signing up, rotated secrets, trades, addresses and symbols.
use dataveda_nifty_agent.Prelude.{
  ◌≡◌, ◌≢◌, String, false, some, none, [], ◌∷◌, str_eq, arith, eq_iff,
}
use dataveda_nifty_agent.Python.Dict.{get}
use dataveda_nifty_agent.Storage.Models.{Tenant, Db}
use dataveda_nifty_agent.Storage.Tenants.{Draws, Secrets, new_tenant}
use dataveda_nifty_agent.Storage.Credentials.{ResetDraws}
use dataveda_nifty_agent.Storage.Trades.{list_trades}
use dataveda_nifty_agent.Storage.Trades.Listing.{PageOf, list_trades-PageOf}
use dataveda_nifty_agent.Security.{Addresses}
use dataveda_nifty_agent.Api.Account.{normalize_map}
use dataveda_nifty_agent.Api.Account.SymbolMap.{last_entry, get-normalize_map}
use dataveda_nifty_agent.Tests.Data.{rt, tenant, db, row}

abbrev drawn : Draws
drawn = record {
  api_key = "k2";
  webhook_id = "w2";
  webhook_passphrase = "p2";
  agent_token = "a2";
  tenant_id = "2";
}

abbrev secrets : Secrets
secrets = record {
  api_key = "sk_live_k2";
  webhook_id = "w2";
  webhook_passphrase = "p2";
  agent_token = "agent_a2";
}

abbrev created : Tenant
created = new_tenant rt "b@example.org" drawn 20

abbrev with_created : Db
with_created = record db { tenants = tenant ∷ created ∷ [] }

abbrev new_secrets : ResetDraws
new_secrets = record { api_key = "3"; webhook_passphrase = "p3"; agent_token = "3" }

abbrev reset : Tenant
reset = record tenant {
  api_key_hash = "hash of sk_live_3";
  webhook_passphrase_hash = "hash of p3";
  agent_token_hash = "hash of agent_3";
}

abbrev shown_secrets : ResetDraws
shown_secrets = record { api_key = "sk_live_3"; webhook_passphrase = "p3"; agent_token = "agent_3" }

differs : (a b : String) → str_eq a b ≡ false → a ≢ b
differs a b h e = ground (arith, eq_iff a b)

abbrev logged : Db
logged = record db {
  trades =
      row "sig1"
      ∷ record (row "sig2") { status = "rejected"; created_at = 8 }
      ∷ record (row "sig3") { status = "accepted"; created_at = 9 }
      ∷ [];
}

list_trades-PageOf_example : PageOf "ten_1" 1 0 logged (list_trades "ten_1" 1 0 logged)
list_trades-PageOf_example = list_trades-PageOf "ten_1" 1 0 logged

-- Every text is an address and a network of its own.
abbrev addresses : Addresses
addresses = record {
  Ip = String;
  Network = String;
  ip_address = λ s. some s;
  ip_network = λ s. some s;
  same_ip = str_eq;
  contains = str_eq;
}

get-normalize_map_example :
    get "EURUSD" (normalize_map rt [] ((" eurusd", "A ") ∷ ("EURUSD", "B") ∷ []))
    ≡ last_entry rt "EURUSD" none ((" eurusd", "A ") ∷ ("EURUSD", "B") ∷ [])
get-normalize_map_example = get-normalize_map rt "EURUSD" ((" eurusd", "A ") ∷ ("EURUSD", "B") ∷ [])

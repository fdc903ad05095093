-- ===== src/Security/Allowed.antt =====
-- When a list of addresses lets a client in.
use mathlib.Core.Path.{subst, sym}
use mathlib.Core.Option.{some-injective}
use dataveda_nifty_agent.Prelude.{
  String, ◌≡◌, refl, ◌⊎◌, ◌↔◌, inl, inr, true, false, Option, none, some, List, [], ◌∷◌, arith,
  Bool-cases, Option-cases,
}
use dataveda_nifty_agent.Security.{
  Addresses, is_network, entry_allows, some_allows, client_allowed, ip_allowed,
}

module _ (a : Addresses) where
  open a use {Ip, Network, ip_address, ip_network, same_ip, contains}

  -- An entry that lets a client in: a network that holds it, or its own address.
  abbrev pub LetsIn : Ip → String → Type 0
  LetsIn client entry =
      ((is_network entry ≡ true)
        × ((n : Network) × (ip_network entry ≡ some n) × (contains n client ≡ true)))
      ⊎ ((is_network entry ≡ false)
          × ((ip : Ip) × (ip_address entry ≡ some ip) × (same_ip client ip ≡ true)))

  abbrev pub Some : Ip → List String → Type 0
  Some client [] = ⊥
  Some client (entry ∷ rest) = LetsIn client entry ⊎ Some client rest

  entry_allows_iff :
      (client : Ip) (entry : String) → (entry_allows a client entry ≡ true) ↔ LetsIn client entry
  unfolding entry_allows
  entry_allows_iff client entry = elim (Bool-cases (is_network entry)) [
    | inl network ↦ elim (Option-cases (ip_network entry)) [
      | inl e ↦ (λ h. ground (arith, h, network, e), λ h. ground (arith, h, network, e))
      | inr (n, e) ↦ (
        λ h. inl (network, (n, e, ground (arith, h, network, e))),
        λ h. ground (arith, h, network, e),
      )
    ]
    | inr single ↦ elim (Option-cases (ip_address entry)) [
      | inl e ↦ (λ h. ground (arith, h, single, e), λ h. ground (arith, h, single, e))
      | inr (ip, e) ↦ (
        λ h. inr (single, (ip, e, ground (arith, h, single, e))),
        λ h. ground (arith, h, single, e),
      )
    ]
  ]

  some_allows_iff :
      (client : Ip) (entries : List String)
      → (some_allows a client entries ≡ true) ↔ Some client entries
  unfolding some_allows
  some_allows_iff client [] = (λ h. cc, λ h. absurd h)
  some_allows_iff client (entry ∷ rest) = elim (Bool-cases (entry_allows a client entry)) [
    | inl lets ↦ (λ h. inl ((entry_allows_iff client entry).0 lets), λ h. rw lets refl)
    | inr keeps_out ↦ (
      λ h. inr ((some_allows_iff client rest).0 (ground (arith, h, keeps_out))),
      λ h. elim h [
        | inl e ↦ rw ((entry_allows_iff client entry).1 e) refl
        | inr r ↦ rw keeps_out ((some_allows_iff client rest).1 r)
      ],
    )
  ]

  client_allowed_iff :
      (o : Option Ip) (entries : List String)
      → (client_allowed a o entries ≡ true)
        ↔ ((client : Ip) × (o ≡ some client) × Some client entries)
  client_allowed_iff none entries = (λ h. cc, λ h. cc (h.1))
  client_allowed_iff (some client) entries = (
    λ h. (client, refl, (some_allows_iff client entries).0 h),
    λ (other, e, h).
        (some_allows_iff client entries).1
          (subst (λ (c : Ip). Some c entries) (sym (some-injective _ _ e)) h),
  )

  -- A client is allowed exactly if the list of entries is empty, or the client's address parses
  -- and some entry is a network that parses and holds it or an address that parses and is it.
  pub ip_allowed_iff :
      (client_ip : String) (entries : List String)
      → (ip_allowed a client_ip entries ≡ true) ↔ (
          (entries ≡ [])
          ⊎ ((client : Ip) × (ip_address client_ip ≡ some client) × Some client entries))
  unfolding ip_allowed
  ip_allowed_iff client_ip [] = (λ h. inl refl, λ h. refl)
  ip_allowed_iff client_ip (entry ∷ rest) =
      let allowed = client_allowed_iff (ip_address client_ip) (entry ∷ rest) in
      (λ h. inr (allowed.0 h), λ h. elim h [ inl nothing ↦ cc | inr found ↦ allowed.1 found ])

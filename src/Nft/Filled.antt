-- ===== src/Nft/Filled.antt =====
-- `wgaSync` writes the deprecated address into the list of addresses of the configuration that
-- `nftSync` gets after it.
use wga.Base.{
  Bool, none, some, Option, List, [], ◌∷◌, ◌≡◌, inl, inr, Bytes, Bool-cases, refl, ap, Outcome, ok,
  err, panic, is_empty, ◌>>=◌, ◌∙◌, Assoc,
}
use wga.Net.{IpNet}
use wga.Api.{WireguardAccessPeer, WireguardAccessPeerStatus, FetchedConfig}
use wga.PeerSync.{status_addresses}
use wga.Nft.{
  Answers, Table, Chain, NftRule, Progress, nft_sync, chain_sync, rules_sync, finish_sync,
  peers_step, peer_step, rule_destinations, addresses_step, rule_map,
}

-- `if len(peer.Status.Addresses) == 0 { ... }`, which writes through the shared pointer
unfoldable pub fill_status : Option WireguardAccessPeerStatus → Option WireguardAccessPeerStatus
unfolding status_addresses
fill_status none = none
fill_status (some status) = some (record status { addresses = status_addresses status })

unfoldable pub fill_peers : List WireguardAccessPeer → List WireguardAccessPeer
unfolding fill_status
fill_peers [] = []
fill_peers (peer ∷ peers) = record peer { status = fill_status peer.status } ∷ fill_peers peers

-- The configuration after `wgaSync`
unfoldable pub fill : FetchedConfig → FetchedConfig
unfolding fill_peers
fill config = record config { peers = fill_peers config.peers }

status_addresses_idem :
    (status : WireguardAccessPeerStatus)
    → status_addresses (record status { addresses = status_addresses status })
      ≡ status_addresses status
unfolding status_addresses
status_addresses_idem status = elim (Bool-cases (is_empty status.addresses)) [
  | inl e ↦ simp e
  | inr e ↦ simp e
]

module _ (runs : List Bytes → Bool) (table chain : Bytes) (dests : Assoc (List IpNet)) where
  peer_step-fill_status :
      (names : List Bytes) (o : Option WireguardAccessPeerStatus) (st : Progress)
      → peer_step runs table chain dests names (fill_status o) st
        ≡ peer_step runs table chain dests names o st
  unfolding peer_step fill_status
  peer_step-fill_status names none st = refl
  peer_step-fill_status names (some status) st =
      ap (λ addrs. addresses_step runs table chain dests names status.dns st addrs)
        (status_addresses_idem status)

  peers_step-fill_peers :
      (peers : List WireguardAccessPeer) (st : Progress)
      → peers_step runs table chain dests st (fill_peers peers)
        ≡ peers_step runs table chain dests st peers
  unfolding peers_step fill_peers
  peers_step-fill_peers [] st = refl
  peers_step-fill_peers (peer ∷ peers) st =
      ap (λ s. peers_step runs table chain dests s (fill_peers peers))
        (peer_step-fill_status peer.spec.access_rules peer.status st)
      ∙ peers_step-fill_peers peers
          (peer_step runs table chain dests peer.spec.access_rules peer.status st)

>>=-same :
    {A B : Type 0} (m : Outcome A) (f g : A → Outcome B)
    → ((a : A) → f a ≡ g a)
    → (m >>= f) ≡ (m >>= g)
>>=-same (panic why) f g h = refl
>>=-same (err why) f g h = refl
>>=-same (ok a) f g h = h a

module _ (a : Answers) (config : FetchedConfig) where
  finish_sync-fill :
      (table : Table) (found : Chain × List NftRule)
      → finish_sync a (fill config) table found ≡ finish_sync a config table found
  unfolding finish_sync fill
  finish_sync-fill table (chain, rules) =
      rw
        (peers_step-fill_peers a.runs table.name chain.name (rule_destinations config.rules)
          config.peers (record { rules = rule_map rules; calls = [] }))
        refl

  rules_sync-fill :
      (table : Table) (found : Option Chain)
      → rules_sync a (fill config) table found ≡ rules_sync a config table found
  unfolding rules_sync
  rules_sync-fill table found = >>=-same _ _ _ (finish_sync-fill table)

  chain_sync-fill :
      (device : Bytes) (table : Table)
      → chain_sync a (fill config) device table ≡ chain_sync a config device table
  unfolding chain_sync
  chain_sync-fill device table = >>=-same _ _ _ (rules_sync-fill table)

  -- What `wgaSync` writes into the configuration makes no difference to `nftSync`: it makes the same
  -- calls, deletes the same rules and panics in the same cases.
  pub nft_sync-fill : (device : Bytes) → nft_sync a (fill config) device ≡ nft_sync a config device
  unfolding nft_sync
  nft_sync-fill device = elim (Bool-cases a.connects) [
    | inl up ↦ simp up (>>=-same _ _ _ (chain_sync-fill device))
    | inr down ↦ simp down
  ]

-- ===== src/Nft/Sync.antt =====
-- `nftSync` against the configuration.
use wga.Base.{
  none, some, inl, inr, List, [], ◌≡◌, arith, not, ok, err, panic, Option, Assoc, bytes,
  mem-append_cases, Bytes, mem-append_left, refl, subst, sym, mem-append_right, >>=-eq-ok,
  Bool-cases, Outcome, ◌∙◌, ap,
}
use mathlib.Core.List.{Memᴰ}
use wga.Nft.Wants.{
  Want, peers_wants, peer_wants, name_wants, address_wants, dns_wants, take_wants,
  peers_step-eq-take_wants,
}
use wga.Nft.Grants.{
  IsAsked, by_rule, by_dns, mem-addresses_wants, Source, mem-name_wants, mem-dns_wants,
  eq_false_of_not, source_ip, mem-peers_wants, peers_wants-mem, name_wants-mem, addresses_wants-mem,
}
use wga.Api.{FetchedConfig, WireguardAccessPeer, WireguardAccessPeerStatus}
use wga.Net.{IpNet, parse_ip, is_v4}
use wga.Nft.{
  rule_destinations, Answers, Effects, nft_sync, NftRule, rule_map, rules_of, must, chain_sync,
  rules_sync, finish_sync, Progress,
}
use wga.PeerSync.{status_addresses, host_net}
use wga.Nft.Setup.{
  check_or_create_table, Chain, check_or_create_chain, table_named, Table, chain_named,
}
use mathlib.Core.Path.{ap₂}

module _ (config : FetchedConfig) where
  abbrev pub dests : Assoc (List IpNet)
  dests = rule_destinations config.rules

  -- What the configuration asks for, as the loops go through it.
  abbrev pub config_wants : List Want
  config_wants = peers_wants dests config.peers

  pub IsAsked-of_mem : {w : Want} → Memᴰ w config_wants → IsAsked config w
  IsAsked-of_mem {w} m =
      let (peer, listed, here) = mem-peers_wants dests config.peers m in
      go peer listed peer.status refl here
    where
      go :
          (peer : WireguardAccessPeer)
          → Memᴰ peer config.peers
          → (status : Option WireguardAccessPeerStatus) → peer.status ≡ status
          → Memᴰ w (peer_wants dests peer.spec.access_rules status)
          → IsAsked config w
      go peer listed none e m = elim m [ ]
      go peer listed (some status) e m =
          let names = peer.spec.access_rules in
          let (addr, given, here) =
            mem-addresses_wants dests names status.dns (status_addresses status) m in
          let s : Source config = record {
            peer = peer;
            listed = listed;
            status = status;
            has_status = e;
            address = addr;
            given = given;
          } in
          let ip = parse_ip addr in
          elim (mem-append_cases (name_wants dests (not (is_v4 ip)) (host_net ip) names) here) [
            | inl by ↦
                let (name, dnet, named, among, same) =
                  mem-name_wants dests (not (is_v4 ip)) (host_net ip) names by in
                by_rule s name dnet named among same
            | inr by ↦
                let (server, rest, first, v6, same) =
                  mem-dns_wants (not (is_v4 ip)) (host_net ip) status.dns by in
                by_dns s server rest first (eq_false_of_not (is_v4 ip) v6) same
          ]

  mem_of_source :
      (s : Source config) {w : Want}
      → Memᴰ w (address_wants dests s.peer.spec.access_rules s.status.dns s.address)
      → Memᴰ w config_wants
  mem_of_source s {w} m =
      let names = s.peer.spec.access_rules in
      peers_wants-mem dests config.peers s.peer s.listed (
        subst (λ o. Memᴰ w (peer_wants dests names o)) (sym s.has_status)
          (addresses_wants-mem dests names s.status.dns (status_addresses s.status) s.address
            s.given m))

  pub mem_of_asked : {w : Want} → IsAsked config w → Memᴰ w config_wants
  mem_of_asked (by_rule s name dnet named among same) =
      let ip = source_ip s in
      mem_of_source s (
        rw same (
          mem-append_left (dns_wants (not (is_v4 ip)) (host_net ip) s.status.dns) (
            name_wants-mem dests (not (is_v4 ip)) (host_net ip) s.peer.spec.access_rules name dnet
              named among)))
  mem_of_asked (by_dns s server rest first v6 same) =
      let ip = source_ip s in
      mem_of_source s (
        mem-append_right (name_wants dests (not (is_v4 ip)) (host_net ip) s.peer.spec.access_rules)
          (rw (first, v6, same) (Memᴰ.head refl)))

must-eq-ok : {A : Type 0} (o : Outcome A) {a : A} → must o ≡ ok a → o ≡ ok a
unfolding must
must-eq-ok (ok a) e = e
must-eq-ok (err x) e = cc
must-eq-ok (panic x) e = cc

rules_of-eq-ok :
    (found : Option Chain) (rules : Option (List NftRule)) {chain : Chain} {list : List NftRule}
    → rules_of found rules ≡ ok (chain, list)
    → (found ≡ some chain) × (rules ≡ some list)
unfolding rules_of
rules_of-eq-ok none rules e = cc
rules_of-eq-ok (some c) none e = cc
rules_of-eq-ok (some c) (some l) e = ground arith

finish_sync_lem :
    (a : Answers) (config : FetchedConfig) (device : Bytes) (table : Table) (chain : Chain)
    (rules : List NftRule) (eff : Effects)
    → table.name ≡ bytes "wga"
    → chain.name ≡ device
    → finish_sync a config table (chain, rules) ≡ ok eff
    → (let done =
          take_wants a.runs
            (bytes "wga")
            device
            (record { rules = rule_map rules; calls = [] })
            (config_wants config) in
        (eff.calls ≡ done.calls) × (eff.stale ≡ done.rules))
unfolding finish_sync
finish_sync_lem a config device table chain rules eff t c e =
    let start : Progress = record { rules = rule_map rules; calls = [] } in
    let flat =
      peers_step-eq-take_wants a.runs table.name chain.name (rule_destinations config.rules) start
        config.peers in
    let named = ap₂ (λ x y. take_wants a.runs x y start (config_wants config)) t c in
    (cc (e, flat, named), cc (e, flat, named))

-- A sync that returns went through the wanted rules, from the rules that the chain had.
pub nft_sync-inversion :
    (a : Answers) (config : FetchedConfig) (device : Bytes) (eff : Effects)
    → nft_sync a config device ≡ ok eff
    → (rules : List NftRule) × (a.rules ≡ some rules)
      × (let done =
            take_wants a.runs
              (bytes "wga")
              device
              (record { rules = rule_map rules; calls = [] })
              (config_wants config) in
          (eff.calls ≡ done.calls) × (eff.stale ≡ done.rules))
unfolding nft_sync
nft_sync-inversion a config device eff e = elim (Bool-cases a.connects) [
  | inr no_connection ↦ cc (rw no_connection at e)
  | inl connected ↦
      let (table, is_table, e₁) =
        >>=-eq-ok (must (check_or_create_table a.tables a.flushes)) (chain_sync a config device)
          (rw connected at e) in
      let (found, is_found, e₂) =
        >>=-eq-ok (must (check_or_create_chain a.chains a.chain_added a.chains_again table device))
          (rules_sync a config table) e₁ in
      let (pair, is_pair, e₃) =
        >>=-eq-ok (rules_of found a.rules) (finish_sync a config table) e₂ in
      let chain = pair.0 in
      let (one, known) = rules_of-eq-ok found a.rules is_pair in
      let table-eq =
        table_named a.tables a.flushes table
          (must-eq-ok (check_or_create_table a.tables a.flushes) is_table) in
      let found-eq =
        must-eq-ok (check_or_create_chain a.chains a.chain_added a.chains_again table device)
          is_found in
      let chain-eq =
        chain_named a.chains a.chains_again a.chain_added table device chain
          (found-eq ∙ ap (λ (c : Option Chain). ok c) one) in
      (pair.1, known, finish_sync_lem a config device table chain pair.1 eff table-eq chain-eq e₃)
]

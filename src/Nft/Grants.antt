-- ===== src/Nft/Grants.antt =====
-- The wanted rules by the peer, the address and the access rule or DNS server that they come from.
use wga.Base.{
  true, false, some, inl, inr, List, [], ◌∷◌, ◌≡◌, not, Bool, Assoc, Bytes, get_or, mem-append_left,
  ap, lookup, refl, mem-append_cases, mem-append_right,
}
use mathlib.Core.List.{Memᴰ}
use wga.Nft.Wants.{
  Want, route, dns, dns_wants, peers_wants, address_wants, addresses_wants, name_wants, routes,
  peer_wants,
}
use wga.Api.{FetchedConfig, WireguardAccessPeer, WireguardAccessPeerStatus}
use wga.Net.{Ip, IpNet, parse_ip, is_v4}
use wga.PeerSync.{status_addresses, host_net}
use wga.Nft.{rule_destinations}

-- An address of a peer that has a status.
pub record Source (config : FetchedConfig) : Type 0 where
  pub peer : WireguardAccessPeer
  pub listed : Memᴰ peer config.peers
  pub status : WireguardAccessPeerStatus
  pub has_status : peer.status ≡ some status
  pub address : Bytes
  pub given : Memᴰ address (status_addresses status)

abbrev pub source_ip : {config : FetchedConfig} → Source config → Ip
source_ip s = parse_ip s.address

-- The configuration asks for a rule: the destination is one that `ruleNameToDestinations` has for a name
-- of the peer's access rules, or the peer's address is not IPv4 (IPv6, or one that does not parse) and it
-- is the peer's first DNS server.
pub data IsAsked (config : FetchedConfig) (w : Want) : Type 0 where
  by_rule :
      (s : Source config) (name : Bytes) (dnet : IpNet)
      → Memᴰ name s.peer.spec.access_rules
      → Memᴰ dnet (get_or (lookup name (rule_destinations config.rules)) [])
      → w ≡ route (not (is_v4 (source_ip s))) (host_net (source_ip s)) dnet
      → IsAsked config w
  by_dns :
      (s : Source config) (server : Bytes) (rest : List Bytes)
      → s.status.dns ≡ server ∷ rest
      → is_v4 (source_ip s) ≡ false
      → w ≡ dns (host_net (source_ip s)) server
      → IsAsked config w

pub eq_false_of_not : (b : Bool) → not b ≡ true → b ≡ false
eq_false_of_not true h = cc
eq_false_of_not false h = refl

pub mem-routes :
    (is_v6 : Bool) (snet : IpNet) (dnets : List IpNet) {w : Want}
    → Memᴰ w (routes is_v6 snet dnets)
    → (dnet : IpNet) × Memᴰ dnet dnets × (w ≡ route is_v6 snet dnet)
mem-routes is_v6 snet [] m = elim m [ ]
mem-routes is_v6 snet (d ∷ ds) (Memᴰ.head e) = (d, Memᴰ.head refl, e)
mem-routes is_v6 snet (d ∷ ds) (Memᴰ.tail m) =
    let (dnet, among, e) = mem-routes is_v6 snet ds m in (dnet, Memᴰ.tail among, e)

pub routes-mem :
    (is_v6 : Bool) (snet : IpNet) (dnets : List IpNet) {dnet : IpNet}
    → Memᴰ dnet dnets
    → Memᴰ (route is_v6 snet dnet) (routes is_v6 snet dnets)
routes-mem is_v6 snet [] m = elim m [ ]
routes-mem is_v6 snet (d ∷ ds) (Memᴰ.head e) = Memᴰ.head (ap (route is_v6 snet) e)
routes-mem is_v6 snet (d ∷ ds) (Memᴰ.tail m) = Memᴰ.tail (routes-mem is_v6 snet ds m)

pub mem-dns_wants :
    (is_v6 : Bool) (snet : IpNet) (servers : List Bytes) {w : Want}
    → Memᴰ w (dns_wants is_v6 snet servers)
    → (server : Bytes) × (rest : List Bytes) × (servers ≡ server ∷ rest)
      × (is_v6 ≡ true)
      × (w ≡ dns snet server)
mem-dns_wants true snet (server ∷ rest) (Memᴰ.head e) = (server, rest, refl, refl, e)
mem-dns_wants true snet (server ∷ rest) (Memᴰ.tail m) = elim m [ ]
mem-dns_wants true snet [] m = elim m [ ]
mem-dns_wants false snet [] m = elim m [ ]
mem-dns_wants false snet (server ∷ rest) m = elim m [ ]

module _ (dests : Assoc (List IpNet)) where
  pub mem-name_wants :
      (is_v6 : Bool) (snet : IpNet) (names : List Bytes) {w : Want}
      → Memᴰ w (name_wants dests is_v6 snet names)
      → (name : Bytes) × (dnet : IpNet) × Memᴰ name names
        × Memᴰ dnet (get_or (lookup name dests) [])
        × (w ≡ route is_v6 snet dnet)
  mem-name_wants is_v6 snet [] m = elim m [ ]
  mem-name_wants is_v6 snet (name ∷ names) m =
      elim (mem-append_cases (routes is_v6 snet (get_or (lookup name dests) [])) m) [
        | inl here ↦
            let (dnet, among, e) = mem-routes is_v6 snet (get_or (lookup name dests) []) here in
            (name, dnet, Memᴰ.head refl, among, e)
        | inr later ↦
            let (n, dnet, listed, among, e) = mem-name_wants is_v6 snet names later in
            (n, dnet, Memᴰ.tail listed, among, e)
      ]

  pub name_wants-mem :
      (is_v6 : Bool) (snet : IpNet) (names : List Bytes) (name : Bytes) (dnet : IpNet)
      → Memᴰ name names
      → Memᴰ dnet (get_or (lookup name dests) [])
      → Memᴰ (route is_v6 snet dnet) (name_wants dests is_v6 snet names)
  name_wants-mem is_v6 snet [] name dnet n d = elim n [ ]
  name_wants-mem is_v6 snet (n ∷ ns) name dnet (Memᴰ.head e) d =
      mem-append_left (name_wants dests is_v6 snet ns)
        (routes-mem is_v6 snet (get_or (lookup n dests) []) (rw e at d))
  name_wants-mem is_v6 snet (n ∷ ns) name dnet (Memᴰ.tail m) d =
      mem-append_right (routes is_v6 snet (get_or (lookup n dests) []))
        (name_wants-mem is_v6 snet ns name dnet m d)

  pub mem-addresses_wants :
      (names servers addrs : List Bytes) {w : Want}
      → Memᴰ w (addresses_wants dests names servers addrs)
      → (addr : Bytes) × Memᴰ addr addrs × Memᴰ w (address_wants dests names servers addr)
  mem-addresses_wants names servers [] m = elim m [ ]
  mem-addresses_wants names servers (addr ∷ addrs) m =
      elim (mem-append_cases (address_wants dests names servers addr) m) [
        | inl here ↦ (addr, Memᴰ.head refl, here)
        | inr later ↦
            let (a, among, e) = mem-addresses_wants names servers addrs later in
            (a, Memᴰ.tail among, e)
      ]

  pub addresses_wants-mem :
      (names servers addrs : List Bytes) (addr : Bytes) {w : Want}
      → Memᴰ addr addrs
      → Memᴰ w (address_wants dests names servers addr)
      → Memᴰ w (addresses_wants dests names servers addrs)
  addresses_wants-mem names servers [] addr n m = elim n [ ]
  addresses_wants-mem names servers (a ∷ more) addr (Memᴰ.head e) m =
      mem-append_left (addresses_wants dests names servers more) (rw e at m)
  addresses_wants-mem names servers (a ∷ more) addr (Memᴰ.tail n) m =
      mem-append_right (address_wants dests names servers a)
        (addresses_wants-mem names servers more addr n m)

  pub mem-peers_wants :
      (peers : List WireguardAccessPeer) {w : Want}
      → Memᴰ w (peers_wants dests peers)
      → (peer : WireguardAccessPeer) × Memᴰ peer peers
        × Memᴰ w (peer_wants dests peer.spec.access_rules peer.status)
  mem-peers_wants [] m = elim m [ ]
  mem-peers_wants (peer ∷ peers) m =
      elim (mem-append_cases (peer_wants dests peer.spec.access_rules peer.status) m) [
        | inl here ↦ (peer, Memᴰ.head refl, here)
        | inr later ↦ let (p, among, e) = mem-peers_wants peers later in (p, Memᴰ.tail among, e)
      ]

  pub peers_wants-mem :
      (peers : List WireguardAccessPeer) (peer : WireguardAccessPeer) {w : Want}
      → Memᴰ peer peers
      → Memᴰ w (peer_wants dests peer.spec.access_rules peer.status)
      → Memᴰ w (peers_wants dests peers)
  peers_wants-mem [] peer n m = elim n [ ]
  peers_wants-mem (p ∷ ps) peer (Memᴰ.head e) m = mem-append_left (peers_wants dests ps) (rw e at m)
  peers_wants-mem (p ∷ ps) peer (Memᴰ.tail n) m =
      mem-append_right (peer_wants dests p.spec.access_rules p.status) (peers_wants-mem ps peer n m)

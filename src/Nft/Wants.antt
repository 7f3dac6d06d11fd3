-- ===== src/Nft/Wants.antt =====
-- The loops of `nftSync` as one list of wanted rules, taken one after the other.
use wga.Base.{
  true, false, none, some, List, [], ◌∷◌, ◌++◌, ◌≡◌, Bool, Assoc, Bytes, Option, ◌∙◌, refl, get_or,
  lookup, not, ap, sym, some,
}
use wga.Net.{IpNet, net_string, parse_ip, is_v4}
use wga.Nft.{
  peer_step, addresses_step, dns_block, peers_step, comment_of, names_step, address_step,
  routes_step, Progress, route_step, dns_step,
}
use wga.Api.{WireguardAccessPeer, WireguardAccessPeerStatus}
use wga.PeerSync.{host_net, status_addresses}

-- A rule that the configuration asks for: from a peer's address to a destination or a DNS server.
pub data Want : Type 0 where
  route : Bool → IpNet → IpNet → Want
  dns : IpNet → Bytes → Want

abbrev pub want_comment : Want → Bytes
want_comment (route is_v6 snet dnet) = comment_of (net_string snet) (net_string dnet)
want_comment (dns snet server) = comment_of (net_string snet) server

abbrev pub routes : Bool → IpNet → List IpNet → List Want
routes is_v6 snet [] = []
routes is_v6 snet (dnet ∷ dnets) = route is_v6 snet dnet ∷ routes is_v6 snet dnets

abbrev pub dns_wants : Bool → IpNet → List Bytes → List Want
dns_wants true snet (server ∷ _) = dns snet server ∷ []
dns_wants _ _ _ = []

module _ (dests : Assoc (List IpNet)) where
  abbrev pub name_wants : Bool → IpNet → List Bytes → List Want
  name_wants is_v6 snet [] = []
  name_wants is_v6 snet (name ∷ names) =
      routes is_v6 snet (get_or (lookup name dests) []) ++ name_wants is_v6 snet names

  abbrev pub address_wants : List Bytes → List Bytes → Bytes → List Want
  address_wants names servers addr =
      let ip = parse_ip addr in
      let is_v6 = not (is_v4 ip) in
      name_wants is_v6 (host_net ip) names ++ dns_wants is_v6 (host_net ip) servers

  abbrev pub addresses_wants : List Bytes → List Bytes → List Bytes → List Want
  addresses_wants names servers [] = []
  addresses_wants names servers (addr ∷ addrs) =
      address_wants names servers addr ++ addresses_wants names servers addrs

  abbrev pub peer_wants : List Bytes → Option WireguardAccessPeerStatus → List Want
  peer_wants names none = []
  peer_wants names (some status) = addresses_wants names status.dns (status_addresses status)

  abbrev pub peers_wants : List WireguardAccessPeer → List Want
  peers_wants [] = []
  peers_wants (peer ∷ peers) = peer_wants peer.spec.access_rules peer.status ++ peers_wants peers

module _ (runs : List Bytes → Bool) (table chain : Bytes) where
  abbrev pub want_step : Progress → Want → Progress
  want_step st (route is_v6 snet dnet) = route_step runs table chain is_v6 snet st dnet
  want_step st (dns snet server) = dns_step runs table chain snet st server

  abbrev pub take_wants : Progress → List Want → Progress
  take_wants st [] = st
  take_wants st (w ∷ ws) = take_wants (want_step st w) ws

  pub take_wants-append :
      (st : Progress) (xs ys : List Want)
      → take_wants st (xs ++ ys) ≡ take_wants (take_wants st xs) ys
  take_wants-append st [] ys = refl
  take_wants-append st (x ∷ xs) ys = take_wants-append (want_step st x) xs ys

  take-routes :
      (is_v6 : Bool) (snet : IpNet) (st : Progress) (dnets : List IpNet)
      → routes_step runs table chain is_v6 snet st dnets ≡ take_wants st (routes is_v6 snet dnets)
  unfolding routes_step
  take-routes is_v6 snet st [] = refl
  take-routes is_v6 snet st (dnet ∷ dnets) =
      take-routes is_v6 snet (route_step runs table chain is_v6 snet st dnet) dnets

  take-names :
      (dests : Assoc (List IpNet)) (is_v6 : Bool) (snet : IpNet) (st : Progress)
      (names : List Bytes)
      → names_step runs table chain dests is_v6 snet st names
        ≡ take_wants st (name_wants dests is_v6 snet names)
  unfolding names_step
  take-names dests is_v6 snet st [] = refl
  take-names dests is_v6 snet st (name ∷ names) =
      let dnets = get_or (lookup name dests) [] in
      let first = routes_step runs table chain is_v6 snet st dnets in
      take-names dests is_v6 snet first names
      ∙ (ap (λ s. take_wants s (name_wants dests is_v6 snet names))
            (take-routes is_v6 snet st dnets)
          ∙ sym
              (take_wants-append st (routes is_v6 snet dnets) (name_wants dests is_v6 snet names)))

  take-dns :
      (is_v6 : Bool) (snet : IpNet) (st : Progress) (servers : List Bytes)
      → dns_block runs table chain is_v6 snet st servers
        ≡ take_wants st (dns_wants is_v6 snet servers)
  unfolding dns_block
  take-dns true snet st [] = refl
  take-dns true snet st (server ∷ rest) = refl
  take-dns false snet st [] = refl
  take-dns false snet st (server ∷ rest) = refl

  take-address :
      (dests : Assoc (List IpNet)) (names servers : List Bytes) (st : Progress) (addr : Bytes)
      → address_step runs table chain dests names servers st addr
        ≡ take_wants st (address_wants dests names servers addr)
  unfolding address_step
  take-address dests names servers st addr =
      let ip = parse_ip addr in
      let is_v6 = not (is_v4 ip) in
      let snet = host_net ip in
      take-dns is_v6 snet (names_step runs table chain dests is_v6 snet st names) servers
      ∙ (ap (λ s. take_wants s (dns_wants is_v6 snet servers))
            (take-names dests is_v6 snet st names)
          ∙ sym (
              take_wants-append st (name_wants dests is_v6 snet names)
                (dns_wants is_v6 snet servers)))

  take-addresses :
      (dests : Assoc (List IpNet)) (names servers : List Bytes) (st : Progress) (addrs : List Bytes)
      → addresses_step runs table chain dests names servers st addrs
        ≡ take_wants st (addresses_wants dests names servers addrs)
  unfolding addresses_step
  take-addresses dests names servers st [] = refl
  take-addresses dests names servers st (addr ∷ addrs) =
      take-addresses dests names servers (address_step runs table chain dests names servers st addr)
        addrs
      ∙ (ap (λ s. take_wants s (addresses_wants dests names servers addrs))
            (take-address dests names servers st addr)
          ∙ sym (
              take_wants-append st (address_wants dests names servers addr)
                (addresses_wants dests names servers addrs)))

  take-peer :
      (dests : Assoc (List IpNet)) (names : List Bytes) (status : Option WireguardAccessPeerStatus)
      (st : Progress)
      → peer_step runs table chain dests names status st
        ≡ take_wants st (peer_wants dests names status)
  unfolding peer_step
  take-peer dests names none st = refl
  take-peer dests names (some status) st =
      take-addresses dests names status.dns st (status_addresses status)

  -- The nested loops do what one loop over the wanted rules does.
  pub peers_step-eq-take_wants :
      (dests : Assoc (List IpNet)) (st : Progress) (peers : List WireguardAccessPeer)
      → peers_step runs table chain dests st peers ≡ take_wants st (peers_wants dests peers)
  unfolding peers_step
  peers_step-eq-take_wants dests st [] = refl
  peers_step-eq-take_wants dests st (peer ∷ peers) =
      peers_step-eq-take_wants dests
        (peer_step runs table chain dests peer.spec.access_rules peer.status st) peers
      ∙ (ap (λ s. take_wants s (peers_wants dests peers))
            (take-peer dests peer.spec.access_rules peer.status st)
          ∙ sym (
              take_wants-append st (peer_wants dests peer.spec.access_rules peer.status)
                (peers_wants dests peers)))

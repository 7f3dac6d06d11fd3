-- ===== src/Peers.antt =====
-- peers.go: the command line that makes peers. The API server, the random keys and
-- `netip.ParseAddrPort` are parameters.
pub mod Watch
pub mod Keys
pub mod Carried
mod Samples
use wga.Base.{
  ◌*◌, Bool, true, false, Option, none, some, List, [], ◌∷◌, ◌++◌, if◌then◌else◌, is_empty, Bytes,
  bytes, join, Outcome, ok, err, panic, ◌>>=◌, map,
}
use wga.Net.{IpNet, parse_ip, parse_cidr, full_mask, net_string}
use wga.WgTypes.{Key, KeyCodec, UdpAddr}
use wga.Api.{
  WireguardAccessPeer, WireguardAccessPeerStatus, WireguardAccessPeerStatusPeer,
  WireguardClusterClientNode, WireguardClusterClient,
}
use wga.Format.{FilePeer, format}

-- What the channel of a watch brings: no object, one of another type, or a peer.
pub data Event : Type 0 where
  no_object other_object : Event
  peer_event : WireguardAccessPeer → Event

-- `client.NewWithWatch` succeeds, `Create`, and the events of `Watch` for a name until its channel is
-- closed, at the latest when the context's time is over.
pub record Cluster : Type 0 where
  pub connects : Bool
  pub creates : WireguardAccessPeer → Bool
  pub watch : WireguardAccessPeer → Option (List Event)

-- A missing value is an error.
unfoldable pub or_error {ℓ} : {A : Type ℓ} → Bytes → Option A → Outcome A
or_error message none = err message
or_error message (some a) = ok a

-- The loop over the watch's channel: the first peer with a status.
unfoldable pub wait_for_status : List Event → Option WireguardAccessPeer
wait_for_status [] = none
wait_for_status (no_object ∷ es) = wait_for_status es
wait_for_status (other_object ∷ es) = wait_for_status es
wait_for_status (peer_event p ∷ es) = elim p.status [ none ↦ wait_for_status es | some _ ↦ some p ]

-- `peerValue`
unfoldable pub peer_value : KeyCodec → Bytes → List Bytes → Key → Key → WireguardAccessPeer
peer_value kc name rules keyset pskset = record {
  name = name;
  spec = record {
    pre_shared_key = kc.key_string pskset;
    public_key = kc.key_string (kc.public_key keyset);
    access_rules = rules;
  };
  status = none;
}

-- `Create` and `Watch`
created : Cluster → Bool → WireguardAccessPeer → Outcome WireguardAccessPeer
unfolding or_error wait_for_status
created cluster false peer = err (bytes "cannot create peer")
created cluster true peer = do
  events ← or_error (bytes "cannot watch peer") (cluster.watch peer)
  or_error (bytes "peer has no status, there was probably an error with the wga server")
      (wait_for_status events)

-- `NewWGAPeer`
unfoldable pub new_wga_peer :
    KeyCodec → Cluster → Bytes → List Bytes → Key → Key → Outcome WireguardAccessPeer
unfolding peer_value created
new_wga_peer kc cluster name rules keyset pskset =
    let peer = peer_value kc name rules keyset pskset in
    if cluster.connects
    then created cluster (cluster.creates peer) peer
    else err (bytes "cannot create client")

-- The loop over the allowed networks
unfoldable pub allowed_nets : List Bytes → Option (List IpNet)
unfolding parse_cidr
allowed_nets [] = some []
allowed_nets (ip ∷ ips) =
    let rest = allowed_nets ips in
    elim (parse_cidr ip) [
      | none ↦ none
      | some (_, cidr) ↦ elim rest [ none ↦ none | some nets ↦ some (cidr ∷ nets) ]
    ]

-- `psk`, which the next peers keep
unfoldable pub next_psk : KeyCodec → Bytes → Key → Option Key
next_psk kc text psk = if is_empty text then some psk else kc.parse_key text

-- `wgtypes.Peer{...}`, from the parts that may not parse
unfoldable pub file_peer :
    Option Key → Option (List IpNet) → Option UdpAddr → Option Key → Outcome FilePeer
file_peer none ips endpoint psk = err (bytes "cannot parse public key")
file_peer (some public) none endpoint psk = err (bytes "cannot parse allowed ip")
file_peer (some public) (some ips) none psk = err (bytes "cannot parse endpoint")
file_peer (some public) (some ips) (some endpoint) none = err (bytes "cannot parse preshared key")
file_peer (some public) (some ips) (some endpoint) (some psk) = ok (record {
  endpoint = endpoint;
  public_key = public;
  preshared_key = psk;
  allowed_ips = ips;
  persistent_keepalive_interval = 60 * 1_000_000_000;
})

-- The loop over the status's peers, with `psk` so far
unfoldable pub file_peers :
    KeyCodec
    → (Bytes → Option UdpAddr)
    → Key
    → List WireguardAccessPeerStatusPeer
    → Outcome (List FilePeer)
unfolding allowed_nets next_psk file_peer
file_peers kc parse_addr_port psk [] = ok []
file_peers kc parse_addr_port psk (p ∷ ps) = do
  f ←
      file_peer (kc.parse_key p.public_key) (allowed_nets p.allowed_ips)
        (parse_addr_port p.endpoint) (next_psk kc p.pre_shared_key psk)
  rest ← file_peers kc parse_addr_port f.preshared_key ps
  ok (f ∷ rest)

-- The loop over the addresses, with `ips` so far
unfoldable pub address_list : Bytes → List Bytes → Bytes
unfolding parse_ip full_mask net_string
address_list ips [] = ips
address_list ips (text ∷ texts) =
    let ip = parse_ip text in
    address_list
      ((if is_empty ips then ips else ips ++ bytes ",")
        ++ net_string (record { ip = ip; mask = full_mask ip }))
      texts

-- `FormatPeerIni`: what it prints. A peer without a status is a nil pointer.
unfoldable pub format_peer_ini :
    KeyCodec
    → (Bytes → Option UdpAddr)
    → WireguardAccessPeer
    → List Bytes
    → Key
    → Key
    → Outcome Bytes
unfolding file_peers address_list format
format_peer_ini kc parse_addr_port peer dns pk psk = elim peer.status [
  | none ↦ panic (bytes "nil pointer dereference")
  | some status ↦ file_peers kc parse_addr_port psk status.peers >>= λ peers. ok (
      format kc (record {
        name = peer.name;
        private_key = pk;
        address =
            address_list []
              (if is_empty status.addresses then status.address ∷ [] else status.addresses);
        dns = dns;
        peers = peers;
      })
      ++ bytes "\n")
]

-- The command `peer add`: its exit, or what it prints; the error of `FormatPeerIni` is dropped.
printed : Outcome Bytes → Outcome Bytes
printed (panic e) = panic e
printed (err e) = ok []
printed (ok text) = ok text

-- `peer.Status.DNS` of a peer without a status panics.
unfoldable pub status_dns : Option WireguardAccessPeerStatus → Outcome (List Bytes)
status_dns none = panic (bytes "nil pointer dereference")
status_dns (some status) = ok status.dns

unfoldable pub add :
    KeyCodec
    → (Bytes → Option UdpAddr)
    → Cluster
    → Option Key
    → Option Key
    → Bytes
    → List Bytes
    → Outcome Bytes
unfolding or_error new_wga_peer format_peer_ini printed status_dns
add kc parse_addr_port cluster generated_key generated_psk name rules = do
  pk ← or_error (bytes "unable to generate key") generated_key
  psk ← or_error (bytes "unable to generate psk") generated_psk
  peer ← new_wga_peer kc cluster name rules pk psk
  dns ← status_dns peer.status
  printed (format_peer_ini kc parse_addr_port peer dns pk psk)

status_of : WireguardAccessPeer → Outcome WireguardAccessPeerStatus
status_of peer = elim peer.status [
  | none ↦ panic (bytes "nil pointer dereference")
  | some status ↦ ok status
]

first_of : List WireguardAccessPeerStatusPeer → Outcome WireguardAccessPeerStatusPeer
first_of [] = panic (bytes "index out of range")
first_of (p ∷ ps) = ok p

-- `nodes[i]`, once the peer has been made
unfoldable pub node_of :
    KeyCodec
    → Key
    → Key
    → Bytes
    → WireguardAccessPeer
    → WireguardAccessPeerStatus
    → WireguardClusterClientNode × WireguardAccessPeer
unfolding join
node_of kc pk psk node_name peer status = (
  record {
    node_name = node_name;
    pre_shared_key = kc.key_string psk;
    private_key = record { value = some (kc.key_string pk); secret_ref = none };
    address = join (bytes ",") status.addresses;
  },
  peer,
)

-- One of the goroutines of the command `peer wgc`: its node and its peer.
unfoldable pub wgc_node :
    KeyCodec
    → Cluster
    → List Bytes
    → Bytes
    → Option Key
    → Option Key
    → Bytes
    → Outcome (WireguardClusterClientNode × WireguardAccessPeer)
unfolding new_wga_peer status_of node_of
wgc_node kc cluster rules wgc_name none generated_psk node_name =
    err (bytes "unable to generate key")
wgc_node kc cluster rules wgc_name (some pk) none node_name = err (bytes "unable to generate psk")
wgc_node kc cluster rules wgc_name (some pk) (some psk) node_name = do
  peer ←
      new_wga_peer kc cluster (bytes "wgc-" ++ (wgc_name ++ (bytes "-" ++ node_name))) rules pk psk
  status ← status_of peer
  ok (node_of kc pk psk node_name peer status)

-- The goroutines of the command, each with its node's name and keys; `Wait` returns an error when one
-- of them does.
unfoldable pub wgc_nodes :
    KeyCodec
    → Cluster
    → List Bytes
    → Bytes
    → List (Bytes × Option Key × Option Key)
    → Outcome (List (WireguardClusterClientNode × WireguardAccessPeer))
unfolding wgc_node
wgc_nodes kc cluster rules wgc_name [] = ok []
wgc_nodes kc cluster rules wgc_name ((name, pk, psk) ∷ items) = do
  node ← wgc_node kc cluster rules wgc_name pk psk name
  nodes ← wgc_nodes kc cluster rules wgc_name items
  ok (node ∷ nodes)

-- `peers[0].Status.Peers[0]`
unfoldable pub first_server :
    List (WireguardClusterClientNode × WireguardAccessPeer) → Outcome WireguardAccessPeerStatusPeer
unfolding status_of first_of
first_server [] = err (bytes "no wgc nodes specified")
first_server ((_, peer) ∷ _) = status_of peer >>= λ status. first_of status.peers

-- The command `peer wgc`: the cluster client that it prints. Without a node it exits.
unfoldable pub wgc :
    KeyCodec
    → Cluster
    → List Bytes
    → Bytes
    → List (Bytes × Option Key × Option Key)
    → Outcome WireguardClusterClient
unfolding wgc_nodes first_server
wgc kc cluster rules wgc_name items = do
  nodes ← wgc_nodes kc cluster rules wgc_name items
  p ← first_server nodes
  ok (record {
    name = wgc_name;
    spec = record {
      nodes = map (λ n. n.0) nodes;
      routes = p.allowed_ips;
      server = record { endpoint = p.endpoint; public_key = p.public_key };
      persistent_keepalive = 60;
    };
    status = none;
  })

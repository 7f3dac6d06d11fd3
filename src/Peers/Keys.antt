-- ===== src/Peers/Keys.antt =====
-- The keys of the cluster client that peers.go makes.
use wga.Base.{
  List, [], ◌∷◌, ◌++◌, map, Bytes, bytes, ◌≡◌, refl, Option, some, none, ok, >>=-eq-ok, true, false,
  if◌then◌else◌, ◌>>=◌, Bool, subst, sym, err,
}
use mathlib.Core.List.{Memᴰ}
use wga.WgTypes.{KeyCodec, Key}
use wga.Peers.{
  created, new_wga_peer, Cluster, wgc_nodes, wgc_node, wgc, peer_value, node_of, status_of,
  first_server,
}
use wga.Api.{
  WireguardAccessPeer, WireguardClusterClientNode, WireguardClusterClient,
  WireguardAccessPeerStatusPeer,
}

-- The access peer that the command asks for, for a node
abbrev pub wgc_peer : KeyCodec → List Bytes → Bytes → Bytes → Key → Key → WireguardAccessPeer
wgc_peer kc rules wgc_name node_name pk psk =
    peer_value kc (bytes "wgc-" ++ (wgc_name ++ (bytes "-" ++ node_name))) rules pk psk

-- The node's keys belong to an access peer that the API server accepted.
pub record IsPaired (kc : KeyCodec) (cluster : Cluster) (rules : List Bytes) (wgc_name : Bytes)
    (node : WireguardClusterClientNode) : Type 0 where
  pub pk : Key
  pub psk : Key
  pub accepted : cluster.creates (wgc_peer kc rules wgc_name node.node_name pk psk) ≡ true
  pub public :
      (wgc_peer kc rules wgc_name node.node_name pk psk).spec.public_key
      ≡ kc.key_string (kc.public_key pk)
  pub private : node.private_key.value ≡ some (kc.key_string pk)
  pub shared :
      node.pre_shared_key ≡ (wgc_peer kc rules wgc_name node.node_name pk psk).spec.pre_shared_key

created-creates :
    (cluster : Cluster) (b : Bool) (peer p : WireguardAccessPeer)
    → created cluster b peer ≡ ok p
    → b ≡ true
unfolding created
created-creates cluster true peer p e = refl
created-creates cluster false peer p e = cc

new_wga_peer-creates :
    (kc : KeyCodec) (cluster : Cluster) (name : Bytes) (rules : List Bytes) (keyset pskset : Key)
    (p : WireguardAccessPeer)
    → new_wga_peer kc cluster name rules keyset pskset ≡ ok p
    → cluster.creates (peer_value kc name rules keyset pskset) ≡ true
unfolding new_wga_peer
new_wga_peer-creates kc cluster name rules keyset pskset p e = connected cluster.connects e
  where
    peer : WireguardAccessPeer
    peer = peer_value kc name rules keyset pskset

    connected :
        (b : Bool)
        → (if b
            then created cluster (cluster.creates peer) peer
            else err (bytes "cannot create client"))
          ≡ ok p
        → cluster.creates peer ≡ true
    connected true h = created-creates cluster (cluster.creates peer) peer p h
    connected false h = cc

module _ (kc : KeyCodec) (cluster : Cluster) (rules : List Bytes) (wgc_name : Bytes) where
  wgc_node-IsPaired :
      (generated_key generated_psk : Option Key) (node_name : Bytes)
      (n : WireguardClusterClientNode × WireguardAccessPeer)
      → wgc_node kc cluster rules wgc_name generated_key generated_psk node_name ≡ ok n
      → IsPaired kc cluster rules wgc_name n.0
  unfolding wgc_node node_of peer_value
  wgc_node-IsPaired none psk name n e = cc
  wgc_node-IsPaired (some pk) none name n e = cc
  wgc_node-IsPaired (some pk) (some psk) name n e =
      let full = bytes "wgc-" ++ (wgc_name ++ (bytes "-" ++ name)) in
      let (peer, made, e') =
        >>=-eq-ok (new_wga_peer kc cluster full rules pk psk)
          (λ peer. status_of peer >>= λ status. ok (node_of kc pk psk name peer status)) e in
      let (status, has, e'') =
        >>=-eq-ok (status_of peer) (λ status. ok (node_of kc pk psk name peer status)) e' in
      let same : (node_of kc pk psk name peer status).0 ≡ n.0 = cc in
      subst (IsPaired kc cluster rules wgc_name) same (record {
        pk = pk;
        psk = psk;
        accepted = new_wga_peer-creates kc cluster full rules pk psk peer made;
        public = refl;
        private = refl;
        shared = refl;
      })

  wgc_nodes-IsPaired :
      (items : List (Bytes × Option Key × Option Key))
      (ns : List (WireguardClusterClientNode × WireguardAccessPeer))
      (node : WireguardClusterClientNode)
      → wgc_nodes kc cluster rules wgc_name items ≡ ok ns
      → Memᴰ node (map (λ n. n.0) ns)
      → IsPaired kc cluster rules wgc_name node
  unfolding wgc_nodes
  wgc_nodes-IsPaired [] ns node e m =
      let none_left : [] ≡ ns = cc in
      elim (subst (λ x. Memᴰ node (map (λ y. y.0) x)) (sym none_left) m) [ ]
  wgc_nodes-IsPaired ((name, pk, psk) ∷ items) ns node e m =
      let (n, made, e') =
        >>=-eq-ok (wgc_node kc cluster rules wgc_name pk psk name)
          (λ n. wgc_nodes kc cluster rules wgc_name items >>= λ rest. ok (n ∷ rest)) e in
      let (rest, later, e'') =
        >>=-eq-ok (wgc_nodes kc cluster rules wgc_name items) (λ rest. ok (n ∷ rest)) e' in
      let all : n ∷ rest ≡ ns = cc in
      elim (subst (λ x. Memᴰ node (map (λ y. y.0) x)) (sym all) m) [
        | Memᴰ.head same ↦
            subst (IsPaired kc cluster rules wgc_name) (sym same)
              (wgc_node-IsPaired pk psk name n made)
        | Memᴰ.tail k ↦ wgc_nodes-IsPaired items rest node later k
      ]

  -- Each node of the cluster client that the command prints has the private key and the preshared key
  -- of an access peer that the API server accepted under the node's name: the access peer's public key
  -- is that of the node's private key.
  pub wgc-IsPaired :
      (items : List (Bytes × Option Key × Option Key)) (client : WireguardClusterClient)
      (node : WireguardClusterClientNode)
      → wgc kc cluster rules wgc_name items ≡ ok client
      → Memᴰ node client.spec.nodes
      → IsPaired kc cluster rules wgc_name node
  unfolding wgc
  wgc-IsPaired items client node e m =
      let (nodes, made, e') =
        >>=-eq-ok (wgc_nodes kc cluster rules wgc_name items)
          (λ nodes. first_server nodes >>= λ p. ok (printed_client nodes p)) e in
      let (p, has, e'') = >>=-eq-ok (first_server nodes) (λ p. ok (printed_client nodes p)) e' in
      let same : map (λ n. n.0) nodes ≡ client.spec.nodes = cc in
      wgc_nodes-IsPaired items nodes node made (subst (Memᴰ node) (sym same) m)
    where
      printed_client :
          List (WireguardClusterClientNode × WireguardAccessPeer)
          → WireguardAccessPeerStatusPeer
          → WireguardClusterClient
      printed_client nodes p = record {
        name = wgc_name;
        spec = record {
          nodes = map (λ n. n.0) nodes;
          routes = p.allowed_ips;
          server = record { endpoint = p.endpoint; public_key = p.public_key };
          persistent_keepalive = 60;
        };
        status = none;
      }

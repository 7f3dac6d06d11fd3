-- ===== src/ClusterClient/Ready.antt =====
-- What has been done on a node that `ClusterClientReconciler.Reconcile` (operator/wgc.go) calls
-- ready.
use wga.Base.{
  Option, none, some, List, [], ◌∷◌, ◌++◌, Bytes, bytes, ◌≡◌, refl, sym, ◌∙◌, Outcome, ok, err,
  panic, Assoc, ap, Bool, true, subst, false, ◌≢◌, arith,
}
use wga.ClusterClient.{
  reconcile, NodeLabel, reconcile_links, collect_node, Environment, ApiServer, parse_routes,
  make_peer, ClusterState, collect, find_node, collect_found, label_node, conclude, own_name,
  sync_links,
}
use wga.Run.{>>=-returns, >>-returns, require-returns, Act}
use mathlib.Core.List.{Memᴰ}
use wga.Api.{WireguardClusterClient, WireguardClusterClientNode}
use wga.WgTypes.{KeyCodec, Key, UdpAddr}
use wga.Wgc.{
  WgPeer, link_set_up, address_net, addr_replace, route_replace, interface_name, Link, Kernel,
  wgc_sync,
}
use wga.Net.{IpNet}
use wga.Wgc.Required.{Need, made, serves, IsDone}
use wga.Wgc.Complete.{has_server, IsRequired, wgc_sync-IsRequired, set_up, has_address, has_route}
use wga.PeerSync.Plan.{IsRange}

-- What a cluster client asks of a node: its interface is configured with the cluster client's server,
-- is up, has the node's address and carries the routes.
pub data IsWanted (kc : KeyCodec) (wg : WireguardClusterClient) (node : WireguardClusterClientNode)
    : Need → Type 0 where
  wants_server :
      (key : Key) (rs : List IpNet)
      → kc.parse_key wg.spec.server.public_key ≡ some key
      → parse_routes wg.spec.routes ≡ some rs
      → IsWanted kc wg node (serves (bytes "wgc-" ++ wg.name) key rs)
  is_up : IsWanted kc wg node (made (link_set_up (bytes "wgc-" ++ wg.name)))
  wants_address :
      (a : IpNet)
      → address_net node.address ≡ some a
      → IsWanted kc wg node (made (addr_replace (bytes "wgc-" ++ wg.name) a))
  wants_route :
      (rs : List IpNet) (r : IpNet)
      → parse_routes wg.spec.routes ≡ some rs
      → Memᴰ r rs
      → IsWanted kc wg node (made (route_replace (bytes "wgc-" ++ wg.name) r))

-- What `wgcSync` is told of a cluster client.
record IsPeerOf (kc : KeyCodec) (wg : WireguardClusterClient) (node : WireguardClusterClientNode)
    (p : WgPeer) : Type 0 where
  named : p.peer_name ≡ wg.name
  addressed : p.peer_address ≡ node.address
  served : kc.parse_key wg.spec.server.public_key ≡ some p.server_public_key
  routed : parse_routes wg.spec.routes ≡ some p.routes

label_node-network :
    (patches : ClusterState → NodeLabel → Bool) (cancelled : Bool) (node : Option Bytes)
    (wgc_name : Bytes) (ready : Bool) (outcome : Outcome (Unit {0})) (s : ClusterState)
    → (label_node patches cancelled node wgc_name ready outcome s).1.network ≡ s.network
unfolding label_node
label_node-network patches cancelled none wgc_name ready outcome s = refl
label_node-network patches cancelled (some node) wgc_name ready outcome s = ground (arith)

label_node-fails :
    (patches : ClusterState → NodeLabel → Bool) (cancelled : Bool) (node : Option Bytes)
    (wgc_name : Bytes) (ready : Bool) (e : Bytes) (s : ClusterState)
    → (label_node patches cancelled node wgc_name ready (err e) s).0 ≢ ok tt
unfolding label_node
label_node-fails patches cancelled none wgc_name ready e s h = cc
label_node-fails patches cancelled (some node) wgc_name ready e s h = cc

own_name-returns :
    (o : Option Bytes) (s : ClusterState) (name : Bytes) (t : ClusterState)
    → own_name o s ≡ (ok name, t)
    → o ≡ some name
unfolding own_name
own_name-returns none s name t e = cc
own_name-returns (some n) s name t e = ground arith

-- What is wanted of the node is required of a run with its peer.
IsWanted-IsRequired :
    (kc : KeyCodec) (wg : WireguardClusterClient) (node : WireguardClusterClientNode)
    (links : List Link) (peers : List WgPeer) (p : WgPeer) (c : Need)
    → Memᴰ p peers
    → IsPeerOf kc wg node p
    → IsWanted kc wg node c
    → IsRequired links peers c
unfolding interface_name
IsWanted-IsRequired kc wg node links peers p c m is_peer (wants_server key rs known parsed) =
    let routes : p.routes ≡ rs = cc (is_peer.routed, parsed) in
    let public : p.server_public_key ≡ key = cc (is_peer.served, known) in
    subst (λ x. IsRequired links peers (serves (bytes "wgc-" ++ x) key rs)) is_peer.named
      (subst (λ k. IsRequired links peers (serves (interface_name p) k rs)) public
        (subst (λ r. IsRequired links peers (serves (interface_name p) p.server_public_key r))
          routes (has_server p m)))
IsWanted-IsRequired kc wg node links peers p c m is_peer is_up =
    subst (λ x. IsRequired links peers (made (link_set_up (bytes "wgc-" ++ x)))) is_peer.named
      (set_up p m)
IsWanted-IsRequired kc wg node links peers p c m is_peer (wants_address a known) =
    subst (λ x. IsRequired links peers (made (addr_replace (bytes "wgc-" ++ x) a))) is_peer.named
      (has_address p a m (ap address_net is_peer.addressed ∙ known))
IsWanted-IsRequired kc wg node links peers p c m is_peer (wants_route rs r known n) =
    let same : rs ≡ p.routes = cc (is_peer.routed, known) in
    subst (λ x. IsRequired links peers (made (route_replace (bytes "wgc-" ++ x) r))) is_peer.named
      (has_route p r m (subst (Memᴰ r) same n))

module _ (env : Environment) (kc : KeyCodec) (server : ApiServer) where
  make_peer-IsPeerOf :
      (wg : WireguardClusterClient) (node : WireguardClusterClientNode) (private : Key)
      (s : ClusterState) (p : WgPeer) (t : ClusterState)
      → make_peer kc wg node private s ≡ (ok p, t)
      → IsPeerOf kc wg node p
  unfolding make_peer
  make_peer-IsPeerOf wg node private s p t e =
      let (public, known, e') =
        require-returns _ (kc.parse_key wg.spec.server.public_key) _ s p t e in
      let (routes, parsed, e'') = require-returns _ (parse_routes wg.spec.routes) _ s p t e' in
      record { named = cc; addressed = cc; served = cc; routed = cc }

  collect_node-IsPeerOf :
      (node_name : Bytes) (wg : WireguardClusterClient) (node : WireguardClusterClientNode)
      (s : ClusterState) (p : WgPeer) (t : ClusterState)
      → collect_node env kc server node_name wg node s ≡ (ok p, t)
      → IsPeerOf kc wg node p
  unfolding collect_node
  collect_node-IsPeerOf node_name wg node s p t e =
      let (text, s', got, e') = >>=-returns _ _ s p t e in
      let (private, parsed, e'') = require-returns _ (kc.parse_key text.0) _ s' p t e' in
      let (_, s'', written, e3) = >>-returns _ _ s' p t e'' in
      make_peer-IsPeerOf wg node private s'' p t e3

  first-IsPeerOf :
      (node_name : Bytes) (wg : WireguardClusterClient) (node : WireguardClusterClientNode)
      (rest : Act ClusterState (List WgPeer)) (s : ClusterState) (peers : List WgPeer)
      (t : ClusterState)
      → collect_found env kc server node_name wg (some node) rest s ≡ (ok peers, t)
      → (p : WgPeer) × Memᴰ p peers × IsPeerOf kc wg node p
  unfolding collect_found
  first-IsPeerOf node_name wg node rest s peers t e =
      let (p, s', filled, e') = >>=-returns _ _ s peers t e in
      let (ps, s'', later, e'') = >>=-returns _ _ s' peers t e' in
      let all : p ∷ ps ≡ peers = cc in
      (
        p,
        subst (Memᴰ p) all (Memᴰ.head refl),
        collect_node-IsPeerOf node_name wg node s p s' filled,
      )

  -- What the rest of the loop collects is in the result.
  rest-returns :
      (node_name : Bytes) (wg : WireguardClusterClient) (found : Option WireguardClusterClientNode)
      (rest : Act ClusterState (List WgPeer)) (s : ClusterState) (peers : List WgPeer)
      (t : ClusterState)
      → collect_found env kc server node_name wg found rest s ≡ (ok peers, t)
      → (s' : ClusterState) × (ps : List WgPeer) × (t' : ClusterState) × (rest s' ≡ (ok ps, t'))
        × ((p : WgPeer) → Memᴰ p ps → Memᴰ p peers)
  unfolding collect_found
  rest-returns node_name wg none rest s peers t e = (s, peers, t, e, λ p m. m)
  rest-returns node_name wg (some node) rest s peers t e =
      let (q, s', filled, e') = >>=-returns _ _ s peers t e in
      let (ps, s'', later, e'') = >>=-returns _ _ s' peers t e' in
      let all : q ∷ ps ≡ peers = cc in (s', ps, s'', later, λ p m. subst (Memᴰ p) all (Memᴰ.tail m))

  collect-IsPeerOf :
      (node_name : Bytes) (wgs : List WireguardClusterClient) (wg : WireguardClusterClient)
      (node : WireguardClusterClientNode) (s : ClusterState) (peers : List WgPeer)
      (t : ClusterState)
      → Memᴰ wg wgs
      → find_node node_name wg.spec.nodes ≡ some node
      → collect env kc server node_name wgs s ≡ (ok peers, t)
      → (p : WgPeer) × Memᴰ p peers × IsPeerOf kc wg node p
  unfolding collect
  collect-IsPeerOf node_name [] wg node s peers t m found e = elim m [ ]
  collect-IsPeerOf node_name (w ∷ wgs) wg node s peers t (Memᴰ.head here) found e =
      let same : find_node node_name w.spec.nodes ≡ some node =
        ap (λ x. find_node node_name x.spec.nodes) (sym here) ∙ found in
      let (p, m, is_peer) =
        first-IsPeerOf node_name w node (collect env kc server node_name wgs) s peers t (
          subst
            (λ o.
              collect_found env kc server node_name w o (collect env kc server node_name wgs) s
              ≡ (ok peers, t))
            same e) in
      (p, m, subst (λ x. IsPeerOf kc x node p) (sym here) is_peer)
  collect-IsPeerOf node_name (w ∷ wgs) wg node s peers t (Memᴰ.tail m) found e =
      let (s', rest, t', e', among) =
        rest-returns node_name w (find_node node_name w.spec.nodes)
          (collect env kc server node_name wgs) s peers t e in
      let (p, n, is_peer) = collect-IsPeerOf node_name wgs wg node s' rest t' m found e' in
      (p, among p n, is_peer)

  conclude-returns :
      (wgc_name : Bytes) (r : Outcome (Unit {0}) × ClusterState)
      → (conclude server.patches env.node_name wgc_name r).0 ≡ ok tt
      → (r.0 ≡ ok tt) × ((conclude server.patches env.node_name wgc_name r).1.network ≡ r.1.network)
  unfolding conclude
  conclude-returns wgc_name (ok _, s) h =
      (refl, label_node-network server.patches false env.node_name wgc_name true (ok tt) s)
  conclude-returns wgc_name (err e, s) h =
      absurd (label_node-fails server.patches true env.node_name wgc_name false e s h)
  conclude-returns wgc_name (panic e, s) h = (h, refl)

  module _ (parse_addr_port : Bytes → Option UdpAddr) (range : Assoc Link → Assoc Link)
      (kernel : Kernel) where
    links_returned :
        (node_name : Bytes) (wgs : List WireguardClusterClient) (s : ClusterState)
        → env.node_name ≡ some node_name
        → server.clients ≡ some wgs
        → (reconcile_links env kc parse_addr_port range server kernel s).0 ≡ ok tt
        → (peers : List WgPeer) × (s' : ClusterState) × (t : ClusterState) × (collect env kc server
              node_name wgs s'
            ≡ (ok peers, t))
          × ((wgc_sync kc parse_addr_port kernel range peers t.network).0 ≡ ok tt)
          × ((reconcile_links env kc parse_addr_port range server kernel s).1.network
              ≡ (wgc_sync kc parse_addr_port kernel range peers t.network).1)
    unfolding reconcile_links sync_links
    links_returned node_name wgs s named known h =
        let last : ClusterState =
          (reconcile_links env kc parse_addr_port range server kernel s).1 in
        let e : reconcile_links env kc parse_addr_port range server kernel s ≡ (ok tt, last) =
          ap (λ o. (o, last)) h in
        let (clients, listed, e') = require-returns _ server.clients _ s tt last e in
        let (name, s', own, e'') = >>=-returns _ _ s tt last e' in
        let (peers, t, collected, synced) = >>=-returns _ _ s' tt last e'' in
        let its : name ≡ node_name = cc (own_name-returns env.node_name s name s' own, named) in
        let all : clients ≡ wgs = cc (listed, known) in
        let mine : collect env kc server node_name wgs s' ≡ (ok peers, t) =
          subst (λ x. collect env kc server node_name x s' ≡ (ok peers, t)) all
            (subst (λ n. collect env kc server n clients s' ≡ (ok peers, t)) its collected) in
        (peers, s', t, mine, ap (λ r. r.0) synced, ap (λ r. r.1.network) (sym synced))

    -- When a reconcile returns without an error, every cluster client that the API server lists and
    -- that names this node has all that it asks for, by calls that succeeded: its interface was
    -- configured with its server and the server's routes, set up, given the node's address and all the
    -- routes.
    pub reconcile-IsWanted :
        (wgc_name node_name : Bytes) (wgs : List WireguardClusterClient)
        (wg : WireguardClusterClient) (node : WireguardClusterClientNode) (links : List Link)
        (s : ClusterState) (c : Need)
        → IsRange range
        → kernel.links ≡ some links
        → env.node_name ≡ some node_name
        → server.clients ≡ some wgs
        → Memᴰ wg wgs
        → find_node node_name wg.spec.nodes ≡ some node
        → (reconcile env kc parse_addr_port range server kernel wgc_name s).0 ≡ ok tt
        → IsWanted kc wg node c
        → IsDone kernel c
            (reconcile env kc parse_addr_port range server kernel wgc_name s).1.network
    unfolding reconcile
    reconcile-IsWanted wgc_name node_name wgs wg node links s c rr linked named known m found done
          wanted =
        let (fine, same) = conclude-returns wgc_name _ done in
        let (peers, s', t, collected, synced, after) =
          links_returned node_name wgs s named known fine in
        let (p, n, is_peer) = collect-IsPeerOf node_name wgs wg node s' peers t m found collected in
        subst (λ x. IsDone kernel c x) (sym (same ∙ after))
          (wgc_sync-IsRequired kc parse_addr_port kernel range links peers t.network c rr linked
            synced (IsWanted-IsRequired kc wg node links peers p c n is_peer wanted))

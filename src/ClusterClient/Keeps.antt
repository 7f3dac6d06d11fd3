-- ===== src/ClusterClient/Keeps.antt =====
-- What every run of `ClusterClientReconciler.Reconcile` (operator/wgc.go) keeps, from what its single
-- writes keep.
use wga.Base.{
  Option, none, some, List, [], ◌∷◌, ◌++◌, Bool, true, false, Bool-cases, inl, inr, Bytes, Assoc,
  is_empty,
}
use wga.Run.{Keeps, >>=-Keeps, >>-Keeps, require-Keeps, Act}
use wga.ClusterClient.{
  ClusterState, Secret, update_if, Environment, create_if, ApiServer, write_key, secret_key,
  own_name, node_key, create, update, key_from, collect, collect_found, make_secret, collect_node,
  make_peer, find_node, parse_routes, reconcile_links, sync_links, with_key,
}
use wga.Api.{WireguardClusterClient, SecretReference, WireguardClusterClientNode}
use wga.WgTypes.{KeyCodec, UdpAddr, Key}
use wga.Wgc.{Link, WgPeer, Kernel, State}

-- The writes to the API server keep `I`.
pub record AreKept (I : ClusterState → Type 0) : Type 0 where
  pub step_secret :
      (s : ClusterState) (secret : Secret)
      → I s
      → I (record s { secrets = s.secrets ++ (secret ∷ []) })
  pub step_update :
      (s : ClusterState) (wg : WireguardClusterClient)
      → I s
      → I (record s { updates = s.updates ++ (wg ∷ []) })

module _ (I : ClusterState → Type 0) (kept : AreKept I) where
  create_if-Keeps : (b : Bool) (secret : Secret) → Keeps I (create_if b secret)
  unfolding create_if
  create_if-Keeps true secret s i = kept.step_secret s secret i
  create_if-Keeps false secret s i = i

  update_if-Keeps : (b : Bool) (wg : WireguardClusterClient) → Keeps I (update_if b wg)
  unfolding update_if
  update_if-Keeps true wg s i = kept.step_update s wg i
  update_if-Keeps false wg s i = i

  module _ (env : Environment) (kc : KeyCodec) (server : ApiServer) where
    create-Keeps : (secret : Secret) → Keeps I (create env kc server secret)
    unfolding create
    create-Keeps secret s i = create_if-Keeps _ secret s i

    make_secret-Keeps :
        (namespace name : Bytes) (k : Option Key)
        → Keeps I (make_secret env kc server namespace name k)
    unfolding make_secret
    make_secret-Keeps namespace name none = λ s i. i
    make_secret-Keeps namespace name (some k) = >>-Keeps I _ _ (create-Keeps _) (λ s i. i)

    key_from-Keeps :
        (namespace name : Bytes) (found : Option Secret)
        → Keeps I (key_from env kc server namespace name found)
    unfolding key_from
    key_from-Keeps namespace name none s i =
        make_secret-Keeps namespace name (server.generates s) s i
    key_from-Keeps namespace name (some secret) s i = i

    secret_key-Keeps : (namespace name : Bytes) → Keeps I (secret_key env kc server namespace name)
    unfolding secret_key
    secret_key-Keeps namespace name s i = key_from-Keeps namespace name _ s i

    node_key-Keeps :
        (node_name wgc_name : Bytes) (value : Option Bytes) (ref : Option SecretReference)
        → Keeps I (node_key env kc server node_name wgc_name value ref)
    unfolding node_key
    node_key-Keeps node_name wgc_name (some text) ref = λ s i. i
    node_key-Keeps node_name wgc_name none none = λ s i. i
    node_key-Keeps node_name wgc_name none (some ref) =
        >>=-Keeps I _ _ (secret_key-Keeps _ _) (λ text s i. i)

    update-Keeps : (b : Bool) (wg : WireguardClusterClient) → Keeps I (update env kc server b wg)
    unfolding update
    update-Keeps true wg s i = update_if-Keeps _ wg s i
    update-Keeps false wg s i = i

    write_key-Keeps :
        (node_name : Bytes) (wg : WireguardClusterClient) (text : Bytes × Bool) (private : Key)
        → Keeps I (write_key env kc server node_name wg text private)
    unfolding write_key
    write_key-Keeps node_name wg text private = update-Keeps _ _

    pub make_peer-Keeps :
        (wg : WireguardClusterClient) (node : WireguardClusterClientNode) (private : Key)
        → Keeps I (make_peer kc wg node private)
    unfolding make_peer
    make_peer-Keeps wg node private =
        require-Keeps I _ (kc.parse_key wg.spec.server.public_key) _
          (λ public e. require-Keeps I _ (parse_routes wg.spec.routes) _ (λ routes e' s i. i))

    -- All that follows the key
    pub with_key-Keeps :
        (node_name : Bytes) (wg : WireguardClusterClient) (node : WireguardClusterClientNode)
        (text : Bytes × Bool)
        → Keeps I (with_key env kc server node_name wg node text)
    unfolding with_key
    with_key-Keeps node_name wg node text = require-Keeps I _ (kc.parse_key text.0) _ (λ private e.
        >>-Keeps I _ _ (write_key-Keeps node_name wg text private)
          (make_peer-Keeps wg node private))

    collect_node-Keeps :
        (node_name : Bytes) (wg : WireguardClusterClient) (node : WireguardClusterClientNode)
        → Keeps I (collect_node env kc server node_name wg node)
    unfolding collect_node
    collect_node-Keeps node_name wg node =
        >>=-Keeps I _ _ (node_key-Keeps _ _ node.private_key.value node.private_key.secret_ref)
          (with_key-Keeps node_name wg node)

    collect_found-Keeps :
        (node_name : Bytes) (wg : WireguardClusterClient)
        (found : Option WireguardClusterClientNode) (rest : Act ClusterState (List WgPeer))
        → Keeps I rest
        → Keeps I (collect_found env kc server node_name wg found rest)
    unfolding collect_found
    collect_found-Keeps node_name wg none rest h = h
    collect_found-Keeps node_name wg (some node) rest h =
        >>=-Keeps I _ _ (collect_node-Keeps node_name wg node)
          (λ peer. >>=-Keeps I _ _ h (λ peers s i. i))

    pub collect-Keeps :
        (node_name : Bytes) (wgs : List WireguardClusterClient)
        → Keeps I (collect env kc server node_name wgs)
    unfolding collect
    collect-Keeps node_name [] = λ s i. i
    collect-Keeps node_name (wg ∷ wgs) =
        collect_found-Keeps node_name wg (find_node node_name wg.spec.nodes) _
          (collect-Keeps node_name wgs)

    pub own_name-Keeps : (name : Option Bytes) → Keeps I (own_name name)
    unfolding own_name
    own_name-Keeps none s i = i
    own_name-Keeps (some name) s i = elim (Bool-cases (is_empty name)) [
      | inl empty ↦ simp empty i
      | inr named ↦ simp named i
    ]

    module _ (parse_addr_port : Bytes → Option UdpAddr) (range : Assoc Link → Assoc Link)
        (kernel : Kernel)
        (step_network : (s : ClusterState) (n : State) → I s → I (record s { network = n })) where
      pub reconcile_links-Keeps :
          Keeps I (reconcile_links env kc parse_addr_port range server kernel)
      unfolding reconcile_links sync_links
      reconcile_links-Keeps = require-Keeps I _ server.clients _ (λ clients e.
          >>=-Keeps I _ _ (own_name-Keeps env.node_name) (λ name.
            >>=-Keeps I _ _ (collect-Keeps name clients) (λ peers s i. step_network s _ i)))

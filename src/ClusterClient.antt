-- ===== src/ClusterClient.antt =====
-- `ClusterClientReconciler.Reconcile` of operator/wgc.go: collects what this node needs for each
-- cluster client, has `wgcSync` bring up the interfaces, and labels the node. The environment, the
-- answers of the API server and the random keys are parameters.
mod Keeps
pub mod Node
pub mod Secrets
mod Kept
pub mod Again
pub mod Labels
pub mod Ready
mod Samples
use wga.Base.{
  Bool, true, false, Option, none, some, List, [], ◌∷◌, ◌++◌, ◌&&◌, if◌then◌else◌, is_empty, Bytes,
  bytes, bytes_eq, trim_space, Outcome, ok, err, panic, Assoc, is_some, not,
}
use wga.Run.{require, Act, pure, fail, ◌>>=◌, ◌>>◌}
use wga.Api.{
  WireguardClusterClient, WireguardClusterClientNode, WireguardClusterClientStatus,
  WireguardClusterClientStatusNode, SecretReference,
}
use wga.Net.{IpNet, parse_cidr}
use wga.WgTypes.{Key, KeyCodec, UdpAddr}
use wga.Wgc.{WgPeer, Link, Kernel, State, wgc_sync}

-- `NODE_NAME`, `POD_NAMESPACE`, and the content of the service account's namespace file; a variable
-- that is not set and a file that cannot be read are `none`.
pub record Environment : Type 0 where
  pub node_name : Option Bytes
  pub pod_namespace : Option Bytes
  pub namespace_file : Option Bytes

-- `corev1.Secret`, of whose data the program reads the entry `privateKey`; missing, it is empty.
pub record Secret : Type 0 where
  pub namespace : Bytes
  pub name : Bytes
  pub private_key : Bytes

-- A label of a node: the node, the cluster client that it is for, and whether it says "Ready".
pub record NodeLabel : Type 0 where
  pub node : Bytes
  pub label : Bytes
  pub ready : Bool

-- The calls of the API server that may fail, besides `List`
pub data Request : Type 0 where
  get_secret : Bytes → Bytes → Request
  create_secret : Secret → Request
  update_client : WireguardClusterClient → Request

-- The secrets of the API server, the cluster clients that were written, the labels that the node
-- was given, and the state of `wgcSync`.
pub record ClusterState : Type 0 where
  pub secrets : List Secret
  pub updates : List WireguardClusterClient
  pub labels : List NodeLabel
  pub network : State

-- What the API server and the random source answer, which may depend on all before.
pub record ApiServer : Type 0 where
  pub clients : Option (List WireguardClusterClient)  -- List
  pub succeeds : ClusterState → Request → Bool
  pub generates : ClusterState → Option Key  -- wgtypes.GenerateKey
  pub patches : ClusterState → NodeLabel → Bool  -- Patch, in time

-- `FormatWGCNodeLabel`
unfoldable pub format_wgc_node_label : Bytes → Bytes
format_wgc_node_label name = bytes "wga.kraudcloud.com/wgc-" ++ name

-- `formatSecretName`
unfoldable pub format_secret_name : Bytes → Bytes → Bytes
format_secret_name node_name wgc_name = bytes "wgc-" ++ (wgc_name ++ (bytes "-" ++ node_name))

-- `getK8sNamespace`
namespace_of_file : Option Bytes → Bytes
namespace_of_file none = bytes "default"
namespace_of_file (some content) =
    if is_empty (trim_space content) then bytes "default" else trim_space content

unfoldable pub get_k8s_namespace : Environment → Bytes
unfolding namespace_of_file
get_k8s_namespace env = elim env.pod_namespace [
  | none ↦ namespace_of_file env.namespace_file
  | some ns ↦ ns
]

-- The first node of the cluster client that is this one.
unfoldable pub find_node :
    Bytes → List WireguardClusterClientNode → Option WireguardClusterClientNode
unfolding bytes_eq
find_node node_name [] = none
find_node node_name (n ∷ ns) =
    let rest = find_node node_name ns in if bytes_eq n.node_name node_name then some n else rest

unfoldable pub find_secret : Bytes → Bytes → List Secret → Option Secret
unfolding bytes_eq
find_secret namespace name [] = none
find_secret namespace name (s ∷ ss) =
    let rest = find_secret namespace name ss in
    if bytes_eq s.namespace namespace && bytes_eq s.name name then some s else rest

-- `wg.Status.Nodes`, with no status as none
unfoldable pub status_nodes :
    Option WireguardClusterClientStatus → List WireguardClusterClientStatusNode
status_nodes none = []
status_nodes (some status) = status.nodes

-- The loop over the status's nodes, and the entry that is appended when none is this node's:
-- the nodes, and whether they changed.
unfoldable pub record_key :
    Bytes
    → Bytes
    → List WireguardClusterClientStatusNode
    → List WireguardClusterClientStatusNode × Bool
unfolding bytes_eq
record_key node_name public [] = (record { public_key = public; node_name = node_name } ∷ [], true)
record_key node_name public (n ∷ ns) =
    let (rest, changed) = record_key node_name public ns in
    if bytes_eq n.node_name node_name
    then (if bytes_eq n.public_key public
        then (n ∷ ns, false)
        else (record n { public_key = public } ∷ ns, true))
    else (n ∷ rest, changed)

-- The loop over the routes
unfoldable pub parse_routes : List Bytes → Option (List IpNet)
unfolding parse_cidr
parse_routes [] = some []
parse_routes (r ∷ rs) =
    let rest = parse_routes rs in
    elim (parse_cidr r) [
      | none ↦ none
      | some (_, snet) ↦ elim rest [ none ↦ none | some nets ↦ some (snet ∷ nets) ]
    ]

create_if : Bool → Secret → Act ClusterState Unit
create_if true secret s = (ok tt, record s { secrets = s.secrets ++ (secret ∷ []) })
create_if false secret s = (err (bytes "error creating secret"), s)

update_if : Bool → WireguardClusterClient → Act ClusterState Unit
update_if true wg s = (ok tt, record s { updates = s.updates ++ (wg ∷ []) })
update_if false wg s = (err (bytes "error updating wgc"), s)

-- `os.Getenv("NODE_NAME")`, which must not be empty
unfoldable pub own_name : Option Bytes → Act ClusterState Bytes
own_name none = fail (bytes "NODE_NAME environment variable not set")
own_name (some name) =
    if is_empty name then fail (bytes "NODE_NAME environment variable not set") else pure name

-- `r.client.Patch`, whose error is dropped: with a cancelled context it does nothing. `getK8sNode`
-- exits when there is no name.
unfoldable pub label_node :
    (ClusterState → NodeLabel → Bool)
    → Bool
    → Option Bytes
    → Bytes
    → Bool
    → Outcome (Unit {0})
    → Act ClusterState Unit
unfolding format_wgc_node_label
label_node patches cancelled none wgc_name ready outcome s = (panic (bytes "exit"), s)
label_node patches cancelled (some node) wgc_name ready outcome s =
    let label : NodeLabel = record {
      node = node;
      label = format_wgc_node_label wgc_name;
      ready = ready;
    } in
    (
      outcome,
      if not cancelled && patches s label
          then record s { labels = s.labels ++ (label ∷ []) }
          else s,
    )

unfoldable pub secret_namespace : Environment → SecretReference → Bytes
unfolding get_k8s_namespace
secret_namespace env ref = if is_empty ref.namespace then get_k8s_namespace env else ref.namespace

unfoldable pub secret_name : Bytes → Bytes → SecretReference → Bytes
unfolding format_secret_name
secret_name node_name wgc_name ref =
    if is_empty ref.name then format_secret_name node_name wgc_name else ref.name

-- `peer := wgPeer{...}`, from the key of the server on
unfoldable pub make_peer :
    KeyCodec → WireguardClusterClient → WireguardClusterClientNode → Key → Act ClusterState WgPeer
unfolding parse_routes
make_peer kc wg node private = do
  public ←
      require (bytes "error parsing server public key") (kc.parse_key wg.spec.server.public_key)
  routes ← require (bytes "error parsing route") (parse_routes wg.spec.routes)
  pure (record {
    peer_name = wg.name;
    peer_private_key = private;
    peer_address = node.address;
    persistent_keepalive = wg.spec.persistent_keepalive;
    server_public_key = public;
    routes = routes;
    pre_shared_key = node.pre_shared_key;
    server_endpoint = wg.spec.server.endpoint;
  })

-- How the call ends. After an error the deferred function patches the node with the context that the
-- call has made its own, which the other deferred function has cancelled by then.
unfoldable pub conclude :
    (ClusterState → NodeLabel → Bool)
    → Option Bytes
    → Bytes
    → Outcome (Unit {0}) × ClusterState
    → Outcome (Unit {0}) × ClusterState
unfolding label_node
conclude patches node_name wgc_name (ok _, s) =
    label_node patches false node_name wgc_name true (ok tt) s
conclude patches node_name wgc_name (err e, s) =
    label_node patches true node_name wgc_name false (err e) s
conclude patches node_name wgc_name (panic e, s) = (panic e, s)

module _ (env : Environment) (kc : KeyCodec) (server : ApiServer) where
  -- `Get`: the secret, when the call succeeds and there is one.
  unfoldable pub get : Bytes → Bytes → ClusterState → Option Secret
  unfolding find_secret
  get namespace name s =
      if server.succeeds s (get_secret namespace name)
      then find_secret namespace name s.secrets
      else none

  -- `Create` fails when there is one already.
  unfoldable pub create : Secret → Act ClusterState Unit
  unfolding find_secret create_if
  create secret s =
      create_if
        (server.succeeds s (create_secret secret)
          && not (is_some (find_secret secret.namespace secret.name s.secrets)))
        secret s

  -- A new key becomes the secret.
  unfoldable pub make_secret : Bytes → Bytes → Option Key → Act ClusterState Bytes
  unfolding create
  make_secret namespace name none = fail (bytes "error generating key")
  make_secret namespace name (some k) =
      create (record { namespace = namespace; name = name; private_key = kc.key_string k })
      >> pure (kc.key_string k)

  key_from : Bytes → Bytes → Option Secret → Act ClusterState Bytes
  unfolding make_secret
  key_from namespace name (some secret) s = (ok secret.private_key, s)
  key_from namespace name none s = make_secret namespace name (server.generates s) s

  -- The key of the secret; whatever error `Get` returns, a new secret is made.
  unfoldable pub secret_key : Bytes → Bytes → Act ClusterState Bytes
  unfolding get key_from
  secret_key namespace name s = key_from namespace name (get namespace name s) s

  -- The text of the private key, and `updateWgc`: the value, or else the secret.
  unfoldable pub node_key :
      Bytes → Bytes → Option Bytes → Option SecretReference → Act ClusterState (Bytes × Bool)
  unfolding secret_key secret_namespace secret_name
  node_key node_name wgc_name (some text) ref = pure (text, false)
  node_key node_name wgc_name none none =
      fail (bytes "privateKey.value or privateKey.secretRef must be set")
  node_key node_name wgc_name none (some ref) =
      secret_key (secret_namespace env ref) (secret_name node_name wgc_name ref) >>= λ text.
      pure (text, true)

  -- `Update`, when something changed; the API server answers with what it was given.
  unfoldable pub update : Bool → WireguardClusterClient → Act ClusterState Unit
  unfolding update_if
  update false wg s = (ok tt, s)
  update true wg s = update_if (server.succeeds s (update_client wg)) wg s

  -- The status of `wg` with this node's key, and its Update.
  unfoldable pub write_key :
      Bytes → WireguardClusterClient → Bytes × Bool → Key → Act ClusterState Unit
  unfolding update record_key status_nodes
  write_key node_name wg text private =
      let (nodes, changed) =
        record_key node_name (kc.key_string (kc.public_key private)) (status_nodes wg.status) in
      update (if changed then true else text.1)
        (record wg { status = some (record { nodes = nodes }) })

  -- What follows the key in the body of the loop over `wgcs.Items`
  unfoldable pub with_key :
      Bytes
      → WireguardClusterClient
      → WireguardClusterClientNode
      → Bytes × Bool
      → Act ClusterState WgPeer
  unfolding write_key make_peer
  with_key node_name wg node text = do
    private ← require (bytes "error parsing key") (kc.parse_key text.0)
    write_key node_name wg text private
    make_peer kc wg node private

  -- The body of the loop, once the node is found.
  unfoldable pub collect_node :
      Bytes → WireguardClusterClient → WireguardClusterClientNode → Act ClusterState WgPeer
  unfolding node_key with_key
  collect_node node_name wg node =
      node_key node_name wg.name node.private_key.value node.private_key.secret_ref
      >>= with_key node_name wg node

  collect_found :
      Bytes
      → WireguardClusterClient
      → Option WireguardClusterClientNode
      → Act ClusterState (List WgPeer)
      → Act ClusterState (List WgPeer)
  unfolding collect_node
  collect_found node_name wg none rest = rest
  collect_found node_name wg (some node) rest =
      collect_node node_name wg node >>= λ peer. rest >>= λ peers. pure (peer ∷ peers)

  -- The loop: a cluster client without this node is skipped.
  unfoldable pub collect : Bytes → List WireguardClusterClient → Act ClusterState (List WgPeer)
  unfolding collect_found find_node
  collect node_name [] = pure []
  collect node_name (wg ∷ wgs) =
      collect_found node_name wg (find_node node_name wg.spec.nodes) (collect node_name wgs)

module _ (env : Environment) (kc : KeyCodec) (parse_addr_port : Bytes → Option UdpAddr)
    (range : Assoc Link → Assoc Link) (server : ApiServer) (kernel : Kernel) where
  -- `wgcSync`, on its own part of the state
  unfoldable pub sync_links : List WgPeer → Act ClusterState Unit
  unfolding wgc_sync
  sync_links peers s =
      let (outcome, after) = wgc_sync kc parse_addr_port kernel range peers s.network in
      (outcome, record s { network = after })

  unfoldable pub reconcile_links : Act ClusterState Unit
  unfolding collect own_name sync_links
  reconcile_links = do
    clients ← require (bytes "error listing peers") server.clients
    name ← own_name env.node_name
    peers ← collect env kc server name clients
    sync_links peers

  -- `Reconcile` for the cluster client of this name; all of them are synced.
  unfoldable pub reconcile : Bytes → Act ClusterState Unit
  unfolding conclude reconcile_links
  reconcile wgc_name s = conclude server.patches env.node_name wgc_name (reconcile_links s)

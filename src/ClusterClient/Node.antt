-- ===== src/ClusterClient/Node.antt =====
-- The nodes' public keys in the status of a cluster client, as
-- `ClusterClientReconciler.Reconcile` (operator/wgc.go) records them.
use wga.Base.{
  Option, none, some, List, [], ◌∷◌, Bytes, ◌≡◌, ◌≢◌, Bool, false, bytes_eq, bytes_eq_iff, arith,
  if◌then◌else◌, not,
}
use wga.ClusterClient.{record_key}
use wga.Api.{WireguardClusterClientStatusNode}

-- The public key of a node in a status: that of its first entry.
unfoldable pub key_of : Bytes → List WireguardClusterClientStatusNode → Option Bytes
unfolding bytes_eq
key_of node_name [] = none
key_of node_name (n ∷ ns) =
    let rest = key_of node_name ns in
    if bytes_eq n.node_name node_name then some n.public_key else rest

-- The status already says this.
unfoldable pub says : Bytes → Option Bytes → Bool
says public none = false
says public (some key) = bytes_eq key public

-- The status then has this node's key, the other nodes' keys as they were, and is called changed
-- exactly when it did not have this node's key before.
pub record_key-key_of :
    (node_name other public : Bytes) (nodes : List WireguardClusterClientStatusNode)
    → other ≢ node_name
    → (key_of node_name (record_key node_name public nodes).0 ≡ some public)
      × (key_of other (record_key node_name public nodes).0 ≡ key_of other nodes)
      × ((record_key node_name public nodes).1 ≡ not (says public (key_of node_name nodes)))
unfolding record_key key_of says
record_key-key_of node_name other public [] differs =
    ground (arith, bytes_eq_iff node_name node_name, bytes_eq_iff node_name other)
record_key-key_of node_name other public (n ∷ ns) differs = ground (
  arith,
  bytes_eq_iff n.node_name node_name,
  bytes_eq_iff n.public_key public,
  bytes_eq_iff n.node_name other,
  record_key-key_of node_name other public ns differs,
)

-- Recording the same key again changes nothing.
record_key_again :
    (node_name public : Bytes) (nodes : List WireguardClusterClientStatusNode)
    → record_key node_name public (record_key node_name public nodes).0
      ≡ ((record_key node_name public nodes).0, false)
unfolding record_key
record_key_again node_name public [] =
    ground (arith, bytes_eq_iff node_name node_name, bytes_eq_iff public public)
record_key_again node_name public (n ∷ ns) = ground (
  arith,
  bytes_eq_iff n.node_name node_name,
  bytes_eq_iff n.public_key public,
  bytes_eq_iff public public,
  record_key_again node_name public ns,
)

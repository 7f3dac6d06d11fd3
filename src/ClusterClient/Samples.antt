-- ===== src/ClusterClient/Samples.antt =====
-- `ClusterClientReconciler.Reconcile` at a concrete node, whose cluster client keeps its key in a
-- secret that is not there at first.
use wga.Base.{
  Bytes, bytes, Option, none, some, List, [], ◌∷◌, ◌≡◌, refl, ok, replicate, length, ◌==◌,
  if◌then◌else◌, true, false, lookup, insert, delete, bytes_eq, has_prefix, not, Outcome, ◌++◌,
  Bool, trim_space,
}
use wga.ClusterClient.{
  reconcile, collect, Secret, ApiServer, ClusterState, Environment, record_key, find_node,
  reconcile_links, find_secret, collect_node, with_key, node_key, write_key, make_peer, secret_key,
  get, make_secret, create, own_name, update, conclude, sync_links, status_nodes, parse_routes,
  label_node, secret_namespace, secret_name, format_secret_name, get_k8s_namespace,
}
use wga.Wgc.Required.{made, IsDone}
use wga.Run.{◌>>=◌, ◌>>◌}
use mathlib.Core.List.{Memᴰ}
use wga.ClusterClient.Node.{record_key-key_of, key_of, says}
use wga.ClusterClient.Secrets.{Holds, reconcile-Holds}
use wga.ClusterClient.Again.{collect-again}
use wga.ClusterClient.Labels.{labels_for, reconcile-labels}
use wga.ClusterClient.Ready.{is_up, reconcile-IsWanted}
use wga.Api.{WireguardClusterClient, WireguardClusterClientNode, WireguardClusterClientStatusNode}
use wga.WgTypes.{UdpAddr, KeyCodec}
use wga.Wgc.{
  wgc_sync, Kernel, Link, sync_peers, sync_peer, ensure_link, interface_name, call, sync_device,
  set_private_key, append_peer, configure, sync_network, address_net, add_routes, delete_links,
  drop_addresses, drop_routes, link_set_up, WgPeer, dst_string, existing_links, is_ours, is_route,
  keep_addresses, keep_routes, optional_key, peer_of, without_link,
}
use wga.PeerSync.Plan.{IsRange}
use wga.Wgc.Required.{made, IsDone}
use wga.Run.{◌>>◌, require}
use wga.Net.{parse_ip, is_v4, full_mask, cidr_mask, parse_cidr, net_string}

abbrev codec : KeyCodec
codec = record {
  parse_key = λ s. if length s == 32 then some s else none;
  key_string = λ k. k;
  public_key = λ k. k;
}

abbrev any_endpoint : Bytes → Option UdpAddr
any_endpoint text = some (record { ip = 10 ∷ 0 ∷ 0 ∷ 1 ∷ []; port = 51820 })

abbrev env : Environment
env = record {
  node_name = some (bytes "n1");
  pod_namespace = none;
  namespace_file = some (bytes " wga\n");
}

abbrev node : WireguardClusterClientNode
node = record {
  node_name = bytes "n1";
  private_key = record { value = none; secret_ref = some (record { name = []; namespace = [] }) };
  pre_shared_key = [];
  address = bytes "10.0.0.7";
}

abbrev client : WireguardClusterClient
client = record {
  name = bytes "vpn";
  spec = record {
    server = record { endpoint = bytes "10.0.0.1:51820"; public_key = replicate 32 66 };
    nodes = node ∷ [];
    routes = bytes "10.1.0.0/16" ∷ [];
    persistent_keepalive = 25;
  };
  status = none;
}

abbrev server : ApiServer
server = record {
  clients = some (client ∷ []);
  succeeds = λ s r. true;
  generates = λ s. some (replicate 32 65);
  patches = λ s label. true;
}

abbrev kernel : Kernel
kernel = record {
  links = some [];
  succeeds = λ before c. true;
  addrs = λ before name. [];
  routes = λ before name. some [];
}

abbrev other_secret : Secret
other_secret = record {
  namespace = bytes "wga";
  name = bytes "other";
  private_key = replicate 32 67;
}

abbrev start : ClusterState
start = record {
  secrets = other_secret ∷ [];
  updates = [];
  labels = [];
  network = record {
    config = record { private_key = none; listen_port = none; replace_peers = false; peers = [] };
    calls = [];
  };
}

abbrev final : ClusterState
final = (reconcile env codec any_endpoint (λ m. m) server kernel (bytes "vpn") start).1

in_order-IsRange : IsRange {V = Link} (λ m. m)
in_order-IsRange = record { distinct = λ m h. h; same = λ m h k. refl }

returned : (reconcile env codec any_endpoint (λ m. m) server kernel (bytes "vpn") start).0 ≡ ok tt
unfolding wgc_sync ◌>>=◌ ◌>>◌ require sync_peers sync_peer ensure_link lookup insert delete
    interface_name call sync_device set_private_key append_peer configure sync_network address_net
    parse_ip is_v4 full_mask cidr_mask parse_cidr net_string bytes_eq has_prefix add_routes
    delete_links drop_addresses drop_routes dst_string existing_links is_ours is_route
    keep_addresses keep_routes optional_key peer_of without_link reconcile reconcile_links collect
    own_name conclude sync_links label_node find_node collect_node with_key node_key write_key
    make_peer secret_key get make_secret create update record_key status_nodes parse_routes
    find_secret secret_namespace secret_name format_secret_name get_k8s_namespace trim_space
returned = refl

abbrev recorded : List WireguardClusterClientStatusNode × Bool
recorded = record_key (bytes "n1") (bytes "key") []

record_key-key_of_example :
    (key_of (bytes "n1") recorded.0 ≡ some (bytes "key"))
    × (key_of (bytes "n10") recorded.0 ≡ key_of (bytes "n10") [])
    × (recorded.1 ≡ not (says (bytes "key") (key_of (bytes "n1") [])))
record_key-key_of_example = record_key-key_of (bytes "n1") (bytes "n10") (bytes "key") [] (λ e. cc)

other_held : Holds (bytes "wga") (bytes "other") other_secret start
unfolding find_secret bytes_eq
other_held = refl

reconcile-Holds_example : Holds (bytes "wga") (bytes "other") other_secret final
reconcile-Holds_example =
    reconcile-Holds env codec any_endpoint (λ m. m) server kernel (bytes "vpn") (bytes "wga")
      (bytes "other") other_secret start other_held

reconcile-labels_example :
    ((reconcile env codec any_endpoint (λ m. m) server kernel (bytes "vpn") start).0
      ≡ (reconcile_links env codec any_endpoint (λ m. m) server kernel start).0)
    × (final.labels
        ≡ []
          ++ labels_for
              (λ s label. true)
              (bytes "n1")
              (bytes "vpn")
              (reconcile_links env codec any_endpoint (λ m. m) server kernel start))
reconcile-labels_example =
    reconcile-labels env codec any_endpoint (λ m. m) server kernel (bytes "vpn") (bytes "n1") start
      refl

found_here : find_node (bytes "n1") (node ∷ []) ≡ some node
unfolding find_node bytes_eq
found_here = refl

reconcile-IsWanted_example :
    IsDone kernel (made (link_set_up (bytes "wgc-" ++ bytes "vpn"))) final.network
reconcile-IsWanted_example =
    reconcile-IsWanted env codec server any_endpoint (λ m. m) kernel (bytes "vpn") (bytes "n1")
      (client ∷ []) client node [] start (made (link_set_up (bytes "wgc-vpn"))) in_order-IsRange
      refl refl refl (Memᴰ.head refl) found_here returned is_up

abbrev our_peer : WgPeer
our_peer = record {
  peer_name = bytes "vpn";
  peer_private_key = replicate 32 65;
  peer_address = bytes "10.0.0.7";
  persistent_keepalive = 25;
  server_public_key = replicate 32 66;
  routes = record { ip = 10 ∷ 1 ∷ 0 ∷ 0 ∷ []; mask = 255 ∷ 255 ∷ 0 ∷ 0 ∷ [] } ∷ [];
  pre_shared_key = [];
  server_endpoint = bytes "10.0.0.1:51820";
}

abbrev once : Outcome (List WgPeer) × ClusterState
once = collect env codec server (bytes "n1") (client ∷ []) start

first_run : once ≡ (ok (our_peer ∷ []), once.1)
unfolding ◌>>=◌ ◌>>◌ require parse_ip is_v4 cidr_mask parse_cidr bytes_eq collect find_node
    collect_node with_key node_key write_key make_peer secret_key get make_secret create update
    record_key status_nodes parse_routes find_secret secret_namespace secret_name format_secret_name
    get_k8s_namespace trim_space
first_run = refl

collect-again_example :
    (u : ClusterState) × (collect env codec server (bytes "n1") (client ∷ []) once.1
      ≡ (ok (our_peer ∷ []), u))
    × (u.secrets ≡ once.1.secrets)
collect-again_example =
    collect-again env codec server server (bytes "n1") (client ∷ []) (client ∷ []) (our_peer ∷ [])
      start once.1 once.1 (λ s r. refl) (refl, refl, tt) first_run (λ ns n x h. h)

-- ===== src/Peers/Samples.antt =====
-- peers.go at concrete inputs.
use wga.Base.{
  [], ◌∷◌, Bytes, bytes, ◌≡◌, refl, Option, some, none, ok, replicate, length, ◌==◌, if◌then◌else◌,
  true, arith, List, ◌++◌,
}
use mathlib.Core.List.{Memᴰ}
use wga.WgTypes.{KeyCodec, UdpAddr, Key}
use wga.PeerReconcile.Samples.{v6_net, both, surroundings, both-AreUsable, both_v6}
use wga.PeerReconcile.{reconcile, new_addresses, v6_nets, new_status}
use wga.PeerReconcile.Assigns.{IsPicked, IsGiven}
use wga.Peers.Watch.{new_wga_peer-IsGiven}
use wga.Peers.Keys.{IsPaired, wgc-IsPaired}
use wga.Peers.Carried.{file_peers-preshared_key}
use wga.Api.{
  WireguardClusterClient, WireguardAccessPeer, WireguardAccessPeerStatusPeer,
  WireguardClusterClientNode,
}
use wga.Peers.{wgc, file_peers, new_wga_peer, Cluster, peer_value, no_object, peer_event}
use wga.Format.{FilePeer}
use wga.Index.{generate_index}
use wga.Net.{mask_size}

abbrev codec : KeyCodec
codec = record {
  parse_key = λ s. if length s == 32 then some s else none;
  key_string = λ k. k;
  public_key = λ k. k;
}

abbrev any_endpoint : Bytes → Option UdpAddr
any_endpoint text = some (record { ip = 10 ∷ 0 ∷ 0 ∷ 1 ∷ []; port = 51820 })

abbrev key_a : Key
key_a = replicate 32 65

abbrev key_b : Key
key_b = replicate 32 66

abbrev asked : WireguardAccessPeer
asked = peer_value codec (bytes "laptop") [] key_a key_b

-- The operator answers after an event without a status.
abbrev cluster : Cluster
cluster = record {
  connects = true;
  creates = λ p. true;
  watch =
      λ p. some (no_object ∷ peer_event p ∷ peer_event (reconcile both surroundings p).stored ∷ []);
}

asked_new : asked.status ≡ none
unfolding peer_value
asked_new = refl

new_wga_peer-IsGiven_example :
    (addr : Bytes) × IsPicked both surroundings addr
    × IsGiven both surroundings addr asked (reconcile both surroundings asked)
    × (new_wga_peer codec cluster (bytes "laptop") [] key_a key_b
        ≡ ok (reconcile both surroundings asked).stored)
new_wga_peer-IsGiven_example =
    new_wga_peer-IsGiven codec cluster (bytes "laptop") [] key_a key_b both surroundings v6_net []
      (no_object ∷ peer_event asked ∷ []) [] (λ n h. omega arith) (λ n h. h) both-AreUsable both_v6
      refl refl refl refl (tt, (asked_new, tt))

abbrev node : WireguardClusterClientNode
node = record {
  node_name = bytes "n1";
  pre_shared_key = key_b;
  private_key = record { value = some key_a; secret_ref = none };
  address = bytes "fd00::";
}

abbrev client : WireguardClusterClient
client = record {
  name = bytes "vpn";
  spec = record {
    nodes = node ∷ [];
    routes = bytes "fd00::/112" ∷ [];
    server = record { endpoint = bytes "vpn.example.com:51820"; public_key = bytes "key" };
    persistent_keepalive = 60;
  };
  status = none;
}

made : wgc codec cluster [] (bytes "vpn") ((bytes "n1", some key_a, some key_b) ∷ []) ≡ ok client
unfolding wgc reconcile new_addresses v6_nets generate_index mask_size new_status
    wga.PeerReconcile.assign
made = refl

wgc-IsPaired_example : IsPaired codec cluster [] (bytes "vpn") node
wgc-IsPaired_example =
    wgc-IsPaired codec cluster [] (bytes "vpn") ((bytes "n1", some key_a, some key_b) ∷ []) client
      node made (Memᴰ.head refl)

abbrev status_peer : Bytes → WireguardAccessPeerStatusPeer
status_peer psk = record {
  public_key = key_a;
  endpoint = bytes "10.0.0.1:51820";
  pre_shared_key = psk;
  allowed_ips = [];
}

abbrev file_peer_with : Key → FilePeer
file_peer_with psk = record {
  endpoint = record { ip = 10 ∷ 0 ∷ 0 ∷ 1 ∷ []; port = 51820 };
  public_key = key_a;
  preshared_key = psk;
  allowed_ips = [];
  persistent_keepalive_interval = 60_000_000_000;
}

both_parse :
    file_peers codec any_endpoint key_a (status_peer key_b ∷ status_peer [] ∷ [])
    ≡ ok (file_peer_with key_b ∷ file_peer_with key_b ∷ [])
unfolding file_peers
both_parse = refl

file_peers-preshared_key_example :
    (first : List FilePeer) × (f : FilePeer) × (g : FilePeer) × (rest : List FilePeer)
    × (file_peer_with key_b ∷ file_peer_with key_b ∷ [] ≡ first ++ (f ∷ g ∷ rest))
    × (length first ≡ 0)
    × (g.preshared_key ≡ f.preshared_key)
file_peers-preshared_key_example =
    file_peers-preshared_key codec any_endpoint key_a [] (status_peer key_b) (status_peer []) []
      (file_peer_with key_b ∷ file_peer_with key_b ∷ []) refl both_parse

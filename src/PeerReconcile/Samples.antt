-- ===== src/PeerReconcile/Samples.antt =====
-- `Reconcile` at concrete inputs: one IPv4 and one IPv6 client network.
use mathlib.Core.Bool.{false≢true}
use wga.Base.{
  ◌∙◌, bytes_eq, sym, ap, true, false, none, some, List, [], ◌∷◌, ◌++◌, ◌≡◌, ok, panic, bytes,
  replicate, refl, Option, Bytes, arith, ◌<◌, ◌/◌,
}
use wga.PeerReconcile.Life.{Life, created, edited, deleted, reconciled, done, IsKept, life-IsKept}
use wga.Api.{WireguardAccessPeerSpec, WireguardAccessPeer, WireguardAccessPeerStatus}
use wga.Net.{IpNet, is_v4}
use mathlib.Core.List.{Memᴰ}
use wga.Index.{mask_bits, generate_index}
use wga.Net.{mask_size}
use wga.PeerReconcile.{
  assign, new_addresses, new_status, migrate, PeerReconciler, Surroundings, reconcile, v6_nets,
}
use wga.PeerReconcile.Stable.{
  HasAddresses, reconcile-HasAddresses, stored-HasAddresses, reconcile-reconcile,
}
use wga.PeerReconcile.Assigns.{IsPicked, IsGiven, AreUsable, reconcile-IsPicked}
use wga.PeerReconcile.Legacy.{forget, reconcile-IsLegacy, reconcile_panics}

abbrev v4_net : IpNet
v4_net = record { ip = 10 ∷ 0 ∷ 0 ∷ 0 ∷ []; mask = 255 ∷ 255 ∷ 0 ∷ 0 ∷ [] }

abbrev pub v6_net : IpNet
v6_net = record { ip = 253 ∷ replicate 15 0; mask = replicate 14 255 ++ (0 ∷ 0 ∷ []) }

abbrev pub both : PeerReconciler
both = record {
  server_addr = bytes "vpn.example.com";
  clients_nets = v4_net ∷ v6_net ∷ [];
  services_nets = v6_net ∷ [];
  dns_servers = bytes "fd00::53" ∷ [];
}

abbrev only_v4 : PeerReconciler
only_v4 = record {
  server_addr = bytes "vpn.example.com";
  clients_nets = v4_net ∷ [];
  services_nets = [];
  dns_servers = [];
}

-- Every host is the network's address: enough for one peer.
abbrev pub surroundings : Surroundings
surroundings = record {
  host_big = λ net i. some net.ip;
  int_n = λ n. 0;
  int64_n = λ n. n / 2;
  now = 1704067200000000000;
  migrates = true;
  updates = true;
  public_key = bytes "key";
  listen_port = 51820;
  sync_outcome = ok tt;
}

abbrev peer_with : Option WireguardAccessPeerStatus → WireguardAccessPeer
peer_with status = record {
  name = bytes "laptop";
  spec = record { pre_shared_key = []; public_key = bytes "k"; access_rules = [] };
  status = status;
}

abbrev status_with : Bytes → List Bytes → WireguardAccessPeerStatus
status_with address addresses = record {
  last_updated = 0;
  address = address;
  addresses = addresses;
  dns = [];
  peers = [];
}

abbrev new_peer : WireguardAccessPeer
new_peer = peer_with none

abbrev legacy_peer : WireguardAccessPeer
legacy_peer = peer_with (some (status_with (bytes "fd00::7") []))

abbrev settled_peer : WireguardAccessPeer
settled_peer = peer_with (some (status_with (bytes "fd00::7") (bytes "fd00::7" ∷ [])))

reconcile-HasAddresses_example :
    reconcile both surroundings settled_peer
    ≡ record { outcome = ok tt; stored = settled_peer; synced = false }
reconcile-HasAddresses_example =
    reconcile-HasAddresses both surroundings settled_peer (_, refl, refl)

new_succeeds : (reconcile both surroundings new_peer).outcome ≡ ok tt
unfolding reconcile assign new_addresses v6_nets generate_index mask_size new_status
new_succeeds = refl

legacy_succeeds : (reconcile both surroundings legacy_peer).outcome ≡ ok tt
unfolding reconcile migrate assign new_addresses v6_nets generate_index mask_size new_status
legacy_succeeds = refl

stored-HasAddresses_example : HasAddresses (reconcile both surroundings legacy_peer).stored
stored-HasAddresses_example = stored-HasAddresses both surroundings legacy_peer legacy_succeeds

reconcile-reconcile_example :
    let again = reconcile only_v4 surroundings (reconcile both surroundings new_peer).stored in
    (again.outcome ≡ ok tt)
    × (again.stored ≡ (reconcile both surroundings new_peer).stored)
    × (again.synced ≡ false)
reconcile-reconcile_example =
    reconcile-reconcile both only_v4 surroundings surroundings new_peer new_succeeds

v4_net_below : mask_bits v4_net < 128
unfolding mask_bits mask_size
v4_net_below = omega arith

v6_net_below : mask_bits v6_net < 128
unfolding mask_bits mask_size
v6_net_below = omega arith

mask_bits_below : (n : IpNet) → Memᴰ n both.clients_nets → mask_bits n < 128
mask_bits_below n (Memᴰ.head e) = rw e v4_net_below
mask_bits_below n (Memᴰ.tail (Memᴰ.head e)) = rw e v6_net_below
mask_bits_below n (Memᴰ.tail (Memᴰ.tail m)) = elim m [ ]

pub both-AreUsable : AreUsable both surroundings both.clients_nets
both-AreUsable n m = (mask_bits_below n m, λ i h. (n.ip, refl))

pub both_v6 : v6_nets both.clients_nets ≡ v6_net ∷ []
unfolding v6_nets
both_v6 = refl

reconcile-IsPicked_example :
    (addr : Bytes) × IsPicked both surroundings addr
    × IsGiven both surroundings addr new_peer (reconcile both surroundings new_peer)
reconcile-IsPicked_example =
    reconcile-IsPicked both surroundings (λ n h. omega arith) (λ n h. h) both-AreUsable new_peer
      v6_net [] tt both_v6 refl

reconcile-IsLegacy_example :
    reconcile both surroundings legacy_peer ≡ reconcile both surroundings (forget legacy_peer)
reconcile-IsLegacy_example =
    reconcile-IsLegacy both surroundings legacy_peer (_, refl, refl, refl) legacy_succeeds

only_v4_v4 : (n : IpNet) → Memᴰ n only_v4.clients_nets → is_v4 n.ip ≡ true
unfolding is_v4
only_v4_v4 n (Memᴰ.head e) = rw e refl
only_v4_v4 n (Memᴰ.tail m) = elim m [ ]

reconcile_panics_example :
    reconcile only_v4 surroundings new_peer
    ≡ record { outcome = panic (bytes "index out of range"); stored = new_peer; synced = false }
reconcile_panics_example = reconcile_panics only_v4 surroundings new_peer tt only_v4_v4

abbrev phone : WireguardAccessPeer
phone = record new_peer { name = bytes "phone" }

abbrev tablet : WireguardAccessPeer
tablet = record new_peer { name = bytes "tab" }

abbrev first_peer : WireguardAccessPeer
first_peer = (reconcile both surroundings new_peer).stored

abbrev new_spec : WireguardAccessPeerSpec
new_spec = record first_peer.spec { access_rules = bytes "db" ∷ [] }

abbrev edited_peer : WireguardAccessPeer
edited_peer = record first_peer { spec = new_spec }

abbrev stored : WireguardAccessPeer → WireguardAccessPeer
stored peer = (reconcile both surroundings peer).stored

-- Two peers are created, one of them is deleted and the other is reconciled; then the peer that was
-- there is edited and reconciled.
abbrev some_life :
    Life both (first_peer ∷ []) (stored phone ∷ stored edited_peer ∷ []) (bytes "tab" ∷ [])
some_life = created phone (
    created tablet (
      deleted [] (phone ∷ first_peer ∷ []) tablet (
        reconciled [] (first_peer ∷ []) phone surroundings (
          edited (stored phone ∷ []) [] first_peer new_spec
            (reconciled (stored phone ∷ []) [] edited_peer surroundings done)))))

name_kept : (reconcile both surroundings new_peer).stored.name ≡ bytes "laptop"
unfolding reconcile assign new_addresses v6_nets generate_index mask_size new_status
name_kept = refl

laptop_stays : ¬ (Memᴰ first_peer.name (bytes "tab" ∷ []))
unfolding bytes_eq
laptop_stays (Memᴰ.head e) = false≢true (sym (ap (bytes_eq (bytes "laptop")) (sym name_kept ∙ e)))
laptop_stays (Memᴰ.tail m) = elim m [ ]

life-IsKept_example :
    HasAddresses first_peer × IsKept first_peer (stored phone ∷ stored edited_peer ∷ [])
life-IsKept_example =
    life-IsKept surroundings new_peer new_succeeds (Memᴰ.head refl) some_life laptop_stays

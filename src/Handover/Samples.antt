-- ===== src/Handover/Samples.antt =====
-- Two peers of one network, whose hosts are numbered by their last bytes.
use wga.Base.{
  ℕ, zero, suc, ◌*◌, ◌/◌, ◌%◌, ◌<◌, Option, none, some, [], ◌∷◌, ◌++◌, Bytes, bytes, ◌≡◌, ◌≢◌, refl,
  sym, ap, ◌∙◌, arith, replicate, true, All, length, subst, drop, false, ok,
}
use mathlib.Core.List.{Memᴰ}
use wga.PeerReconcile.{PeerReconciler, Surroundings, reconcile, v6_nets}
use wga.PeerReconcile.Assigns.{IsGiven, AreUsable}
use wga.PeerSync.{allowed_ips, status_addresses}
use wga.Handover.{NumbersHosts, reconcile-allowed_ips, reconcile-distinct}
use wga.Api.{WireguardAccessPeer, WireguardAccessPeerStatus}
use wga.Net.{to4, IpNet, mask_size, Ip, IsV6, is_v4, cidr_mask}
use wga.Index.{big_max, mask_bits}

-- The last bytes, the lowest first
abbrev low_bytes : ℕ → ℕ → Bytes
low_bytes zero i = []
low_bytes (suc k) i = i % 256 ∷ low_bytes k (i / 256)

abbrev limit : ℕ → ℕ
limit zero = 1
limit (suc k) = 256 * limit k

low_bytes_injective :
    (k i j : ℕ) → i < limit k → j < limit k → low_bytes k i ≡ low_bytes k j → i ≡ j
low_bytes_injective zero i j h h' e = omega arith
low_bytes_injective (suc k) i j h h' e =
    let low : i % 256 ≡ j % 256 = cc in
    let rest : low_bytes k (i / 256) ≡ low_bytes k (j / 256) = cc in
    let high = low_bytes_injective k (i / 256) (j / 256) (omega arith) (omega arith) rest in
    omega arith

low_bytes_small : (k i : ℕ) → All (λ b. b < 256) (low_bytes k i)
low_bytes_small zero i = tt
low_bytes_small (suc k) i = (omega arith, low_bytes_small k (i / 256))

length-low_bytes : (k i : ℕ) → length (low_bytes k i) ≡ k
length-low_bytes zero i = refl
length-low_bytes (suc k) i = ap suc (length-low_bytes k (i / 256))

abbrev net : IpNet
net = record { ip = 253 ∷ replicate 15 0; mask = replicate 5 255 ++ replicate 11 0 }

abbrev host : IpNet → ℕ → Option Ip
host n i = some (253 ∷ 0 ∷ 0 ∷ 0 ∷ 0 ∷ low_bytes 11 i)

abbrev reconciler : PeerReconciler
reconciler = record {
  server_addr = bytes "vpn.example.com";
  clients_nets = net ∷ [];
  services_nets = [];
  dns_servers = [];
}

abbrev at_time : ℕ → Surroundings
at_time now = record {
  host_big = host;
  int_n = λ n. 0;
  int64_n = λ n. n / 2;
  now = now;
  migrates = true;
  updates = true;
  public_key = bytes "key";
  listen_port = 51820;
  sync_outcome = ok tt;
}

abbrev first : Surroundings
first = at_time 1704067200000000000

abbrev second : Surroundings
second = at_time 1704067200000000002

abbrev peer_called : Bytes → WireguardAccessPeer
peer_called name = record {
  name = name;
  spec = record { pre_shared_key = []; public_key = bytes "k"; access_rules = [] };
  status = none;
}

host_bits : mask_bits net ≡ 88
unfolding mask_bits mask_size
host_bits = refl

host_count : big_max (mask_bits net) ≡ limit 11
unfolding big_max mask_bits mask_size
host_count = refl

from_some : (a b : Ip) → some a ≡ some b → a ≡ b
from_some a b e = cc

host-IsV6 : (i : ℕ) → IsV6 (253 ∷ 0 ∷ 0 ∷ 0 ∷ 0 ∷ low_bytes 11 i)
unfolding to4
host-IsV6 i = record {
  sized = ap (λ n. suc (suc (suc (suc (suc n))))) (length-low_bytes 11 i);
  small = (
    omega arith,
    (omega arith, (omega arith, (omega arith, (omega arith, low_bytes_small 11 i)))),
  );
  not_v4 = refl;
}

numbered : NumbersHosts host net
numbered = record {
  v6 = λ i ip e. subst IsV6 (from_some _ ip e) (host-IsV6 i);
  apart = λ i j ip h h' e e'.
      low_bytes_injective 11 i j (subst (λ x. i < x) host_count h)
        (subst (λ x. j < x) host_count h') (ap (drop 5) (from_some _ _ (e ∙ sym e')));
}

usable : (now : ℕ) → AreUsable reconciler (at_time now) reconciler.clients_nets
usable now n (Memᴰ.head e) =
    let below : mask_bits net < 128 = rw host_bits (omega arith) in
    (subst (λ x. mask_bits x < 128) (sym e) below, λ i h. (_, refl))
usable now n (Memᴰ.tail m) = elim m [ ]

all_numbered :
    (n : IpNet) → Memᴰ n reconciler.clients_nets → is_v4 n.ip ≡ false → NumbersHosts host n
all_numbered n (Memᴰ.head e) v6 = subst (NumbersHosts host) (sym e) numbered
all_numbered n (Memᴰ.tail m) v6 = elim m [ ]

one_net : v6_nets reconciler.clients_nets ≡ net ∷ []
unfolding v6_nets
one_net = refl

reconcile-allowed_ips_example :
    (status : WireguardAccessPeerStatus) × (cnet : IpNet) × (index : ℕ) × (ip : Ip) × Memᴰ cnet
      reconciler.clients_nets
    × (host cnet index ≡ some ip)
    × ((reconcile reconciler first (peer_called (bytes "a"))).stored
        ≡ record (peer_called (bytes "a")) { status = some status })
    × (allowed_ips (status_addresses status) ≡ record { ip = ip; mask = cidr_mask 128 128 } ∷ [])
reconcile-allowed_ips_example =
    reconcile-allowed_ips reconciler first (peer_called (bytes "a")) net [] (λ n h. omega arith)
      (λ n h. h) (usable first.now) all_numbered refl one_net refl

reconcile-distinct_example :
    (addr : Bytes) × (addr' : Bytes) × IsGiven reconciler first addr
      (peer_called (bytes "a"))
      (reconcile reconciler first (peer_called (bytes "a")))
    × IsGiven reconciler second addr'
        (peer_called (bytes "b"))
        (reconcile reconciler second (peer_called (bytes "b")))
    × (addr ≢ addr')
reconcile-distinct_example =
    reconcile-distinct reconciler first second (peer_called (bytes "a")) (peer_called (bytes "b"))
      net (λ n h. omega arith) (λ n h. omega arith) (λ n h. h) (λ n h. h) (usable first.now)
      (usable second.now) numbered refl refl refl one_net (rw host_bits (omega arith)) (omega arith)
      (omega arith) refl refl

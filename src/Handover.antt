-- ===== src/Handover.antt =====
-- From the peer reconciler to the device, of operator/wga.go: the text of a peer's address in its
-- status, which `PeerReconciler.Reconcile` prints and `wgaSync` parses.
mod Samples
use wga.Base.{
  ℕ, ◌+◌, ◌<◌, ◌≤◌, ◌^◌, Bool, true, false, Bool-cases, Option, none, some, List, [], ◌∷◌, Bytes,
  ◌≡◌, ◌≢◌, refl, sym, ap, ◌∙◌, inl, inr, arith, ok, is_empty, if◌then◌else◌, subst, length,
}
use mathlib.Core.List.{Memᴰ}
use wga.PeerReconcile.{PeerReconciler, Surroundings, reconcile, v6_nets}
use wga.PeerReconcile.Assigns.{IsPicked, IsGiven, AreUsable, reconcile-IsPicked, IsNew}
use wga.PeerSync.{allowed_ips, status_addresses, host_net}
use wga.Index.{generate_index, mask_bits, big_max}
use wga.Net.{IpNet, Ip, is_v4, IsV6, ip_string, cidr_mask, parse_ip-ip_string, parse_ip}
use wga.Api.{WireguardAccessPeer, WireguardAccessPeerStatus}
use wga.Index.Bounds.{IsRandom}
use wga.Index.Distinct.{generate_index-distinct}

-- What `cidr.HostBig` does in an IPv6 network: its hosts are IPv6 addresses, and two host numbers
-- have two addresses.
pub record NumbersHosts (host_big : IpNet → ℕ → Option Ip) (net : IpNet) : Type 0 where
  pub v6 : (i : ℕ) (ip : Ip) → host_big net i ≡ some ip → IsV6 ip
  pub apart :
      (i j : ℕ) (ip : Ip)
      → i < big_max (mask_bits net)
      → j < big_max (mask_bits net)
      → host_big net i ≡ some ip
      → host_big net j ≡ some ip
      → i ≡ j

mem-v6_nets_of :
    (nets : List IpNet) (n : IpNet) → Memᴰ n nets → is_v4 n.ip ≡ false → Memᴰ n (v6_nets nets)
unfolding v6_nets
mem-v6_nets_of [] n m v6 = elim m [ ]
mem-v6_nets_of (x ∷ nets) n (Memᴰ.head e) v6 =
    let other : is_v4 x.ip ≡ false = ap (λ y. is_v4 y.ip) (sym e) ∙ v6 in rw other (Memᴰ.head e)
mem-v6_nets_of (x ∷ nets) n (Memᴰ.tail m) v6 = elim (Bool-cases (is_v4 x.ip)) [
  | inl v4 ↦ rw v4 (mem-v6_nets_of nets n m v6)
  | inr other ↦ rw other (Memᴰ.tail (mem-v6_nets_of nets n m v6))
]

only_net :
    (nets : List IpNet) (n m : IpNet)
    → v6_nets nets ≡ n ∷ []
    → Memᴰ m nets
    → is_v4 m.ip ≡ false
    → m ≡ n
only_net nets n m e listed v6 = elim (subst (Memᴰ m) e (mem-v6_nets_of nets m listed v6)) [
  | Memᴰ.head same ↦ same
  | Memᴰ.tail later ↦ elim later [ ]
]

is_v4-IsV6 : (ip : Ip) → IsV6 ip → is_v4 ip ≡ false
unfolding is_v4
is_v4-IsV6 ip h = ground (arith, h.not_v4)

-- One printed address is allowed as the single host that it names.
allowed_ips-ip_string :
    (ip : Ip)
    → IsV6 ip
    → allowed_ips (ip_string ip ∷ []) ≡ record { ip = ip; mask = cidr_mask 128 128 } ∷ []
unfolding allowed_ips host_net
allowed_ips-ip_string ip h =
    ap (λ x. if is_empty x then [] else host_net x ∷ []) (parse_ip-ip_string ip h)
    ∙ present (is_empty ip) (is_v4 ip) (not_empty ip h.sized) (is_v4-IsV6 ip h)
  where
    not_empty : (x : Ip) → length x ≡ 16 → is_empty x ≡ false
    not_empty [] e = absurd (omega (arith, e))
    not_empty (c ∷ x) e = refl

    with_mask : Bytes → List IpNet
    with_mask mask = record { ip = ip; mask = mask } ∷ []

    present :
        (a b : Bool)
        → a ≡ false
        → b ≡ false
        → (if a then [] else with_mask (if b then cidr_mask 32 32 else cidr_mask 128 128))
          ≡ with_mask (cidr_mask 128 128)
    present a b e f = rw (e, f) refl

-- When all client networks are usable and the hosts of the IPv6 ones are IPv6 addresses, a new peer's
-- status after the reconcile is one from which `wgaSync` allows on the device exactly one host, with
-- the full mask: the host of a client network that the reconcile drew.
pub reconcile-allowed_ips :
    (r : PeerReconciler) (s : Surroundings) (peer : WireguardAccessPeer) (n : IpNet)
    (nets : List IpNet)
    → IsRandom s.int64_n
    → ((m : ℕ) → 0 < m → s.int_n m < m)
    → AreUsable r s r.clients_nets
    → ((m : IpNet) → Memᴰ m r.clients_nets → is_v4 m.ip ≡ false → NumbersHosts s.host_big m)
    → peer.status ≡ none
    → v6_nets r.clients_nets ≡ n ∷ nets
    → s.updates ≡ true
    → (status : WireguardAccessPeerStatus) × (cnet : IpNet) × (index : ℕ) × (ip : Ip) × Memᴰ cnet
        r.clients_nets
      × (s.host_big cnet index ≡ some ip)
      × ((reconcile r s peer).stored ≡ record peer { status = some status })
      × (allowed_ips (status_addresses status) ≡ record { ip = ip; mask = cidr_mask 128 128 } ∷ [])
unfolding status_addresses
reconcile-allowed_ips r s peer n nets random picks usable hosts new e updates =
    let (addr, picked, given) =
      reconcile-IsPicked r s random picks usable peer n nets (subst IsNew (sym new) tt) e updates in
    let (status, result, address, addresses, servers) = given in
    let is_host =
      (hosts picked.cnet picked.listed picked.is_v6).v6 picked.index picked.ip picked.host in
    (
      status,
      picked.cnet,
      picked.index,
      picked.ip,
      picked.listed,
      picked.host,
      ap (λ x. x.stored) result,
      ap (λ x. allowed_ips (if is_empty x then status.address ∷ [] else x)) addresses
          ∙ ap (λ x. allowed_ips (x ∷ [])) picked.text
          ∙ allowed_ips-ip_string picked.ip is_host,
    )

-- The host that was drawn, when there is one IPv6 client network
drawn :
    (r : PeerReconciler) (s : Surroundings) (n : IpNet) (addr : Bytes)
    → IsPicked r s addr
    → v6_nets r.clients_nets ≡ n ∷ []
    → (index : ℕ) × (ip : Ip) × (generate_index s.int64_n s.now (mask_bits n) ≡ ok index)
      × (index < big_max (mask_bits n))
      × (s.host_big n index ≡ some ip)
      × (addr ≡ ip_string ip)
drawn r s n addr picked e =
    let same = only_net r.clients_nets n picked.cnet e picked.listed picked.is_v6 in
    (
      picked.index,
      picked.ip,
      subst (λ x. generate_index s.int64_n s.now (mask_bits x) ≡ ok picked.index) same picked.made,
      subst (λ x. picked.index < big_max (mask_bits x)) same picked.in_range,
      subst (λ x. s.host_big x picked.index ≡ some picked.ip) same picked.host,
      picked.text,
    )

-- With one IPv6 client network, of 80 to 127 host bits, two new peers that are reconciled at least two
-- nanoseconds apart, within the range of the clock, are given different addresses.
pub reconcile-distinct :
    (r : PeerReconciler) (s s' : Surroundings) (peer peer' : WireguardAccessPeer) (n : IpNet)
    → IsRandom s.int64_n
    → IsRandom s'.int64_n
    → ((m : ℕ) → 0 < m → s.int_n m < m)
    → ((m : ℕ) → 0 < m → s'.int_n m < m)
    → AreUsable r s r.clients_nets
    → AreUsable r s' r.clients_nets
    → NumbersHosts s.host_big n
    → s'.host_big ≡ s.host_big
    → peer.status ≡ none
    → peer'.status ≡ none
    → v6_nets r.clients_nets ≡ n ∷ []
    → 80 ≤ mask_bits n
    → s.now + 2 ≤ s'.now
    → s'.now < 2 ^ 63
    → s.updates ≡ true
    → s'.updates ≡ true
    → (addr : Bytes) × (addr' : Bytes) × IsGiven r s addr peer (reconcile r s peer)
      × IsGiven r s' addr' peer' (reconcile r s' peer')
      × (addr ≢ addr')
reconcile-distinct r s s' peer peer' n random random' picks picks' usable usable' hosts same_hosts
      new new' e wide later range updates updates' =
    let (addr, picked, given) =
      reconcile-IsPicked r s random picks usable peer n [] (subst IsNew (sym new) tt) e updates in
    let (addr', picked', given') =
      reconcile-IsPicked r s' random' picks' usable' peer' n [] (subst IsNew (sym new') tt) e
        updates' in
    let (i, ip, made, below, host, text) = drawn r s n addr picked e in
    let (j, ip', made', below', host', text') = drawn r s' n addr' picked' e in
    let hosted : s.host_big n j ≡ some ip' = ap (λ f. f n j) (sym same_hosts) ∙ host' in
    let below_128 : mask_bits n < 128 =
      subst (λ x. mask_bits x < 128)
        (only_net r.clients_nets n picked.cnet e picked.listed picked.is_v6)
        (usable picked.cnet picked.listed).0 in
    (
      addr,
      addr',
      given,
      given',
      λ same.
          let one : ip ≡ ip' =
            sym (parse_ip-ip_string ip (hosts.v6 i ip host))
            ∙ ap parse_ip (sym text ∙ same ∙ text')
            ∙ parse_ip-ip_string ip' (hosts.v6 j ip' hosted) in
          let index : i ≡ j = hosts.apart i j ip below below' host (hosted ∙ ap some (sym one)) in
          generate_index-distinct s.int64_n s'.int64_n random random' s.now s'.now (mask_bits n)
            wide below_128 later range (made ∙ ap ok index ∙ sym made'),
    )

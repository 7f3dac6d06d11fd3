-- ===== src/PeerReconcile/Assigns.antt =====
-- Which address a peer is given.
use wga.Base.{
  true, false, none, some, inl, inr, List, [], ◌∷◌, ◌≡◌, ok, arith, Option, ℕ, ◌<◌, Bool-cases,
  Bytes, length, get_elem?, suc, zero, refl,
}
use mathlib.Core.List.{Memᴰ}
use wga.PeerReconcile.{
  PeerReconciler, v6_nets, Surroundings, new_addresses, address_in, host_of, rand_pick, reconcile,
  assign, by_status, Reconciled, new_status, write_status, join_host_port, nets_as_strings,
}
use wga.Net.{IpNet, is_v4, Ip, ip_string, decimal_string}
use wga.Api.{WireguardAccessPeerStatus, WireguardAccessPeer}
use wga.Index.Bounds.{IsRandom, generate_index-lt-big_max}
use wga.Index.{mask_bits, big_max, generate_index}

-- The peer has no address yet, neither in the list nor in the deprecated field.
abbrev pub IsNew : Option WireguardAccessPeerStatus → Type 0
IsNew none = Unit
IsNew (some status) = (status.addresses ≡ []) × (status.address ≡ [])

-- `cidr.HostBig` gives every host number below the size of the network.
abbrev pub GivesHosts : (IpNet → ℕ → Option Ip) → IpNet → Type 0
GivesHosts host_big cnet =
    (i : ℕ) → i < big_max (mask_bits cnet) → (ip : Ip) × (host_big cnet i ≡ some ip)

mem-v6_nets :
    (nets : List IpNet) (n : IpNet) → Memᴰ n (v6_nets nets) → Memᴰ n nets × (is_v4 n.ip ≡ false)
unfolding v6_nets
mem-v6_nets [] n m = elim m [ ]
mem-v6_nets (x ∷ nets) n m = elim (Bool-cases (is_v4 x.ip)) [
  | inl v4 ↦ let (later, v6) = mem-v6_nets nets n (rw v4 at m) in (Memᴰ.tail later, v6)
  | inr v6 ↦ here v6 (rw v6 at m) (mem-v6_nets nets n)
]
  where
    here :
        is_v4 x.ip ≡ false
        → Memᴰ n (x ∷ v6_nets nets)
        → (Memᴰ n (v6_nets nets) → Memᴰ n nets × (is_v4 n.ip ≡ false))
        → Memᴰ n (x ∷ nets) × (is_v4 n.ip ≡ false)
    here v6 (Memᴰ.head e) ih = (Memᴰ.head e, rw e v6)
    here v6 (Memᴰ.tail l) ih = let (later, v) = ih l in (Memᴰ.tail later, v)

mem-get_elem? :
    {A : Type 0} (xs : List A) (i : ℕ)
    → i < length xs
    → (x : A) × (get_elem? xs i ≡ some x) × Memᴰ x xs
mem-get_elem? [] i h = absurd (omega arith)
mem-get_elem? (x ∷ xs) zero h = (x, refl, Memᴰ.head refl)
mem-get_elem? (x ∷ xs) (suc i) h =
    let (y, e, m) = mem-get_elem? xs i (omega arith) in (y, e, Memᴰ.tail m)

module _ (r : PeerReconciler) (s : Surroundings) where
  -- A new address: from which network, and which host.
  pub record IsPicked (addr : Bytes) : Type 0 where
    pub cnet : IpNet
    pub listed : Memᴰ cnet r.clients_nets
    pub is_v6 : is_v4 cnet.ip ≡ false
    pub index : ℕ
    pub made : generate_index s.int64_n s.now (mask_bits cnet) ≡ ok index
    pub in_range : index < big_max (mask_bits cnet)
    pub ip : Ip
    pub host : s.host_big cnet index ≡ some ip
    pub text : addr ≡ ip_string ip

  -- Every client network can be numbered and its hosts given.
  abbrev pub AreUsable : List IpNet → Type 0
  AreUsable nets = (n : IpNet) → Memᴰ n nets → (mask_bits n < 128) × GivesHosts s.host_big n

  host_of-some :
      (cnet : IpNet) (index : ℕ) (ip : Ip)
      → s.host_big cnet index ≡ some ip
      → host_of r s cnet index ≡ ok (ip_string ip ∷ [])
  unfolding host_of
  host_of-some cnet index ip host = rw (host_of, host) refl

  address_in-some :
      (cnet : IpNet) (index : ℕ) (ip : Ip)
      → generate_index s.int64_n s.now (mask_bits cnet) ≡ ok index
      → s.host_big cnet index ≡ some ip
      → address_in r s (some cnet) ≡ ok (ip_string ip ∷ [])
  unfolding address_in
  address_in-some cnet index ip made host = rw made (host_of-some cnet index ip host)

  -- The call stored the peer with this address and ended as the sync that it started.
  abbrev pub IsGiven : Bytes → WireguardAccessPeer → Reconciled → Type 0
  IsGiven addr peer result =
      (status : WireguardAccessPeerStatus) × (result ≡ record {
        outcome = s.sync_outcome;
        stored = record peer { status = some status };
        synced = true;
      })
      × (status.address ≡ addr)
      × (status.addresses ≡ addr ∷ [])
      × (status.peers
          ≡ record {
            public_key = s.public_key;
            endpoint = join_host_port r.server_addr (decimal_string s.listen_port);
            pre_shared_key = [];
            allowed_ips = nets_as_strings r.services_nets;
          }
            ∷ [])

  pub by_status-IsNew :
      (peer : WireguardAccessPeer) (o : Option WireguardAccessPeerStatus)
      → IsNew o
      → by_status r s peer o ≡ assign r s peer
  unfolding by_status
  by_status-IsNew peer none new = refl
  by_status-IsNew peer (some status) (no_list, no_field) = rw (no_list, no_field) refl

  module _ (random : IsRandom s.int64_n) (picks : (n : ℕ) → 0 < n → s.int_n n < n)
      (usable : AreUsable r.clients_nets) where
    address_in-IsPicked :
        (cnet : IpNet)
        → Memᴰ cnet r.clients_nets
        → is_v4 cnet.ip ≡ false
        → (addr : Bytes) × (address_in r s (some cnet) ≡ ok (addr ∷ [])) × IsPicked addr
    address_in-IsPicked cnet listed v6 =
        let (small, gives) = usable cnet listed in
        let (index, made, below) =
          generate_index-lt-big_max s.int64_n random s.now (mask_bits cnet) small in
        let (ip, host) = gives index below in
        (
          ip_string ip,
          address_in-some cnet index ip made host,
          record {
            cnet = cnet;
            listed = listed;
            is_v6 = v6;
            index = index;
            made = made;
            in_range = below;
            ip = ip;
            host = host;
            text = refl;
          },
        )

    new_addresses-IsPicked :
        (n : IpNet) (nets : List IpNet)
        → v6_nets r.clients_nets ≡ n ∷ nets
        → (addr : Bytes) × (new_addresses r s (n ∷ nets) ≡ ok (addr ∷ [])) × IsPicked addr
    unfolding new_addresses rand_pick
    new_addresses-IsPicked n nets e =
        let (cnet, picked, m) =
          mem-get_elem? (n ∷ nets) (s.int_n (length (n ∷ nets)))
            (picks (length (n ∷ nets)) (omega arith)) in
        let (listed, v6) = mem-v6_nets r.clients_nets cnet (rw e m) in
        rw picked (address_in-IsPicked cnet listed v6)

    assigned :
        (peer : WireguardAccessPeer) (n : IpNet) (nets : List IpNet)
        → v6_nets r.clients_nets ≡ n ∷ nets
        → s.updates ≡ true
        → (addr : Bytes) × IsPicked addr × IsGiven addr peer (assign r s peer)
    unfolding assign new_status write_status
    assigned peer n nets e updates =
        let (addr, made, p) = new_addresses-IsPicked n nets e in
        (addr, p, simp (e, made, updates) (_, refl, refl, refl, refl))

    -- A new peer, when there is an IPv6 network and the Update succeeds: one host of one of the
    -- IPv6 client networks becomes its address, the first server is this one with its key, its
    -- endpoint and the service networks, and the call ends as the sync that it then starts.
    pub reconcile-IsPicked :
        (peer : WireguardAccessPeer) (n : IpNet) (nets : List IpNet)
        → IsNew peer.status
        → v6_nets r.clients_nets ≡ n ∷ nets
        → s.updates ≡ true
        → (addr : Bytes) × IsPicked addr × IsGiven addr peer (reconcile r s peer)
    unfolding reconcile
    reconcile-IsPicked peer n nets new e updates =
        rw (by_status-IsNew peer peer.status new) (assigned peer n nets e updates)

-- ===== src/Wgc/Allowed.antt =====
-- Which calls a run of `wgcSync` makes.
use wga.Base.{
  true, false, Option, none, some, List, [], ◌∷◌, ◌≡◌, ◌≢◌, inl, inr, Bytes, Bool-cases,
  Option-cases, refl, if◌then◌else◌, bytes_eq, bytes_eq_iff, ap, sym, ◌∙◌, All, All-append, Assoc,
  lookup, insert, IsMap, lookup-insert, lookup-delete, lookup-mem, IsMap-insert, IsMap-delete,
  arith,
}
use mathlib.Core.List.{Memᴰ}
use wga.Net.{IpNet, net_string}
use wga.WgTypes.{KeyCodec, UdpAddr, DeviceConfig}
use wga.PeerSync.Plan.{IsRange}
use wga.Wgc.{
  link_add, link_by_name, new_client, link_set_up, link_del, configure_device, addr_replace,
  addr_del, route_replace, route_del, WgPeer, Link, Call, State, Kernel, interface_name,
  address_net, is_ours, is_route, dst_string, existing_links, existing_from, without_link, wgc_sync,
}
use wga.Wgc.Keeps.{AreKept, Covers, IsDeviceOf, left_over, wgc_sync-Keeps}

-- Every entry stands for an interface of the list that the program manages.
abbrev pub AreListed : List Link → Assoc Link → Type 0
AreListed links m =
    (k : Bytes) (l : Link) → lookup k m ≡ some l → Memᴰ l links × (l.name ≡ k) × (is_ours l ≡ true)

insert-AreListed :
    (all : List Link) (m : Assoc Link) (l : Link)
    → Memᴰ l all
    → is_ours l ≡ true
    → AreListed all m
    → AreListed all (insert l.name l m)
insert-AreListed all m l listed ours h k v e = elim (Bool-cases (bytes_eq l.name k)) [
  | inl same ↦
      let found : l ≡ v = cc (lookup-insert l.name k l m, same, e) in
      rw (sym found) (listed, (bytes_eq_iff l.name k).0 same, ours)
  | inr differs ↦ h k v (cc (lookup-insert l.name k l m, differs, e))
]

pub existing_from-AreListed :
    (all links : List Link) (m : Assoc Link)
    → ((l : Link) → Memᴰ l links → Memᴰ l all)
    → IsMap m × AreListed all m
    → IsMap (existing_from m links) × AreListed all (existing_from m links)
unfolding existing_from
existing_from-AreListed all [] m sub h = h
existing_from-AreListed all (l ∷ ls) m sub h = elim (Bool-cases (is_ours l)) [
  | inl ours ↦ simp ours (
      existing_from-AreListed all ls (insert l.name l m) (λ x n. sub x (Memᴰ.tail n))
        (IsMap-insert l.name l m h.0, insert-AreListed all m l (sub l (Memᴰ.head refl)) ours h.1))
  | inr other ↦ simp other (existing_from-AreListed all ls m (λ x n. sub x (Memᴰ.tail n)) h)
]

pub lookup-without_link :
    (name k : Bytes) (m : Assoc Link)
    → lookup k (without_link name m) ≡ (if bytes_eq name k then none else lookup k m)
unfolding without_link
lookup-without_link name k m = elim (Option-cases (lookup name m)) [
  | inl missing ↦ elim (Bool-cases (bytes_eq name k)) [
    | inl same ↦
        let none_there : lookup k m ≡ none = rw (sym ((bytes_eq_iff name k).0 same)) missing in
        simp (missing, same) none_there
    | inr differs ↦ simp (missing, differs)
  ]
  | inr there ↦ let (l, e) = there in simp e (lookup-delete name k m)
]

left_over-lookup :
    (m : Assoc Link) (ps : List WgPeer) (k : Bytes) (l : Link)
    → lookup k (left_over m ps) ≡ some l
    → (lookup k m ≡ some l) × ((p : WgPeer) → Memᴰ p ps → interface_name p ≢ k)
left_over-lookup m [] k l e = (e, λ p n. elim n [ ])
left_over-lookup m (p ∷ ps) k l e =
    let (before, later) = left_over-lookup (without_link (interface_name p) m) ps k l e in
    elim (Bool-cases (bytes_eq (interface_name p) k)) [
      | inl same ↦ cc (lookup-without_link (interface_name p) k m, same, before)
      | inr differs ↦ (
        cc (lookup-without_link (interface_name p) k m, differs, before),
        every p ps k (λ eq. cc (differs, (bytes_eq_iff (interface_name p) k).1 eq)) later,
      )
    ]
  where
    every :
        (p : WgPeer) (ps : List WgPeer) (k : Bytes)
        → interface_name p ≢ k
        → ((q : WgPeer) → Memᴰ q ps → interface_name q ≢ k)
        → (q : WgPeer) → Memᴰ q (p ∷ ps)
        → interface_name q ≢ k
    every p ps k here later q (Memᴰ.head s) same = here (ap interface_name (sym s) ∙ same)
    every p ps k here later q (Memᴰ.tail n) same = later q n same

without_link-IsMap : (name : Bytes) (m : Assoc Link) → IsMap m → IsMap (without_link name m)
unfolding without_link
without_link-IsMap name m h = elim (Option-cases (lookup name m)) [
  | inl missing ↦ simp missing h
  | inr there ↦ let (l, e) = there in simp e (IsMap-delete name m h)
]

pub left_over-IsMap : (m : Assoc Link) (ps : List WgPeer) → IsMap m → IsMap (left_over m ps)
left_over-IsMap m [] h = h
left_over-IsMap m (p ∷ ps) h =
    left_over-IsMap (without_link (interface_name p) m) ps
      (without_link-IsMap (interface_name p) m h)

-- A call that concerns the interface of a peer
abbrev pub IsOf : List WgPeer → Bytes → (WgPeer → Type 0) → Type 0
IsOf peers name Q = (p : WgPeer) × Memᴰ p peers × (interface_name p ≡ name) × Q p

-- A managed interface that no peer has
abbrev pub IsLeftover : List Link → List WgPeer → Bytes → Type 0
IsLeftover links peers name =
    (l : Link) × Memᴰ l links
    × (l.name ≡ name)
    × (is_ours l ≡ true)
    × ((p : WgPeer) → Memᴰ p peers → interface_name p ≢ name)

-- What a call may be.
abbrev pub IsAllowed : Option (List Link) → List WgPeer → Call → Type 0
IsAllowed links peers (link_del name) =
    (ls : List Link) × (links ≡ some ls) × IsLeftover ls peers name
IsAllowed links peers (link_add name) = IsOf peers name (λ p. Unit)
IsAllowed links peers (link_by_name name) = IsOf peers name (λ p. Unit)
IsAllowed links peers (new_client name) = IsOf peers name (λ p. Unit)
IsAllowed links peers (link_set_up name) = IsOf peers name (λ p. Unit)
IsAllowed links peers (configure_device name d) = IsOf peers name (λ p. IsDeviceOf p d)
IsAllowed links peers (addr_replace name a) =
    IsOf peers name (λ p. address_net p.peer_address ≡ some a)
IsAllowed links peers (addr_del name b) =
    IsOf peers name
      (λ p. (a : IpNet) × (address_net p.peer_address ≡ some a) × (net_string a ≢ net_string b))
IsAllowed links peers (route_replace name r) = IsOf peers name (λ p. Memᴰ r p.routes)
IsAllowed links peers (route_del name d) =
    IsOf peers name (λ p. (r : IpNet) → Memᴰ r p.routes → dst_string d ≢ net_string r)

abbrev AllAllowed : Option (List Link) → List WgPeer → State → Type 0
AllAllowed links peers s = All (IsAllowed links peers) s.calls

IsAllowed-AreKept :
    (links : Option (List Link)) (peers : List WgPeer)
    → AreKept
        (AllAllowed links peers)
        (IsAllowed links peers)
        (λ name d. IsAllowed links peers (configure_device name d))
IsAllowed-AreKept links peers = record {
  step = λ s c p i. All-append (IsAllowed links peers) s.calls (c ∷ []) i (p, tt);
  step_configure = λ s name d i.
      All-append (IsAllowed links peers) s.calls (configure_device name s.config ∷ []) i (d, tt);
  step_key = λ s k i. i;
  step_peer = λ s pc i. i;
}

is_route-false :
    (routes : List IpNet) (d : Option IpNet)
    → is_route routes d ≡ false
    → (r : IpNet) → Memᴰ r routes
    → dst_string d ≢ net_string r
unfolding is_route
is_route-false [] d e r n same = elim n [ ]
is_route-false (x ∷ routes) d e r (Memᴰ.head s) same =
    let equal : bytes_eq (dst_string d) (net_string x) ≡ true =
      (bytes_eq_iff (dst_string d) (net_string x)).1 (same ∙ ap net_string s) in
    ground (arith, equal)
is_route-false (x ∷ routes) d e r (Memᴰ.tail n) same =
    is_route-false routes d (ground arith) r n same

IsAllowed-Covers :
    (links : Option (List Link)) (peers : List WgPeer) (p : WgPeer)
    → Memᴰ p peers
    → Covers (IsAllowed links peers) (λ name d. IsAllowed links peers (configure_device name d)) p
IsAllowed-Covers links peers p n = record {
  device = λ d e. (p, n, refl, e);
  add_link = (p, n, refl, tt);
  by_name = (p, n, refl, tt);
  client = (p, n, refl, tt);
  set_up = (p, n, refl, tt);
  address = λ a e. (p, n, refl, e);
  old_address = λ a b e differs. (p, n, refl, (a, e, differs));
  route = λ r m. (p, n, refl, m);
  old_route = λ d e. (p, n, refl, is_route-false p.routes d e);
}

left_over-IsLeftover :
    (range : Assoc Link → Assoc Link) (links : List Link) (peers : List WgPeer) (e : Bytes × Link)
    → IsRange range
    → Memᴰ e (range (left_over (existing_links links) peers))
    → IsLeftover links peers e.0
unfolding existing_links lookup
left_over-IsLeftover range links peers e rr n =
    let (distinct, listed) = existing_from-AreListed links links [] (λ l m. m) (tt, λ k l h. cc) in
    let left = left_over (existing_from [] links) peers in
    let is_map = left_over-IsMap (existing_from [] links) peers distinct in
    let found : lookup e.0 left ≡ some e.1 =
      sym (rr.same left is_map e.0) ∙ lookup-mem e (range left) (rr.distinct left is_map) n in
    let (there, free) = left_over-lookup (existing_from [] links) peers e.0 e.1 found in
    let (l, name, ours) = listed e.0 e.1 there in (e.1, l, name, ours, free)

-- Whatever the kernel answers and wherever the run ends, each of its calls is one of these: a call
-- on the interface of a peer, with the peer's own address and routes; the configuration of the device
-- of a peer, with its own private key and, among the peers, its own server with its routes; the removal of an address or
-- a route that the peer does not have; the removal of a managed interface that no peer has.
pub wgc_sync-IsAllowed :
    (kc : KeyCodec) (parse_addr_port : Bytes → Option UdpAddr) (kernel : Kernel)
    (range : Assoc Link → Assoc Link) (peers : List WgPeer) (config : DeviceConfig)
    → IsRange range
    → All
        (IsAllowed kernel.links peers)
        (wgc_sync kc parse_addr_port kernel range peers
          (record { config = config; calls = [] })).1.calls
wgc_sync-IsAllowed kc parse_addr_port kernel range peers config rr =
    wgc_sync-Keeps kernel (AllAllowed kernel.links peers) (IsAllowed kernel.links peers)
      (λ name d. IsAllowed kernel.links peers (configure_device name d))
      (IsAllowed-AreKept kernel.links peers) kc parse_addr_port range peers
      (λ p n. IsAllowed-Covers kernel.links peers p n)
      (λ links e known n. (links, known, left_over-IsLeftover range links peers e rr n))
      (record { config = config; calls = [] }) tt

-- ===== src/Wgc/Required.antt =====
-- What a run of `wgcSync` that returns no error has done with success.
use wga.Base.{
  Option, none, some, List, [], ◌∷◌, ◌≡◌, inl, inr, Bytes, Bool-cases, refl, ap, sym, ◌∙◌, ◌++◌,
  true, subst, Assoc, Outcome, ok, err, panic, mem-append_right,
}
use mathlib.Core.List.{Memᴰ}
use wga.Net.{IpNet}
use wga.WgTypes.{Key, KeyCodec, UdpAddr, PeerConfig}
use wga.Run.{
  require-Keeps, require, Act, Keeps, >>-Keeps, >>-returns, require-returns, ◌>>=◌, ◌>>◌,
  continue_with,
}
use mathlib.Core.List.{append_assoc}
use wga.Wgc.{
  sync_device, set_private_key, append_peer, configure, peer_of, optional_key, link_set_up,
  link_del, configure_device, addr_replace, route_replace, WgPeer, Link, Call, State, Kernel, call,
  add_routes, keep_addresses, keep_routes, sync_network, sync_peer, sync_peers, delete_links,
  interface_name, address_net, without_link, link_add, link_by_name, new_client, addr_del,
  route_del,
}
use wga.Wgc.Keeps.{
  AreKept, Covers, IsDeviceOf, call-Keeps, left_over, add_routes-Keeps, sync_network-Keeps,
  sync_peers-Keeps, delete_links-Keeps, drop_addresses-Keeps, drop_routes-Keeps,
}

-- What a run has to do: to make a call, to configure the device of a peer, or to configure the device
-- of that name with a server of that key and those routes.
pub data Need : Type 0 where
  made : Call → Need
  configured : WgPeer → Need
  serves : Bytes → Key → List IpNet → Need

abbrev pub Meets : Need → Call → Type 0
Meets (made c) d = c ≡ d
Meets (configured p) (configure_device name d) = (name ≡ interface_name p) × IsDeviceOf p d
Meets (configured p) _ = ⊥
Meets (serves name key routes) (configure_device n d) =
    (n ≡ name)
    × ((pc : PeerConfig) × Memᴰ pc d.peers × (pc.public_key ≡ key) × (pc.allowed_ips ≡ routes))
Meets (serves name key routes) _ = ⊥

configured-serves :
    (p : WgPeer) (c : Call)
    → Meets (configured p) c
    → Meets (serves (interface_name p) p.server_public_key p.routes) c
configured-serves p (configure_device n d) (named, device) =
    let (key, pc, m, public, ips, kept) = device in (named, (pc, m, public, ips))
configured-serves p (link_add n) h = h
configured-serves p (link_by_name n) h = h
configured-serves p (new_client n) h = h
configured-serves p (link_set_up n) h = h
configured-serves p (link_del n) h = h
configured-serves p (addr_replace n x) h = h
configured-serves p (addr_del n x) h = h
configured-serves p (route_replace n x) h = h
configured-serves p (route_del n x) h = h

-- The call was made, and it succeeded.
pub record IsDone (kernel : Kernel) (n : Need) (s : State) : Type 0 where
  pub done : Call
  pub meets : Meets n done
  pub before : List Call
  pub after : List Call
  pub among : s.calls ≡ before ++ (done ∷ after)
  pub succeeded : kernel.succeeds before done ≡ true

-- When the code returns no error, it has been done.
abbrev pub Yields : {A : Type 0} → Kernel → Need → Act State A → Type 0
Yields {A} kernel n act = (s : State) (a : A) → (act s).0 ≡ ok a → IsDone kernel n (act s).1

pub IsDone-serves :
    (kernel : Kernel) (p : WgPeer) (s : State)
    → IsDone kernel (configured p) s
    → IsDone kernel (serves (interface_name p) p.server_public_key p.routes) s
IsDone-serves kernel p s m = record {
  done = m.done;
  meets = configured-serves p m.done m.meets;
  before = m.before;
  after = m.after;
  among = m.among;
  succeeded = m.succeeded;
}

still-IsDone :
    (kernel : Kernel) (n : Need) (s : State) (d : Call)
    → IsDone kernel n s
    → IsDone kernel n (record s { calls = s.calls ++ (d ∷ []) })
still-IsDone kernel n s d m = record {
  done = m.done;
  meets = m.meets;
  before = m.before;
  after = m.after ++ (d ∷ []);
  among = ap (λ cs. cs ++ (d ∷ [])) m.among ∙ append_assoc m.before (m.done ∷ m.after) (d ∷ []);
  succeeded = m.succeeded;
}

moved :
    (kernel : Kernel) (n : Need) (s t : State)
    → s.calls ≡ t.calls
    → IsDone kernel n s
    → IsDone kernel n t
moved kernel n s t e m = record {
  done = m.done;
  meets = m.meets;
  before = m.before;
  after = m.after;
  among = sym e ∙ m.among;
  succeeded = m.succeeded;
}

-- Nothing takes a call back.
IsDone-AreKept :
    (kernel : Kernel) (n : Need) → AreKept (IsDone kernel n) (λ d. Unit) (λ name d. Unit)
IsDone-AreKept kernel n = record {
  step = λ s d p m. still-IsDone kernel n s d m;
  step_configure = λ s name d m. still-IsDone kernel n s (configure_device name s.config) m;
  step_key = λ s k m. moved kernel n s _ refl m;
  step_peer = λ s pc m. moved kernel n s _ refl m;
}

all-Covers : (p : WgPeer) → Covers (λ d. Unit) (λ name d. Unit) p
all-Covers p = record {
  device = λ d e. tt;
  add_link = tt;
  by_name = tt;
  client = tt;
  set_up = tt;
  address = λ a e. tt;
  old_address = λ a b e differs. tt;
  route = λ r m. tt;
  old_route = λ d e. tt;
}

continue_with-ok :
    {A B : Type 0} (k : A → Act State B) (r : Outcome A × State) (b : B)
    → (continue_with k r).0 ≡ ok b
    → (a : A) × (r.0 ≡ ok a) × (continue_with k r ≡ k a r.1)
continue_with-ok k (panic why, s) b e = cc
continue_with-ok k (err why, s) b e = cc
continue_with-ok k (ok a, s) b e = (a, refl, refl)

first-Yields :
    {A B : Type 0} (kernel : Kernel) (c : Need) (m : Act State A) (k : Act State B)
    → Yields kernel c m
    → Keeps (IsDone kernel c) k
    → Yields kernel c (m >> k)
unfolding ◌>>◌
first-Yields kernel c m k y keeps s b e =
    let (a, done, same) = continue_with-ok (λ _. k) (m s) b e in
    rw same (keeps (m s).1 (y s a done))

then-Yields :
    {A B : Type 0} (kernel : Kernel) (c : Need) (m : Act State A) (k : Act State B)
    → Yields kernel c k
    → Yields kernel c (m >> k)
unfolding ◌>>◌
then-Yields kernel c m k y s b e =
    let (a, done, same) = continue_with-ok (λ _. k) (m s) b e in
    rw same (y (m s).1 b (ap (λ x. x.0) (sym same) ∙ e))

pub require-Yields :
    {A B : Type 0} (kernel : Kernel) (c : Need) (message : Bytes) (o : Option A)
    (k : A → Act State B)
    → ((a : A) → o ≡ some a → Yields kernel c (k a))
    → Yields kernel c (require message o >>= k)
unfolding require ◌>>=◌
require-Yields kernel c message none k h s b e = cc
require-Yields kernel c message (some a) k h s b e = h a refl s b e

module _ (kernel : Kernel) where
  call-returns :
      (message : Bytes) (c : Call) (s : State) (u : Unit {0}) (t : State)
      → call kernel message c s ≡ (ok u, t)
      → (t ≡ record s { calls = s.calls ++ (c ∷ []) }) × (kernel.succeeds s.calls c ≡ true)
  unfolding call
  call-returns message c s u t e = elim (Bool-cases (kernel.succeeds s.calls c)) [
    | inl done ↦ (cc (e, done), done)
    | inr failed ↦ cc (e, failed)
  ]

  call-IsDone :
      (message : Bytes) (c : Call) (n : Need) (s : State) (u : Unit {0}) (t : State)
      → Meets n c
      → call kernel message c s ≡ (ok u, t)
      → IsDone kernel n t
  call-IsDone message c n s u t meets e =
      let (same, fine) = call-returns message c s u t e in
      record {
        done = c;
        meets = meets;
        before = s.calls;
        after = [];
        among = ap (λ x. x.calls) same;
        succeeded = fine;
      }

  call-Yields : (message : Bytes) (c : Call) → Yields kernel (made c) (call kernel message c)
  call-Yields message c s a e =
      call-IsDone message c (made c) s a (call kernel message c s).1 refl
        (ap (λ o. (o, (call kernel message c s).1)) e)

  add_routes-Yields :
      (name : Bytes) (dsts : List IpNet) (r : IpNet)
      → Memᴰ r dsts
      → Yields kernel (made (route_replace name r)) (add_routes kernel name dsts)
  unfolding add_routes
  add_routes-Yields name [] r m = elim m [ ]
  add_routes-Yields name (dst ∷ dsts) r (Memᴰ.head e) = rw e (
      first-Yields kernel (made (route_replace name dst)) _ _
        (call-Yields _ (route_replace name dst))
        (add_routes-Keeps kernel _ _ _ (IsDone-AreKept kernel _) name dsts (λ r m. tt)))
  add_routes-Yields name (dst ∷ dsts) r (Memᴰ.tail m) =
      then-Yields kernel _ _ _ (add_routes-Yields name dsts r m)

  delete_links-Yields :
      (ls : Assoc Link) (e : Bytes × Link)
      → Memᴰ e ls
      → Yields kernel (made (link_del e.0)) (delete_links kernel ls)
  unfolding delete_links
  delete_links-Yields [] e m = elim m [ ]
  delete_links-Yields ((name, l) ∷ ls) e (Memᴰ.head same) = rw (ap (λ x. x.0) same) (
      first-Yields kernel (made (link_del name)) _ _ (call-Yields _ (link_del name))
        (delete_links-Keeps kernel _ _ _ (IsDone-AreKept kernel _) ls (λ e m. tt)))
  delete_links-Yields ((name, l) ∷ ls) e (Memᴰ.tail m) =
      then-Yields kernel _ _ _ (delete_links-Yields ls e m)

  keep_routes-Keeps :
      (c : Need) (name : Bytes) (routes : List IpNet)
      → Keeps (IsDone kernel c) (keep_routes kernel name routes)
  unfolding keep_routes
  keep_routes-Keeps c name routes s =
      require-Keeps (IsDone kernel c) _ (kernel.routes s.calls name) _
        (λ dsts e.
          drop_routes-Keeps kernel _ _ _ (IsDone-AreKept kernel c) name routes dsts (λ d old. tt))
        s

  keep_addresses-Keeps :
      (c : Need) (name : Bytes) (addr : IpNet)
      → Keeps (IsDone kernel c) (keep_addresses kernel name addr)
  unfolding keep_addresses
  keep_addresses-Keeps c name addr s =
      drop_addresses-Keeps kernel _ _ _ (IsDone-AreKept kernel c) name addr
        (kernel.addrs s.calls name) (λ b differs. tt) s

  pub address-Yields :
      (p : WgPeer) (a : IpNet)
      → address_net p.peer_address ≡ some a
      → Yields kernel (made (addr_replace (interface_name p) a)) (sync_network kernel p)
  unfolding sync_network
  address-Yields p a known = require-Yields kernel _ _ (address_net p.peer_address) _ (λ b e.
      let same : b ≡ a = cc (known, e) in
      rw (sym same) (
        first-Yields kernel (made (addr_replace (interface_name p) b)) _ _
          (call-Yields _ (addr_replace (interface_name p) b))
          (>>-Keeps _ _ _ (keep_addresses-Keeps _ (interface_name p) b) (
            >>-Keeps _ _ _
              (add_routes-Keeps kernel _ _ _ (IsDone-AreKept kernel _) (interface_name p) p.routes
                (λ r m. tt))
              (keep_routes-Keeps _ (interface_name p) p.routes)))))

  pub route-Yields :
      (p : WgPeer) (r : IpNet)
      → Memᴰ r p.routes
      → Yields kernel (made (route_replace (interface_name p) r)) (sync_network kernel p)
  unfolding sync_network
  route-Yields p r m = require-Yields kernel _ _ (address_net p.peer_address) _ (λ b e.
      then-Yields kernel _ _ _ (
        then-Yields kernel _ _ _ (
          first-Yields kernel (made (route_replace (interface_name p) r)) _ _
            (add_routes-Yields (interface_name p) p.routes r m)
            (keep_routes-Keeps _ (interface_name p) p.routes))))

  module _ (kc : KeyCodec) (parse_addr_port : Bytes → Option UdpAddr) where
    pub network-Yields :
        (c : Need) (existing : Assoc Link) (p : WgPeer)
        → Yields kernel c (sync_network kernel p)
        → Yields kernel c (sync_peer kc parse_addr_port kernel existing p)
    unfolding sync_peer
    network-Yields c existing p y = then-Yields kernel _ _ _ (
        then-Yields kernel _ _ _
          (then-Yields kernel _ _ _ (then-Yields kernel _ _ _ (then-Yields kernel _ _ _ y))))

    pub set_up-Yields :
        (existing : Assoc Link) (p : WgPeer)
        → Yields kernel
            (made (link_set_up (interface_name p)))
            (sync_peer kc parse_addr_port kernel existing p)
    unfolding sync_peer
    set_up-Yields existing p = then-Yields kernel _ _ _ (
        then-Yields kernel _ _ _ (
          then-Yields kernel _ _ _ (
            then-Yields kernel _ _ _ (
              first-Yields kernel (made (link_set_up (interface_name p))) _ _
                (call-Yields _ (link_set_up (interface_name p)))
                (sync_network-Keeps kernel _ _ _ (IsDone-AreKept kernel _) p (all-Covers p))))))

    -- The device is configured for the peer.
    device-Yields :
        (p : WgPeer) → Yields kernel (configured p) (sync_device kc parse_addr_port kernel p)
    unfolding sync_device set_private_key append_peer configure peer_of
    device-Yields p s a e =
        let last : State = (sync_device kc parse_addr_port kernel p s).1 in
        let run : sync_device kc parse_addr_port kernel p s ≡ (ok a, last) =
          ap (λ o. (o, last)) e in
        let (_, s1, keyed, e1) = >>-returns _ _ s a last run in
        let (endpoint, known, e2) =
          require-returns _ (parse_addr_port p.server_endpoint) _ s1 a last e1 in
        let (psk, parsed, e3) =
          require-returns _ (optional_key kc p.pre_shared_key) _ s1 a last e2 in
        let (_, s2, joined, e4) = >>-returns _ _ s1 a last e3 in
        let pc = peer_of p endpoint psk in
        let has_key : s1.config.private_key ≡ some p.peer_private_key =
          ap (λ r. r.1.config.private_key) (sym keyed) in
        let has_peers : s1.config.peers ++ (pc ∷ []) ≡ s2.config.peers =
          ap (λ r. r.1.config.peers) joined in
        let its_key : s2.config.private_key ≡ some p.peer_private_key =
          ap (λ r. r.1.config.private_key) (sym joined) ∙ has_key in
        call-IsDone _ (configure_device (interface_name p) s2.config) (configured p) s2 a last
          (
            refl,
            (
              its_key,
              pc,
              subst (Memᴰ pc) has_peers (mem-append_right s1.config.peers (Memᴰ.head refl)),
              refl,
              refl,
              refl,
            ),
          )
          e4

    pub configured-Yields :
        (existing : Assoc Link) (p : WgPeer)
        → Yields kernel (configured p) (sync_peer kc parse_addr_port kernel existing p)
    unfolding sync_peer
    configured-Yields existing p = then-Yields kernel _ _ _ (
        then-Yields kernel _ _ _ (
          then-Yields kernel _ _ _ (
            first-Yields kernel (configured p) _ _ (device-Yields p) (
              >>-Keeps _ _ _
                (call-Keeps kernel _ _ _ (IsDone-AreKept kernel _) _
                  (link_set_up (interface_name p)) tt)
                (sync_network-Keeps kernel _ _ _ (IsDone-AreKept kernel _) p (all-Covers p))))))

    -- What the run does for each peer, whatever it is, it has done at the end.
    pub sync_peers-Yields :
        (range : Assoc Link → Assoc Link) (existing : Assoc Link) (ps : List WgPeer) (p : WgPeer)
        (c : Need)
        → Memᴰ p ps
        → ((m : Assoc Link) → Yields kernel c (sync_peer kc parse_addr_port kernel m p))
        → Yields kernel c (sync_peers kc parse_addr_port kernel range existing ps)
    unfolding sync_peers
    sync_peers-Yields range existing [] p c m y = elim m [ ]
    sync_peers-Yields range existing (q ∷ ps) p c (Memᴰ.head e) y =
        first-Yields kernel c _ _ (rw (sym e) (y existing)) (
          sync_peers-Keeps kernel _ _ _ (IsDone-AreKept kernel c) kc parse_addr_port range
            (without_link (interface_name q) existing) ps (λ x n. all-Covers x) (λ x n. tt))
    sync_peers-Yields range existing (q ∷ ps) p c (Memᴰ.tail m) y =
        then-Yields kernel c _ _
          (sync_peers-Yields range (without_link (interface_name q) existing) ps p c m y)

    pub leftover-Yields :
        (range : Assoc Link → Assoc Link) (existing : Assoc Link) (ps : List WgPeer)
        (e : Bytes × Link)
        → Memᴰ e (range (left_over existing ps))
        → Yields kernel
            (made (link_del e.0))
            (sync_peers kc parse_addr_port kernel range existing ps)
    unfolding sync_peers
    leftover-Yields range existing [] e m = delete_links-Yields (range existing) e m
    leftover-Yields range existing (q ∷ ps) e m =
        then-Yields kernel _ _ _
          (leftover-Yields range (without_link (interface_name q) existing) ps e m)

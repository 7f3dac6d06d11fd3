-- ===== src/Wgc/Keeps.antt =====
-- What every run of `wgcSync` keeps, from what its single steps keep.
use wga.Base.{
  Assoc, lookup, is_some, false, Option, none, some, mem-append_right, List, [], ◌∷◌, ◌++◌, ◌≡◌,
  ◌≢◌, Bytes, Bool-cases, inl, inr, refl, bytes_eq, bytes_eq_iff,
}
use mathlib.Core.List.{Memᴰ}
use wga.Net.{IpNet, net_string}
use wga.WgTypes.{Key, KeyCodec, UdpAddr, PeerConfig, DeviceConfig}
use wga.Run.{require-Keeps, require, Act, ◌>>=◌, Keeps, ◌>>◌, >>-Keeps}
use wga.Wgc.{
  optional_key, peer_of, without_link, existing_links, delete_links, sync_peers, wgc_sync, link_add,
  link_by_name, new_client, link_set_up, link_del, configure_device, addr_replace, addr_del,
  route_replace, route_del, WgPeer, Link, Call, State, Kernel, call, set_private_key, append_peer,
  configure, drop_addresses, keep_addresses, add_routes, is_route, drop_routes, keep_routes,
  ensure_link, sync_device, sync_network, sync_peer, interface_name, address_net,
}

-- The single steps keep `I`: a call with `P`, a `ConfigureDevice` call with the state's
-- configuration when `D` holds of it, and the writes to the configuration.
pub record AreKept (I : State → Type 0) (P : Call → Type 0) (D : Bytes → DeviceConfig → Type 0)
    : Type 0 where
  pub step : (s : State) (c : Call) → P c → I s → I (record s { calls = s.calls ++ (c ∷ []) })
  pub step_configure :
      (s : State) (name : Bytes)
      → D name s.config
      → I s
      → I (record s { calls = s.calls ++ (configure_device name s.config ∷ []) })
  pub step_key :
      (s : State) (k : Key)
      → I s
      → I (record s { config = record s.config { private_key = some k } })
  pub step_peer :
      (s : State) (pc : PeerConfig)
      → I s
      → I (record s { config = record s.config { peers = s.config.peers ++ (pc ∷ []) } })

-- The configuration is that of the peer: it has its private key, and its server among the peers.
abbrev pub IsDeviceOf : WgPeer → DeviceConfig → Type 0
IsDeviceOf p d =
    (d.private_key ≡ some p.peer_private_key)
    × (pc : PeerConfig) × Memᴰ pc d.peers
    × (pc.public_key ≡ p.server_public_key)
    × (pc.allowed_ips ≡ p.routes)
    × (pc.remove ≡ false)

-- `P` and `D` hold of the calls that one peer may cause.
pub record Covers (P : Call → Type 0) (D : Bytes → DeviceConfig → Type 0) (p : WgPeer)
    : Type 0 where
  pub device : (d : DeviceConfig) → IsDeviceOf p d → D (interface_name p) d
  pub add_link : P (link_add (interface_name p))
  pub by_name : P (link_by_name (interface_name p))
  pub client : P (new_client (interface_name p))
  pub set_up : P (link_set_up (interface_name p))
  pub address :
      (a : IpNet) → address_net p.peer_address ≡ some a → P (addr_replace (interface_name p) a)
  pub old_address :
      (a b : IpNet)
      → address_net p.peer_address ≡ some a
      → net_string a ≢ net_string b
      → P (addr_del (interface_name p) b)
  pub route : (r : IpNet) → Memᴰ r p.routes → P (route_replace (interface_name p) r)
  pub old_route :
      (d : Option IpNet) → is_route p.routes d ≡ false → P (route_del (interface_name p) d)

-- What the loop over the peers leaves of the interfaces.
abbrev pub left_over : Assoc Link → List WgPeer → Assoc Link
left_over existing [] = existing
left_over existing (p ∷ ps) = left_over (without_link (interface_name p) existing) ps

module _ (kernel : Kernel) (I : State → Type 0) (P : Call → Type 0)
    (D : Bytes → DeviceConfig → Type 0) (kept : AreKept I P D) where
  pub call-Keeps : (message : Bytes) (c : Call) → P c → Keeps I (call kernel message c)
  unfolding call
  call-Keeps message c p s i = elim (Bool-cases (kernel.succeeds s.calls c)) [
    | inl done ↦ simp done (kept.step s c p i)
    | inr failed ↦ simp failed (kept.step s c p i)
  ]

  configure-keeps :
      (name : Bytes) (s : State) → D name s.config → I s → I (configure kernel name s).1
  unfolding configure call
  configure-keeps name s d i =
      elim (Bool-cases (kernel.succeeds s.calls (configure_device name s.config))) [
        | inl done ↦ simp done (kept.step_configure s name d i)
        | inr failed ↦ simp failed (kept.step_configure s name d i)
      ]

  pub drop_addresses-Keeps :
      (name : Bytes) (addr : IpNet) (as' : List IpNet)
      → ((b : IpNet) → net_string addr ≢ net_string b → P (addr_del name b))
      → Keeps I (drop_addresses kernel name addr as')
  unfolding drop_addresses ◌>>◌
  drop_addresses-Keeps name addr [] h = λ s i. i
  drop_addresses-Keeps name addr (a ∷ as') h =
      let rest = drop_addresses-Keeps name addr as' h in
      elim (Bool-cases (bytes_eq (net_string addr) (net_string a))) [
        | inl same ↦ simp same rest
        | inr differs ↦ simp differs (
            >>-Keeps I _ _
              (call-Keeps _ _
                (h a (λ e. cc (differs, (bytes_eq_iff (net_string addr) (net_string a)).1 e))))
              rest)
      ]

  pub add_routes-Keeps :
      (name : Bytes) (dsts : List IpNet)
      → ((r : IpNet) → Memᴰ r dsts → P (route_replace name r))
      → Keeps I (add_routes kernel name dsts)
  unfolding add_routes
  add_routes-Keeps name [] h = λ s i. i
  add_routes-Keeps name (dst ∷ dsts) h =
      >>-Keeps I _ _ (call-Keeps _ _ (h dst (Memᴰ.head refl)))
        (add_routes-Keeps name dsts (λ r m. h r (Memᴰ.tail m)))

  pub drop_routes-Keeps :
      (name : Bytes) (routes : List IpNet) (dsts : List (Option IpNet))
      → ((d : Option IpNet) → is_route routes d ≡ false → P (route_del name d))
      → Keeps I (drop_routes kernel name routes dsts)
  unfolding drop_routes ◌>>◌
  drop_routes-Keeps name routes [] h = λ s i. i
  drop_routes-Keeps name routes (dst ∷ dsts) h =
      let rest = drop_routes-Keeps name routes dsts h in
      elim (Bool-cases (is_route routes dst)) [
        | inl wanted ↦ simp wanted rest
        | inr old ↦ simp old (>>-Keeps I _ _ (call-Keeps _ _ (h dst old)) rest)
      ]

  pub sync_network-Keeps : (p : WgPeer) → Covers P D p → Keeps I (sync_network kernel p)
  unfolding sync_network keep_addresses keep_routes
  sync_network-Keeps p c = require-Keeps I _ (address_net p.peer_address) _ (λ addr e.
      >>-Keeps I _ _ (call-Keeps _ _ (c.address addr e)) (
        >>-Keeps I _ _
          (λ s.
            drop_addresses-Keeps _ addr (kernel.addrs s.calls (interface_name p))
              (λ b differs. c.old_address addr b e differs) s)
          (>>-Keeps I _ _ (add_routes-Keeps _ p.routes c.route) (λ s.
            require-Keeps I _ (kernel.routes s.calls (interface_name p)) _
              (λ dsts e'. drop_routes-Keeps _ p.routes dsts c.old_route) s))))

  ensure_link-Keeps :
      (existing : Assoc Link) (name : Bytes)
      → P (link_add name)
      → Keeps I (ensure_link kernel existing name)
  unfolding ensure_link
  ensure_link-Keeps existing name p = elim (Bool-cases (is_some (lookup name existing))) [
    | inl there ↦ simp there (λ s i. i)
    | inr missing ↦ simp missing (call-Keeps _ _ p)
  ]

  pub delete_links-Keeps :
      (ls : Assoc Link)
      → ((e : Bytes × Link) → Memᴰ e ls → P (link_del e.0))
      → Keeps I (delete_links kernel ls)
  unfolding delete_links
  delete_links-Keeps [] h = λ s i. i
  delete_links-Keeps ((name, l) ∷ ls) h =
      >>-Keeps I _ _ (call-Keeps _ _ (h (name, l) (Memᴰ.head refl)))
        (delete_links-Keeps ls (λ e m. h e (Memᴰ.tail m)))

  module _ (kc : KeyCodec) (parse_addr_port : Bytes → Option UdpAddr) where
    -- At one state: what is missing ends the code there.
    require_at :
        {A B : Type 0} (message : Bytes) (s : State) (o : Option A) (k : A → Act State B)
        → I s
        → ((a : A) → o ≡ some a → I (k a s).1)
        → I ((require message o >>= k) s).1
    unfolding require ◌>>=◌
    require_at message s none k i h = i
    require_at message s (some a) k i h = h a refl

    sync_device-Keeps :
        (p : WgPeer) → Covers P D p → Keeps I (sync_device kc parse_addr_port kernel p)
    unfolding sync_device set_private_key append_peer ◌>>◌ peer_of
    sync_device-Keeps p c s i =
        let keyed : State = record s {
          config = record s.config { private_key = some p.peer_private_key };
        } in
        let has_key : I keyed = kept.step_key s p.peer_private_key i in
        require_at _ keyed (parse_addr_port p.server_endpoint) _ has_key (λ endpoint e.
          require_at _ keyed (optional_key kc p.pre_shared_key) _ has_key (λ psk e'.
            let pc = peer_of p endpoint psk in
            let joined : State = record keyed {
              config = record keyed.config { peers = s.config.peers ++ (pc ∷ []) };
            } in
            configure-keeps (interface_name p) joined
              (c.device joined.config
                (refl, pc, mem-append_right s.config.peers (Memᴰ.head refl), refl, refl, refl))
              (kept.step_peer keyed pc has_key)))

    sync_peer-Keeps :
        (existing : Assoc Link) (p : WgPeer)
        → Covers P D p
        → Keeps I (sync_peer kc parse_addr_port kernel existing p)
    unfolding sync_peer
    sync_peer-Keeps existing p c = >>-Keeps I _ _ (ensure_link-Keeps existing _ c.add_link) (
        >>-Keeps I _ _ (call-Keeps _ _ c.by_name) (
          >>-Keeps I _ _ (call-Keeps _ _ c.client) (
            >>-Keeps I _ _ (sync_device-Keeps p c)
              (>>-Keeps I _ _ (call-Keeps _ _ c.set_up) (sync_network-Keeps p c)))))

    pub sync_peers-Keeps :
        (range : Assoc Link → Assoc Link) (existing : Assoc Link) (ps : List WgPeer)
        → ((p : WgPeer) → Memᴰ p ps → Covers P D p)
        → ((e : Bytes × Link) → Memᴰ e (range (left_over existing ps)) → P (link_del e.0))
        → Keeps I (sync_peers kc parse_addr_port kernel range existing ps)
    unfolding sync_peers
    sync_peers-Keeps range existing [] cover left = delete_links-Keeps (range existing) left
    sync_peers-Keeps range existing (p ∷ ps) cover left =
        >>-Keeps I _ _ (sync_peer-Keeps existing p (cover p (Memᴰ.head refl))) (
          sync_peers-Keeps range (without_link (interface_name p) existing) ps
            (λ q m. cover q (Memᴰ.tail m)) left)

    -- A whole sync keeps `I`.
    pub wgc_sync-Keeps :
        (range : Assoc Link → Assoc Link) (ps : List WgPeer)
        → ((p : WgPeer) → Memᴰ p ps → Covers P D p)
        → ((links : List Link) (e : Bytes × Link)
            → kernel.links ≡ some links
            → Memᴰ e (range (left_over (existing_links links) ps))
            → P (link_del e.0))
        → Keeps I (wgc_sync kc parse_addr_port kernel range ps)
    unfolding wgc_sync
    wgc_sync-Keeps range ps cover left = require-Keeps I _ kernel.links _ (λ links e.
        sync_peers-Keeps range (existing_links links) ps cover (λ entry. left links entry e))

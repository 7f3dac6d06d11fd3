-- ===== src/PeerSync/Converge.antt =====
-- After a successful `wgaSync` the device has the wanted peers and no others.
use wga.Base.{
  Bool, true, false, ◌||◌, Option, none, some, List, [], ◌∷◌, ◌≡◌, arith, if◌then◌else◌, is_some,
  get_or, refl, length, Bytes, or_else, lookup, bytes_eq_iff, Bool-cases, ◌++◌, Assoc,
  lookup-insert, inl, inr, ok,
}
use wga.Net.{IpNet, ip_equal, ip_equal_refl}
use wga.WgTypes.{zero_key, KeyCodec, PeerConfig, Peer}
use wga.PeerSync.{
  Configure, nets_changed, changed, psk_changed, have_peers, add_peer, wga_sync, should_peers,
  should_from, peer_config, should_peer, Ranges, WireguardAccessPeer, Faults,
  WireguardAccessPeerStatus, plan, configure_result,
}
use wga.PeerSync.Plan.{wanted_entries, entries_for, IsRange, wga_sync-plan}

-- The documented meaning of a `PeerConfig` for the device's peer with its key.
unfoldable pub apply_peer : PeerConfig → Option Peer → Option Peer
apply_peer c none =
    if c.remove || c.update_only
    then none
    else some (record {
      public_key = c.public_key;
      preshared_key = get_or c.preshared_key zero_key;
      endpoint = c.endpoint;
      persistent_keepalive_interval = get_or c.persistent_keepalive_interval 0;
      allowed_ips = c.allowed_ips;
    })
apply_peer c (some p) =
    if c.remove
    then none
    else some (record p {
      preshared_key = get_or c.preshared_key p.preshared_key;
      endpoint = or_else c.endpoint p.endpoint;
      persistent_keepalive_interval =
          get_or c.persistent_keepalive_interval p.persistent_keepalive_interval;
      allowed_ips = if c.replace_allowed_ips then c.allowed_ips else p.allowed_ips ++ c.allowed_ips;
    })

abbrev pub apply_all : List PeerConfig → Option Peer → Option Peer
apply_all [] s = s
apply_all (c ∷ cs) s = apply_all cs (apply_peer c s)

-- A call of `ConfigureDevice` treats each entry on the peer that its key names. WireGuard moves an
-- allowed address that two peers claim to the later one: where that happens this does not hold.
abbrev pub ActsByKey : KeyCodec → Configure → List PeerConfig → List Peer → Type 0
ActsByKey kc configure cs device =
    (k : Bytes)
    → lookup k (have_peers kc (configure cs device).1)
      ≡ apply_all (entries_for kc k cs) (lookup k (have_peers kc device))

-- The same networks in the same order, an IPv4 address and its 16-byte form being the same.
abbrev pub SameNets : List IpNet → List IpNet → Type 0
SameNets [] [] = Unit
SameNets (n ∷ ns) (o ∷ os) = (ip_equal n.ip o.ip ≡ true) × (n.mask ≡ o.mask) × SameNets ns os
SameNets _ _ = ⊥

-- A peer of the device is as wanted.
abbrev pub Agrees : PeerConfig → Peer → Type 0
Agrees nu p = (nu.preshared_key ≡ some p.preshared_key) × SameNets nu.allowed_ips p.allowed_ips

-- The device's entry for a key is as wanted; a key that is not wanted has none.
abbrev pub Reached : Option PeerConfig → Option Peer → Type 0
Reached none s = s ≡ none
Reached (some nu) none = ⊥
Reached (some nu) (some p) = Agrees nu p

-- What `wgaSync` puts into every wanted peer.
pub record IsWanted (nu : PeerConfig) : Type 0 where
  pub kept : nu.remove ≡ false
  pub added : nu.update_only ≡ false
  pub replaces : nu.replace_allowed_ips ≡ true
  pub has_psk : is_some nu.preshared_key ≡ true

SameNets-refl : (ns : List IpNet) → SameNets ns ns
SameNets-refl [] = tt
SameNets-refl (n ∷ ns) = (ip_equal_refl n.ip, refl, SameNets-refl ns)

nets_changed-SameNets :
    (ns os : List IpNet) → length ns ≡ length os → nets_changed ns os ≡ false → SameNets ns os
unfolding nets_changed
nets_changed-SameNets [] [] l h = tt
nets_changed-SameNets [] (o ∷ os) l h = absurd (omega arith)
nets_changed-SameNets (n ∷ ns) [] l h = absurd (omega arith)
nets_changed-SameNets (n ∷ ns) (o ∷ os) l h =
    ground (arith, nets_changed-SameNets ns os, bytes_eq_iff n.mask o.mask)

pub unchanged-Agrees :
    (nu : PeerConfig) (p : Peer) → IsWanted nu → changed nu p ≡ false → Agrees nu p
unfolding changed psk_changed
unchanged-Agrees nu p w h = ground (
  arith,
  bytes_eq_iff (get_or nu.preshared_key zero_key) p.preshared_key,
  nets_changed-SameNets nu.allowed_ips p.allowed_ips,
)

wanted_entries-Reached :
    (s : Option PeerConfig) (p : Option Peer)
    → ((nu : PeerConfig) → s ≡ some nu → IsWanted nu)
    → Reached s (apply_all (wanted_entries s p) p)
unfolding apply_peer
wanted_entries-Reached none none w = refl
wanted_entries-Reached none (some old) w = refl
wanted_entries-Reached (some nu) none w = ground (arith, w nu refl, SameNets-refl nu.allowed_ips)
wanted_entries-Reached (some nu) (some old) w = elim (Bool-cases (changed nu old)) [
  | inl e ↦ rw e (ground (arith, w nu refl, SameNets-refl nu.allowed_ips))
  | inr e ↦ rw e (unchanged-Agrees nu old (w nu refl) e)
]

configure_result-ok :
    (x : Bool × List Peer)
    → x.0 ≡ true
    → ((configure_result x).0 ≡ ok tt) × ((configure_result x).1 ≡ x.1)
unfolding configure_result
configure_result-ok (true, device) h = (refl, refl)
configure_result-ok (false, device) h = cc

module _ (kc : KeyCodec) where
  peer_config-IsWanted :
      (peer : WireguardAccessPeer) (status : WireguardAccessPeerStatus) (nu : PeerConfig)
      → peer_config kc peer status ≡ some nu
      → IsWanted nu
  unfolding peer_config
  peer_config-IsWanted peer status nu e = ground arith

  abbrev pub AllWanted : Assoc PeerConfig → Type 0
  AllWanted m = (k : Bytes) (nu : PeerConfig) → lookup k m ≡ some nu → IsWanted nu

  add_peer-AllWanted :
      (o : Option PeerConfig) (should : Assoc PeerConfig)
      → ((nu : PeerConfig) → o ≡ some nu → IsWanted nu)
      → AllWanted should
      → AllWanted (add_peer kc o should)
  unfolding add_peer
  add_peer-AllWanted none should new old k nu e = old k nu e
  add_peer-AllWanted (some pc) should new old k nu e =
      ground (arith, lookup-insert (kc.key_string pc.public_key) k pc should, new nu, old k nu)

  should_peer-AllWanted :
      (peer : WireguardAccessPeer) (status : Option WireguardAccessPeerStatus)
      (should : Assoc PeerConfig)
      → AllWanted should
      → AllWanted (should_peer kc peer status should)
  unfolding should_peer
  should_peer-AllWanted peer none should h = h
  should_peer-AllWanted peer (some status) should h =
      add_peer-AllWanted (peer_config kc peer status) should (peer_config-IsWanted peer status) h

  should_from-AllWanted :
      (should : Assoc PeerConfig) (peers : List WireguardAccessPeer)
      → AllWanted should
      → AllWanted (should_from kc should peers)
  unfolding should_from
  should_from-AllWanted should [] h = h
  should_from-AllWanted should (peer ∷ peers) h =
      should_from-AllWanted (should_peer kc peer peer.status should) peers
        (should_peer-AllWanted peer peer.status should h)

  pub should_peers-AllWanted :
      (peers : List WireguardAccessPeer) → AllWanted (should_peers kc peers)
  unfolding should_peers lookup
  should_peers-AllWanted peers = should_from-AllWanted [] peers (λ k nu e. cc)

  -- When the device can be read, the plan is acted on key by key and `ConfigureDevice` succeeds, the
  -- sync succeeds and afterwards, for every key, the device's peer has the wanted preshared key and
  -- allowed networks if the key is wanted, and there is no such peer if it is not.
  pub wga_sync-converges :
      (r : Ranges) (configure : Configure) (f : Faults) (peers : List WireguardAccessPeer)
      (device : List Peer)
      → IsRange r.have
      → IsRange r.should
      → f.new ≡ false
      → f.device ≡ false
      → let p = plan r (should_peers kc peers) (have_peers kc device) in
        (configure p device).0 ≡ true
        → ActsByKey kc configure p device
        → let (outcome, device') = wga_sync kc r configure f peers device in
          (outcome ≡ ok tt)
          × ((k : Bytes)
              → Reached (lookup k (should_peers kc peers)) (lookup k (have_peers kc device')))
  unfolding wga_sync
  wga_sync-converges r configure f peers device rh rs new dev done acts =
      let p = plan r (should_peers kc peers) (have_peers kc device) in
      let (same, left) = configure_result-ok (configure p device) done in
      rw (new, dev)
        (
          same,
          λ k.
              rw (left, acts k, wga_sync-plan kc r peers device k rh rs)
                (wanted_entries-Reached (lookup k (should_peers kc peers))
                  (lookup k (have_peers kc device)) (should_peers-AllWanted peers k)),
        )

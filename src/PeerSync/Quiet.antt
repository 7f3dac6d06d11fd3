-- ===== src/PeerSync/Quiet.antt =====
-- When `wgaSync` has nothing to do.
use wga.Base.{
  none, some, List, [], ◌∷◌, ◌≡◌, ◌↔◌, arith, Option, Bytes, length, false, bytes_eq_iff, ap, suc,
  bytes_eq_refl, refl, Bool-cases, inl, inr, lookup, sym, ◌∙◌,
}
use wga.PeerSync.{
  nets_changed, changed, PeerConfig, psk_changed, Ranges, WireguardAccessPeer, Peer, plan,
  should_peers, have_peers,
}
use wga.Net.{IpNet}
use wga.WgTypes.{KeyCodec}
use wga.PeerSync.Converge.{
  SameNets, Agrees, IsWanted, Reached, unchanged-Agrees, should_peers-AllWanted,
}
use wga.PeerSync.Plan.{entries_for, IsRange, wanted_entries, wga_sync-plan}

SameNets-nets_changed : (ns os : List IpNet) → SameNets ns os → nets_changed ns os ≡ false
unfolding nets_changed
SameNets-nets_changed [] [] h = refl
SameNets-nets_changed [] (o ∷ os) h = absurd h
SameNets-nets_changed (n ∷ ns) [] h = absurd h
SameNets-nets_changed (n ∷ ns) (o ∷ os) h =
    ground (arith, SameNets-nets_changed ns os h.2, bytes_eq_iff n.mask o.mask)

length-SameNets : (ns os : List IpNet) → SameNets ns os → length ns ≡ length os
length-SameNets [] [] h = refl
length-SameNets [] (o ∷ os) h = absurd h
length-SameNets (n ∷ ns) [] h = absurd h
length-SameNets (n ∷ ns) (o ∷ os) h = ap suc (length-SameNets ns os h.2)

Agrees-unchanged : (nu : PeerConfig) (p : Peer) → Agrees nu p → changed nu p ≡ false
unfolding changed psk_changed
Agrees-unchanged nu p (psk, nets) = rw psk (
    ground (
      arith,
      bytes_eq_refl p.preshared_key,
      SameNets-nets_changed nu.allowed_ips p.allowed_ips nets,
      length-SameNets nu.allowed_ips p.allowed_ips nets,
    ))

Reached-nil : (s : Option PeerConfig) (p : Option Peer) → Reached s p → wanted_entries s p ≡ []
Reached-nil none none h = refl
Reached-nil none (some p) h = cc
Reached-nil (some nu) none h = absurd h
Reached-nil (some nu) (some p) h = rw (Agrees-unchanged nu p h)

nil-Reached :
    (s : Option PeerConfig) (p : Option Peer)
    → ((nu : PeerConfig) → s ≡ some nu → IsWanted nu)
    → wanted_entries s p ≡ []
    → Reached s p
nil-Reached none none w h = refl
nil-Reached none (some p) w h = cc
nil-Reached (some nu) none w h = cc
nil-Reached (some nu) (some p) w h = elim (Bool-cases (changed nu p)) [
  | inl e ↦ cc (rw e at h)
  | inr e ↦ unchanged-Agrees nu p (w nu refl) e
]

module _ (kc : KeyCodec) where
  nil_of_entries : (cs : List PeerConfig) → ((k : Bytes) → entries_for kc k cs ≡ []) → cs ≡ []
  nil_of_entries [] h = refl
  nil_of_entries (c ∷ cs) h =
      let e = h (kc.key_string c.public_key) in
      ground (arith, e, bytes_eq_refl (kc.key_string c.public_key))

  -- For every order of the maps, a sync sends an empty list of changes exactly when each key's peer on
  -- the device is already as wanted, keys that are not wanted having none.
  pub wga_sync-quiet_iff :
      (r : Ranges) (peers : List WireguardAccessPeer) (device : List Peer)
      → IsRange r.have
      → IsRange r.should
      → (plan r (should_peers kc peers) (have_peers kc device) ≡ []) ↔ (
          (k : Bytes)
          → Reached (lookup k (should_peers kc peers)) (lookup k (have_peers kc device)))
  wga_sync-quiet_iff r peers device rh rs =
      let p = plan r (should_peers kc peers) (have_peers kc device) in
      let of_key = λ (k : Bytes). wga_sync-plan kc r peers device k rh rs in
      (
        λ e k.
            nil-Reached (lookup k (should_peers kc peers)) (lookup k (have_peers kc device))
              (should_peers-AllWanted kc peers k) (sym (of_key k) ∙ ap (entries_for kc k) e),
        λ h. nil_of_entries p (λ k. of_key k ∙ Reached-nil _ _ (h k)),
      )

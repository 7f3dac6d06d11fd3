-- ===== src/PeerReconcile/Legacy.antt =====
-- What becomes of an address in the deprecated field, and of a peer when there is no IPv6 network.
use wga.Base.{
  ◌∙◌, ap, sym, Bool, err, Outcome, true, none, some, List, [], ◌∷◌, ◌≡◌, ok, panic, is_empty,
  bytes, refl, false, Bool, Outcome, err,
}
use wga.Api.{WireguardAccessPeer, WireguardAccessPeerStatus}
use wga.PeerReconcile.{
  PeerReconciler, Surroundings, assign, reconcile, by_status, write_status, migrate, new_addresses,
  new_status, v6_nets,
}
use mathlib.Core.List.{Memᴰ}
use wga.Net.{IpNet, is_v4}
use wga.PeerReconcile.Assigns.{IsNew, by_status-IsNew}

-- The peer has an address in the deprecated field only.
abbrev pub IsLegacy : WireguardAccessPeer → Type 0
IsLegacy peer =
    (status : WireguardAccessPeerStatus) × (peer.status ≡ some status)
    × (status.addresses ≡ [])
    × (is_empty status.address ≡ false)

-- The peer without its status.
abbrev pub forget : WireguardAccessPeer → WireguardAccessPeer
forget peer = record peer { status = none }

v6_nets-v4 :
    (nets : List IpNet) → ((n : IpNet) → Memᴰ n nets → is_v4 n.ip ≡ true) → v6_nets nets ≡ []
unfolding v6_nets
v6_nets-v4 [] v4 = refl
v6_nets-v4 (n ∷ nets) v4 =
    simp (v4 n (Memᴰ.head refl)) (v6_nets-v4 nets (λ x m. v4 x (Memᴰ.tail m)))

module _ (r : PeerReconciler) (s : Surroundings) where
  write_status-forget :
      (updates : Bool) (peer : WireguardAccessPeer) (o : Outcome WireguardAccessPeerStatus)
      → (write_status r s updates peer peer o).outcome ≡ ok tt
      → write_status r s updates peer peer o
        ≡ write_status r s updates (forget peer) (forget peer) o
  unfolding write_status
  write_status-forget updates peer (err x) e = cc
  write_status-forget updates peer (panic x) e = cc
  write_status-forget true peer (ok status) e = refl
  write_status-forget false peer (ok status) e = cc

  assign-forget :
      (peer : WireguardAccessPeer)
      → (assign r s peer).outcome ≡ ok tt
      → assign r s peer ≡ assign r s (forget peer)
  unfolding assign
  assign-forget peer e = write_status-forget s.updates peer _ e

  migrate-forget :
      (migrates : Bool) (peer : WireguardAccessPeer) (status : WireguardAccessPeerStatus)
      → (migrate r s migrates peer status).outcome ≡ ok tt
      → migrate r s migrates peer status ≡ assign r s (forget peer)
  unfolding migrate
  migrate-forget true peer status e = assign-forget _ e
  migrate-forget false peer status e = cc

  by_status-legacy :
      (peer : WireguardAccessPeer) (status : WireguardAccessPeerStatus)
      → status.addresses ≡ []
      → is_empty status.address ≡ false
      → by_status r s peer (some status) ≡ migrate r s s.migrates peer status
  unfolding by_status
  by_status-legacy peer status no_list legacy = simp (no_list, legacy)

  reconcile-migrate :
      (peer : WireguardAccessPeer) (status : WireguardAccessPeerStatus)
      → peer.status ≡ some status
      → status.addresses ≡ []
      → is_empty status.address ≡ false
      → reconcile r s peer ≡ migrate r s s.migrates peer status
  unfolding reconcile
  reconcile-migrate peer status has no_list legacy =
      ap (by_status r s peer) has ∙ by_status-legacy peer status no_list legacy

  -- A peer with an address in the deprecated field only, when the call returns no error, ends up
  -- as the same peer without any status does: nothing of the address that it had is kept.
  pub reconcile-IsLegacy :
      (peer : WireguardAccessPeer)
      → IsLegacy peer
      → (reconcile r s peer).outcome ≡ ok tt
      → reconcile r s peer ≡ reconcile r s (forget peer)
  unfolding reconcile by_status
  reconcile-IsLegacy peer (status, has, no_list, legacy) e =
      let p = reconcile-migrate peer status has no_list legacy in
      p ∙ migrate-forget s.migrates peer status (ap (λ x. x.outcome) (sym p) ∙ e)

  -- When all client networks are IPv4 networks, reconciling a peer without any address panics, stores
  -- nothing and starts no sync.
  pub reconcile_panics :
      (peer : WireguardAccessPeer)
      → IsNew peer.status
      → ((n : IpNet) → Memᴰ n r.clients_nets → is_v4 n.ip ≡ true)
      → reconcile r s peer
        ≡ record { outcome = panic (bytes "index out of range"); stored = peer; synced = false }
  unfolding reconcile assign new_addresses new_status write_status
  reconcile_panics peer new v4 =
      rw (by_status-IsNew r s peer peer.status new, v6_nets-v4 r.clients_nets v4) refl

-- ===== src/PeerReconcile/Stable.antt =====
-- A peer that has addresses keeps them.
use wga.Base.{
  true, false, none, some, List, [], ◌∷◌, ◌≡◌, ok, err, panic, is_empty, refl, Option, Bool-cases,
  Bool, inr, inl, Outcome, Bytes, ◌>>=◌,
}
use wga.Api.{WireguardAccessPeer, WireguardAccessPeerStatus}
use wga.PeerReconcile.{
  PeerReconciler, Surroundings, assign, reconcile, by_status, write_status, migrate, new_addresses,
  new_status, v6_nets,
}

-- The peer has a status with at least one address.
abbrev pub HasAddresses : WireguardAccessPeer → Type 0
HasAddresses peer =
    (status : WireguardAccessPeerStatus) × (peer.status ≡ some status)
    × (is_empty status.addresses ≡ false)

module _ (r : PeerReconciler) (s : Surroundings) where
  -- Reconciling a peer with addresses returns no error, writes nothing and starts no sync.
  pub reconcile-HasAddresses :
      (peer : WireguardAccessPeer)
      → HasAddresses peer
      → reconcile r s peer ≡ record { outcome = ok tt; stored = peer; synced = false }
  unfolding reconcile by_status
  reconcile-HasAddresses peer (status, has, some_address) = rw (has, some_address)

  written-HasAddresses :
      (updates : Bool) (before peer : WireguardAccessPeer) (addrs : Outcome (List Bytes))
      → (write_status r s updates before peer (addrs >>= new_status r s)).outcome ≡ ok tt
      → HasAddresses (write_status r s updates before peer (addrs >>= new_status r s)).stored
  unfolding write_status new_status
  written-HasAddresses updates before peer (ok []) e = cc
  written-HasAddresses true before peer (ok (a ∷ as')) e = (_, refl, refl)
  written-HasAddresses false before peer (ok (a ∷ as')) e = cc
  written-HasAddresses updates before peer (err x) e = cc
  written-HasAddresses updates before peer (panic x) e = cc

  assign-HasAddresses :
      (peer : WireguardAccessPeer)
      → (assign r s peer).outcome ≡ ok tt
      → HasAddresses (assign r s peer).stored
  unfolding assign
  assign-HasAddresses peer e =
      written-HasAddresses s.updates peer peer (new_addresses r s (v6_nets r.clients_nets)) e

  migrate-HasAddresses :
      (migrates : Bool) (peer : WireguardAccessPeer) (status : WireguardAccessPeerStatus)
      → (migrate r s migrates peer status).outcome ≡ ok tt
      → HasAddresses (migrate r s migrates peer status).stored
  unfolding migrate
  migrate-HasAddresses true peer status e = assign-HasAddresses _ e
  migrate-HasAddresses false peer status e = cc

  by_status-HasAddresses :
      (peer : WireguardAccessPeer) (o : Option WireguardAccessPeerStatus)
      → peer.status ≡ o
      → (by_status r s peer o).outcome ≡ ok tt
      → HasAddresses (by_status r s peer o).stored
  unfolding by_status
  by_status-HasAddresses peer none same e = assign-HasAddresses peer e
  by_status-HasAddresses peer (some status) same e = elim (Bool-cases (is_empty status.addresses)) [
    | inr kept ↦ rw kept (status, same, kept)
    | inl none_yet ↦ elim (Bool-cases (is_empty status.address)) [
      | inl new ↦ rw (none_yet, new) (assign-HasAddresses peer (rw (none_yet, new) at e))
      | inr legacy ↦
          rw (none_yet, legacy)
            (migrate-HasAddresses s.migrates peer status (rw (none_yet, legacy) at e))
    ]
  ]

  -- When a call returns no error, the stored peer has an address.
  pub stored-HasAddresses :
      (peer : WireguardAccessPeer)
      → (reconcile r s peer).outcome ≡ ok tt
      → HasAddresses (reconcile r s peer).stored
  unfolding reconcile
  stored-HasAddresses peer e = by_status-HasAddresses peer peer.status refl e

-- After a call that returns no error, a second call, at any time and with any answers, changes
-- nothing: the address that was chosen is kept.
pub reconcile-reconcile :
    (r r' : PeerReconciler) (s s' : Surroundings) (peer : WireguardAccessPeer)
    → (reconcile r s peer).outcome ≡ ok tt
    → let again = reconcile r' s' (reconcile r s peer).stored in
      (again.outcome ≡ ok tt)
      × (again.stored ≡ (reconcile r s peer).stored)
      × (again.synced ≡ false)
reconcile-reconcile r r' s s' peer e =
    rw (reconcile-HasAddresses r' s' (reconcile r s peer).stored (stored-HasAddresses r s peer e))
      (refl, refl, refl)

-- ===== src/Peers/Watch.antt =====
-- peers.go and the operator together: the command line waits until the operator has given the new peer
-- its address.
use wga.Base.{List, [], ◌∷◌, ◌++◌, Bytes, ◌≡◌, refl, some, none, ok, true, All, ℕ, ◌<◌, ap}
use wga.PeerReconcile.{PeerReconciler, Surroundings, v6_nets, reconcile}
use wga.PeerReconcile.Assigns.{IsPicked, IsGiven, reconcile-IsPicked, AreUsable}
use wga.Peers.{
  no_object, other_object, peer_event, wait_for_status, Event, new_wga_peer, created, peer_event,
  or_error, peer_value, Cluster,
}
use wga.Api.{WireguardAccessPeer, WireguardAccessPeerStatus}
use wga.WgTypes.{KeyCodec, Key}
use wga.Net.{IpNet}
use wga.Index.Bounds.{IsRandom}

-- An event that the command line passes over
abbrev pub IsPassedOver : Event → Type 0
IsPassedOver no_object = Unit
IsPassedOver other_object = Unit
IsPassedOver (peer_event p) = p.status ≡ none

wait_for_status-first :
    (before after : List Event) (p : WireguardAccessPeer) (status : WireguardAccessPeerStatus)
    → All IsPassedOver before
    → p.status ≡ some status
    → wait_for_status (before ++ (peer_event p ∷ after)) ≡ some p
unfolding wait_for_status
wait_for_status-first [] after p status h known = simp known refl
wait_for_status-first (no_object ∷ before) after p status (h, hs) known =
    wait_for_status-first before after p status hs known
wait_for_status-first (other_object ∷ before) after p status (h, hs) known =
    wait_for_status-first before after p status hs known
wait_for_status-first (peer_event q ∷ before) after p status (h, hs) known =
    simp h (wait_for_status-first before after p status hs known)

new_wga_peer-returns :
    (kc : KeyCodec) (cluster : Cluster) (name : Bytes) (rules : List Bytes) (keyset pskset : Key)
    (events : List Event) (p : WireguardAccessPeer)
    → cluster.connects ≡ true
    → cluster.creates (peer_value kc name rules keyset pskset) ≡ true
    → cluster.watch (peer_value kc name rules keyset pskset) ≡ some events
    → wait_for_status events ≡ some p
    → new_wga_peer kc cluster name rules keyset pskset ≡ ok p
unfolding new_wga_peer created or_error
new_wga_peer-returns kc cluster name rules keyset pskset events p connects creates brings seen =
    rw (connects, creates, brings, seen) refl

-- When the API server accepts the peer and the operator's write of it, and brings the command line
-- the operator's peer after events without a status, the command ends with the peer that it asked for,
-- which has been given a host's address in one of the client networks.
pub new_wga_peer-IsGiven :
    (kc : KeyCodec) (cluster : Cluster) (name : Bytes) (rules : List Bytes) (keyset pskset : Key)
    (r : PeerReconciler) (s : Surroundings) (n : IpNet) (nets : List IpNet)
    (before after : List Event)
    → IsRandom s.int64_n
    → ((m : ℕ) → 0 < m → s.int_n m < m)
    → AreUsable r s r.clients_nets
    → v6_nets r.clients_nets ≡ n ∷ nets
    → s.updates ≡ true
    → cluster.connects ≡ true
    → cluster.creates (peer_value kc name rules keyset pskset) ≡ true
    → cluster.watch (peer_value kc name rules keyset pskset)
      ≡ some (
          before
          ++ (peer_event (reconcile r s (peer_value kc name rules keyset pskset)).stored ∷ after))
    → All IsPassedOver before
    → (addr : Bytes) × IsPicked r s addr
      × IsGiven r s addr
          (peer_value kc name rules keyset pskset)
          (reconcile r s (peer_value kc name rules keyset pskset))
      × (new_wga_peer kc cluster name rules keyset pskset
          ≡ ok (reconcile r s (peer_value kc name rules keyset pskset)).stored)
unfolding peer_value
new_wga_peer-IsGiven kc cluster name rules keyset pskset r s n nets before after random picks usable
      v6 updates connects creates brings passed =
    let peer = peer_value kc name rules keyset pskset in
    let (addr, picked, given) =
      reconcile-IsPicked r s random picks usable peer n nets tt v6 updates in
    let (status, result, address, addresses, server) = given in
    let seen : wait_for_status (before ++ (peer_event (reconcile r s peer).stored ∷ after))
        ≡ some (reconcile r s peer).stored =
      wait_for_status-first before after (reconcile r s peer).stored status passed
        (ap (λ x. x.stored.status) result) in
    (
      addr,
      picked,
      given,
      new_wga_peer-returns kc cluster name rules keyset pskset _ (reconcile r s peer).stored
          connects creates brings seen,
    )

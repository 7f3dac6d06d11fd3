-- ===== src/PeerReconcile/Life.antt =====
-- The peers on the API server over time: users create, edit and delete them, the operator reconciles them.
use wga.Base.{List, [], ◌∷◌, ◌++◌, ◌≡◌, refl, sym, ap, ◌∙◌, ◌⊎◌, inl, inr, ok, Bytes}
use wga.Api.{WireguardAccessPeer, WireguardAccessPeerSpec}
use wga.PeerReconcile.{PeerReconciler, Surroundings, reconcile}
use wga.PeerReconcile.Stable.{HasAddresses, reconcile-HasAddresses, stored-HasAddresses}
use mathlib.Core.List.{Memᴰ}

-- Steps from the first list of peers to the second, and the names that were deleted on the way. A call
-- of the operator may have any surroundings, and may end in any way.
pub data Life (r : PeerReconciler)
    : List WireguardAccessPeer → List WireguardAccessPeer → List Bytes → Type 0 where
  done : {ps : List WireguardAccessPeer} → Life r ps ps []
  created :
      {ps qs : List WireguardAccessPeer} {gone : List Bytes} (peer : WireguardAccessPeer)
      → Life r (peer ∷ ps) qs gone
      → Life r ps qs gone
  edited :
      (before after : List WireguardAccessPeer) {qs : List WireguardAccessPeer} {gone : List Bytes}
      (peer : WireguardAccessPeer) (spec : WireguardAccessPeerSpec)
      → Life r (before ++ (record peer { spec = spec } ∷ after)) qs gone
      → Life r (before ++ (peer ∷ after)) qs gone
  deleted :
      (before after : List WireguardAccessPeer) {qs : List WireguardAccessPeer} {gone : List Bytes}
      (peer : WireguardAccessPeer)
      → Life r (before ++ after) qs gone
      → Life r (before ++ (peer ∷ after)) qs (peer.name ∷ gone)
  reconciled :
      (before after : List WireguardAccessPeer) {qs : List WireguardAccessPeer} {gone : List Bytes}
      (peer : WireguardAccessPeer) (s : Surroundings)
      → Life r (before ++ ((reconcile r s peer).stored ∷ after)) qs gone
      → Life r (before ++ (peer ∷ after)) qs gone

-- Without one entry
mem-without :
    {p x : WireguardAccessPeer} (before after : List WireguardAccessPeer)
    → Memᴰ p (before ++ (x ∷ after))
    → (p ≡ x) ⊎ Memᴰ p (before ++ after)
mem-without [] after (Memᴰ.head e) = inl e
mem-without [] after (Memᴰ.tail m) = inr m
mem-without (b ∷ before) after (Memᴰ.head e) = inr (Memᴰ.head e)
mem-without (b ∷ before) after (Memᴰ.tail m) = elim (mem-without before after m) [
  | inl e ↦ inl e
  | inr rest ↦ inr (Memᴰ.tail rest)
]

mem-with :
    {p : WireguardAccessPeer} (y : WireguardAccessPeer) (before after : List WireguardAccessPeer)
    → Memᴰ p (before ++ after)
    → Memᴰ p (before ++ (y ∷ after))
mem-with y [] after m = Memᴰ.tail m
mem-with y (b ∷ before) after (Memᴰ.head e) = Memᴰ.head e
mem-with y (b ∷ before) after (Memᴰ.tail m) = Memᴰ.tail (mem-with y before after m)

mem-middle :
    {p : WireguardAccessPeer} (y : WireguardAccessPeer) (before after : List WireguardAccessPeer)
    → p ≡ y
    → Memᴰ p (before ++ (y ∷ after))
mem-middle y [] after e = Memᴰ.head e
mem-middle y (b ∷ before) after e = Memᴰ.tail (mem-middle y before after e)

same-HasAddresses :
    (p q : WireguardAccessPeer) → q.status ≡ p.status → HasAddresses p → HasAddresses q
same-HasAddresses p q e (status, has, some_address) = (status, e ∙ has, some_address)

-- The peer `p` is there, with the status that it had.
abbrev pub IsKept : WireguardAccessPeer → List WireguardAccessPeer → Type 0
IsKept p qs = (q : WireguardAccessPeer) × Memᴰ q qs × (q.name ≡ p.name) × (q.status ≡ p.status)

-- A peer with a list of addresses keeps its status.
IsKept-all :
    {r : PeerReconciler} {ps qs : List WireguardAccessPeer} {gone : List Bytes}
    (p : WireguardAccessPeer)
    → Life r ps qs gone
    → Memᴰ p ps
    → HasAddresses p
    → ¬ (Memᴰ p.name gone)
    → IsKept p qs
IsKept-all p done m has stays = (p, m, refl, refl)
IsKept-all p (created peer rest) m has stays = IsKept-all p rest (Memᴰ.tail m) has stays
IsKept-all p (edited before after peer spec rest) m has stays = elim (mem-without before after m) [
  | inl same ↦
      let now : WireguardAccessPeer = record peer { spec = spec } in
      let (q, there, name, status) =
        IsKept-all now rest (mem-middle now before after refl)
          (same-HasAddresses p now (ap (λ x. x.status) (sym same)) has)
          (λ n. stays (rw (ap (λ x. x.name) same) n)) in
      (q, there, name ∙ ap (λ x. x.name) (sym same), status ∙ ap (λ x. x.status) (sym same))
  | inr other ↦ IsKept-all p rest (mem-with _ before after other) has stays
]
IsKept-all p (deleted before after peer rest) m has stays = elim (mem-without before after m) [
  | inl same ↦ absurd (stays (Memᴰ.head (ap (λ x. x.name) same)))
  | inr other ↦ IsKept-all p rest other has (λ n. stays (Memᴰ.tail n))
]
IsKept-all {r} p (reconciled before after peer s rest) m has stays =
    elim (mem-without before after m) [
      | inl same ↦
          let quiet =
            reconcile-HasAddresses r s peer
              (same-HasAddresses p peer (ap (λ x. x.status) (sym same)) has) in
          IsKept-all p rest (mem-middle _ before after (same ∙ sym (ap (λ x. x.stored) quiet))) has
            stays
      | inr other ↦ IsKept-all p rest (mem-with _ before after other) has stays
    ]

-- Once a reconcile of a peer, new or not, has returned no error, the peer has an address, and it keeps
-- this status until it is deleted: whatever peers users create and delete and whatever specs they edit,
-- and however often, and with whatever answers, the operator reconciles this peer and the others.
pub life-IsKept :
    {r : PeerReconciler} {ps qs : List WireguardAccessPeer} {gone : List Bytes} (s : Surroundings)
    (peer : WireguardAccessPeer)
    → (reconcile r s peer).outcome ≡ ok tt
    → Memᴰ (reconcile r s peer).stored ps
    → Life r ps qs gone
    → ¬ (Memᴰ (reconcile r s peer).stored.name gone)
    → HasAddresses (reconcile r s peer).stored × IsKept (reconcile r s peer).stored qs
life-IsKept {r} s peer returned m life stays =
    let has = stored-HasAddresses r s peer returned in
    (has, IsKept-all (reconcile r s peer).stored life m has stays)

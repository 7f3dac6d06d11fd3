-- ===== src/Wgc/Complete.antt =====
-- What has been done when a run of `wgcSync` returns no error.
use wga.Base.{
  subst, true, Option, some, List, [], ◌∷◌, ◌≡◌, ◌≢◌, inl, inr, Bytes, Bool-cases, Option-cases,
  refl, ap, sym, ◌∙◌, Assoc, lookup, insert, is_some, ok, bytes_eq, bytes_eq_iff, lookup-insert,
  mem-lookup,
}
use mathlib.Core.List.{Memᴰ}
use wga.Net.{IpNet}
use wga.WgTypes.{KeyCodec, UdpAddr}
use wga.PeerSync.Plan.{IsRange}
use wga.Wgc.{
  link_set_up, link_del, addr_replace, route_replace, WgPeer, Link, State, Kernel, sync_peers,
  wgc_sync, interface_name, address_net, is_ours, without_link, existing_links, existing_from,
}
use wga.Wgc.Keeps.{left_over}
use wga.Wgc.Allowed.{IsLeftover, existing_from-AreListed, lookup-without_link, left_over-IsMap}
use wga.Wgc.Required.{
  Need, made, configured, serves, IsDone, IsDone-serves, configured-Yields, Yields, require-Yields,
  sync_peers-Yields, leftover-Yields, set_up-Yields, network-Yields, route-Yields, address-Yields,
}

-- What a run has to do: for each peer, to configure its device with its server, to set up its
-- interface, to give it the peer's address and routes; and to delete what is left over.
pub data IsRequired (links : List Link) (peers : List WgPeer) : Need → Type 0 where
  has_device : (p : WgPeer) → Memᴰ p peers → IsRequired links peers (configured p)
  has_server :
      (p : WgPeer)
      → Memᴰ p peers
      → IsRequired links peers (serves (interface_name p) p.server_public_key p.routes)
  set_up :
      (p : WgPeer) → Memᴰ p peers → IsRequired links peers (made (link_set_up (interface_name p)))
  has_address :
      (p : WgPeer) (a : IpNet)
      → Memᴰ p peers
      → address_net p.peer_address ≡ some a
      → IsRequired links peers (made (addr_replace (interface_name p) a))
  has_route :
      (p : WgPeer) (r : IpNet)
      → Memᴰ p peers
      → Memᴰ r p.routes
      → IsRequired links peers (made (route_replace (interface_name p) r))
  deleted :
      (name : Bytes) → IsLeftover links peers name → IsRequired links peers (made (link_del name))

insert-has :
    (k j : Bytes) (l : Link) (m : Assoc Link)
    → is_some (lookup k m) ≡ true
    → is_some (lookup k (insert j l m)) ≡ true
insert-has k j l m h = elim (Bool-cases (bytes_eq j k)) [
  | inl same ↦ rw (lookup-insert j k l m, same) refl
  | inr differs ↦ rw (lookup-insert j k l m, differs) h
]

existing_from-has :
    (k : Bytes) (links : List Link) (m : Assoc Link)
    → is_some (lookup k m) ≡ true
    → is_some (lookup k (existing_from m links)) ≡ true
unfolding existing_from
existing_from-has k [] m h = h
existing_from-has k (l ∷ ls) m h = elim (Bool-cases (is_ours l)) [
  | inl ours ↦ simp ours (existing_from-has k ls (insert l.name l m) (insert-has k l.name l m h))
  | inr other ↦ simp other (existing_from-has k ls m h)
]

insert_self : (l : Link) (m : Assoc Link) → is_some (lookup l.name (insert l.name l m)) ≡ true
insert_self l m = rw (lookup-insert l.name l.name l m, (bytes_eq_iff l.name l.name).1 refl) refl

managed-has :
    (l : Link) (links : List Link) (m : Assoc Link)
    → Memᴰ l links
    → is_ours l ≡ true
    → is_some (lookup l.name (existing_from m links)) ≡ true
unfolding existing_from
managed-has l [] m n ours = elim n [ ]
managed-has l (x ∷ links) m (Memᴰ.head e) ours =
    let mine : is_ours x ≡ true = ap is_ours (sym e) ∙ ours in
    let found = existing_from-has x.name links (insert x.name x m) (insert_self x m) in
    simp mine (rw (ap (λ y. y.name) e) found)
managed-has l (x ∷ links) m (Memᴰ.tail n) ours = elim (Bool-cases (is_ours x)) [
  | inl mine ↦ simp mine (managed-has l links (insert x.name x m) n ours)
  | inr other ↦ simp other (managed-has l links m n ours)
]

left_over-has :
    (k : Bytes) (m : Assoc Link) (ps : List WgPeer)
    → is_some (lookup k m) ≡ true
    → ((p : WgPeer) → Memᴰ p ps → interface_name p ≢ k)
    → is_some (lookup k (left_over m ps)) ≡ true
left_over-has k m [] h free = h
left_over-has k m (p ∷ ps) h free =
    left_over-has k (without_link (interface_name p) m) ps
      (elim (Bool-cases (bytes_eq (interface_name p) k)) [
        | inl same ↦ absurd (free p (Memᴰ.head refl) ((bytes_eq_iff (interface_name p) k).0 same))
        | inr differs ↦ rw (lookup-without_link (interface_name p) k m, differs) h
      ])
      (λ q n. free q (Memᴰ.tail n))

mem-leftover :
    (range : Assoc Link → Assoc Link) (links : List Link) (peers : List WgPeer) (name : Bytes)
    → IsRange range
    → IsLeftover links peers name
    → (l : Link) × Memᴰ (name, l) (range (left_over (existing_links links) peers))
unfolding existing_links lookup
mem-leftover range links peers name rr (l, n, named, ours, free) =
    let (distinct, listed) = existing_from-AreListed links links [] (λ l m. m) (tt, λ k l h. cc) in
    let left = left_over (existing_from [] links) peers in
    let there : is_some (lookup name (existing_from [] links)) ≡ true =
      rw (sym named) (managed-has l links [] n ours) in
    elim (Option-cases (lookup name left)) [
      | inl missing ↦
          absurd (cc (left_over-has name (existing_from [] links) peers there free, missing))
      | inr found ↦
          let (v, e) = found in
          (
            v,
            mem-lookup name v (range left)
                (rr.same left (left_over-IsMap (existing_from [] links) peers distinct) name ∙ e),
          )
    ]

module _ (kc : KeyCodec) (parse_addr_port : Bytes → Option UdpAddr) (kernel : Kernel)
    (range : Assoc Link → Assoc Link) where
  required-Yields :
      (links : List Link) (peers : List WgPeer) (c : Need)
      → IsRange range
      → IsRequired links peers c
      → Yields kernel c (sync_peers kc parse_addr_port kernel range (existing_links links) peers)
  required-Yields links peers c rr (has_device p n) =
      sync_peers-Yields kernel kc parse_addr_port range (existing_links links) peers p _ n
        (λ m. configured-Yields kernel kc parse_addr_port m p)
  required-Yields links peers c rr (has_server p n) = λ s a e.
      IsDone-serves kernel p
        (sync_peers kc parse_addr_port kernel range (existing_links links) peers s).1
        (sync_peers-Yields kernel kc parse_addr_port range (existing_links links) peers p
          (configured p) n (λ m. configured-Yields kernel kc parse_addr_port m p) s a e)
  required-Yields links peers c rr (set_up p n) =
      sync_peers-Yields kernel kc parse_addr_port range (existing_links links) peers p _ n
        (λ m. set_up-Yields kernel kc parse_addr_port m p)
  required-Yields links peers c rr (has_address p a n known) =
      sync_peers-Yields kernel kc parse_addr_port range (existing_links links) peers p _ n
        (λ m. network-Yields kernel kc parse_addr_port _ m p (address-Yields kernel p a known))
  required-Yields links peers c rr (has_route p r n among) =
      sync_peers-Yields kernel kc parse_addr_port range (existing_links links) peers p _ n
        (λ m. network-Yields kernel kc parse_addr_port _ m p (route-Yields kernel p r among))
  required-Yields links peers c rr (deleted name left) =
      let (l, n) = mem-leftover range links peers name rr left in
      leftover-Yields kernel kc parse_addr_port range (existing_links links) peers (name, l) n

  -- When a run returns no error, it has, with calls that succeeded, configured the device of every peer
  -- with the peer's private key and its server, set up its interface, given it the peer's address and all
  -- its routes, and deleted every managed interface that no peer has.
  pub wgc_sync-IsRequired :
      (links : List Link) (peers : List WgPeer) (s : State) (n : Need)
      → IsRange range
      → kernel.links ≡ some links
      → (wgc_sync kc parse_addr_port kernel range peers s).0 ≡ ok tt
      → IsRequired links peers n
      → IsDone kernel n (wgc_sync kc parse_addr_port kernel range peers s).1
  unfolding wgc_sync
  wgc_sync-IsRequired links peers s n rr known returned needed =
      require-Yields kernel n _ kernel.links _
        (λ ls e.
          let same : links ≡ ls = cc (known, e) in
          required-Yields ls peers n rr (subst (λ x. IsRequired x peers n) same needed))
        s tt returned

-- ===== src/PeerSync/Plan.antt =====
-- What the plan of `wgaSync` holds for each key, whatever the order of the maps.
use wga.Base.{
  Option, none, some, List, [], ◌∷◌, ◌++◌, ◌≡◌, refl, arith, if◌then◌else◌, Bytes, bytes_eq,
  bytes_eq_iff, Assoc, lookup, IsMap, keep_if, lookup-delete, Option-cases, lookup-Lacks, inl, sym,
  inr, IsMap-delete, ◌∙◌,
}
use mathlib.Core.List.{append-nil}
use wga.WgTypes.{KeyCodec, PeerConfig, Peer}
use wga.PeerSync.Keyed.{
  IsKeyed, IsKeyed-tail, IsKeyed-head, IsKeyed-delete, config_key, peer_key, should_peers-IsKeyed,
  have_peers-IsKeyed,
}
use wga.PeerSync.{
  changed, update_of, removal_of, diff_peer, values, diff_from, should_peers, plan, Ranges,
  have_peers, WireguardAccessPeer,
}

-- A `range` visits each entry of a map exactly once.
pub record IsRange {V : Type 0} (range : Assoc V → Assoc V) : Type 0 where
  pub distinct : (m : Assoc V) → IsMap m → IsMap (range m)
  pub same : (m : Assoc V) → IsMap m → (k : Bytes) → lookup k (range m) ≡ lookup k m

module _ (kc : KeyCodec) where
  open kc use {key_string}

  -- The plan's entries for the peer whose key has the text `k`.
  abbrev pub entries_for : Bytes → List PeerConfig → List PeerConfig
  entries_for k = keep_if (λ c. bytes_eq (key_string c.public_key) k)

-- What the plan should hold for a key that is wanted, present, both or neither.
abbrev pub wanted_entries : Option PeerConfig → Option Peer → List PeerConfig
wanted_entries none none = []
wanted_entries none (some old) = removal_of old ∷ []
wanted_entries (some nu) none = nu ∷ []
wanted_entries (some nu) (some old) = if changed nu old then update_of nu ∷ [] else []

module _ (kc : KeyCodec) where
  keep-append :
      (k : Bytes) (xs ys : List PeerConfig)
      → entries_for kc k (xs ++ ys) ≡ entries_for kc k xs ++ entries_for kc k ys
  keep-append k [] ys = refl
  keep-append k (x ∷ xs) ys = ground (arith, keep-append k xs ys)

  abbrev to_list : Option PeerConfig → List PeerConfig
  to_list none = []
  to_list (some c) = c ∷ []

  -- Adding what is left adds one entry for each key that is left.
  values-entries :
      (k : Bytes) (m : Assoc PeerConfig)
      → IsMap m
      → IsKeyed kc config_key m
      → entries_for kc k (values m) ≡ to_list (lookup k m)
  unfolding values lookup
  values-entries k [] h q = refl
  values-entries k ((j, v) ∷ m) (l, h) q = ground (
    arith,
    values-entries k m h (IsKeyed-tail kc config_key j v m l q),
    IsKeyed-head kc config_key j v m q,
    bytes_eq_iff j k,
    lookup-Lacks k m,
  )

  -- What the loop over the present peers adds for a key.
  abbrev loop_entries : Option PeerConfig → Option Peer → List PeerConfig
  loop_entries s none = []
  loop_entries none (some old) = removal_of old ∷ []
  loop_entries (some nu) (some old) = if changed nu old then update_of nu ∷ [] else []

  module _ (k j : Bytes) (old : Peer) (should : Assoc PeerConfig) (out : List PeerConfig)
      (keyed : IsKeyed kc config_key should) where
    diff_peer-lookup :
        lookup k (diff_peer j old (lookup j should) (should, out)).0
        ≡ (if bytes_eq j k then none else lookup k should)
    unfolding diff_peer
    diff_peer-lookup = elim (Option-cases (lookup j should)) [
      | inl e ↦ rw e (ground (arith, bytes_eq_iff j k))
      | inr (nu, e) ↦ rw e (lookup-delete j k should)
    ]

    diff_peer-IsKeyed : IsKeyed kc config_key (diff_peer j old (lookup j should) (should, out)).0
    unfolding diff_peer
    diff_peer-IsKeyed = elim (Option-cases (lookup j should)) [
      | inl e ↦ rw e keyed
      | inr (nu, e) ↦ rw e (IsKeyed-delete kc config_key j should keyed)
    ]

    diff_peer-IsMap : IsMap should → IsMap (diff_peer j old (lookup j should) (should, out)).0
    unfolding diff_peer
    diff_peer-IsMap h = elim (Option-cases (lookup j should)) [
      | inl e ↦ rw e h
      | inr (nu, e) ↦ rw e (IsMap-delete j should h)
    ]

    diff_peer-entries :
        kc.key_string old.public_key ≡ j
        → entries_for kc k (diff_peer j old (lookup j should) (should, out)).1
          ≡ entries_for kc k out
            ++ (if bytes_eq j k then loop_entries (lookup k should) (some old) else [])
    unfolding diff_peer
    diff_peer-entries e = elim (Option-cases (lookup j should)) [
      | inl p ↦
          rw (p, keep-append k out)
            (ground (arith, bytes_eq_iff j k, append-nil (entries_for kc k out)))
      | inr (nu, p) ↦ rw p (
          ground (
            arith,
            bytes_eq_iff j k,
            keep-append k out (update_of nu ∷ []),
            keyed j nu p,
            append-nil (entries_for kc k out),
          ))
    ]

  module _ (k : Bytes) where
    diff_from-lookup :
        (have : Assoc Peer) (should : Assoc PeerConfig) (out : List PeerConfig)
        → IsMap have
        → IsKeyed kc config_key should
        → lookup k (diff_from have (should, out)).0
          ≡ elim (lookup k have) [ none ↦ lookup k should | some _ ↦ none ]
    unfolding diff_from lookup
    diff_from-lookup [] should out h q = refl
    diff_from-lookup ((j, old) ∷ have) should out (l, h) q =
        let d = diff_peer j old (lookup j should) (should, out) in
        let ih = diff_from-lookup have d.0 d.1 h (diff_peer-IsKeyed k j old should out q) in
        ground
          (arith, ih, diff_peer-lookup k j old should out q, bytes_eq_iff j k, lookup-Lacks k have)

    diff_from-entries :
        (have : Assoc Peer) (should : Assoc PeerConfig) (out : List PeerConfig)
        → IsMap have
        → IsKeyed kc peer_key have
        → IsKeyed kc config_key should
        → entries_for kc k (diff_from have (should, out)).1
          ≡ entries_for kc k out ++ loop_entries (lookup k should) (lookup k have)
    unfolding diff_from lookup
    diff_from-entries [] should out h p q = sym (append-nil (entries_for kc k out))
    diff_from-entries ((j, old) ∷ have) should out (l, h) p q =
        let d = diff_peer j old (lookup j should) (should, out) in
        let ih =
          diff_from-entries have d.0 d.1 h (IsKeyed-tail kc peer_key j old have l p)
            (diff_peer-IsKeyed k j old should out q) in
        ground (
          arith,
          ih,
          diff_peer-lookup k j old should out q,
          diff_peer-entries k j old should out q (IsKeyed-head kc peer_key j old have p),
          bytes_eq_iff j k,
          lookup-Lacks k have,
          append-nil (entries_for kc k out),
          append-nil (entries_for kc k d.1),
        )

    diff_from-IsMap :
        (have : Assoc Peer) (should : Assoc PeerConfig) (out : List PeerConfig)
        → IsKeyed kc config_key should
        → IsMap should
        → IsMap (diff_from have (should, out)).0
    unfolding diff_from
    diff_from-IsMap [] should out q h = h
    diff_from-IsMap ((j, old) ∷ have) should out q h =
        let d = diff_peer j old (lookup j should) (should, out) in
        diff_from-IsMap have d.0 d.1 (diff_peer-IsKeyed k j old should out q)
          (diff_peer-IsMap k j old should out q h)

    diff_from-IsKeyed :
        (have : Assoc Peer) (should : Assoc PeerConfig) (out : List PeerConfig)
        → IsKeyed kc config_key should
        → IsKeyed kc config_key (diff_from have (should, out)).0
    unfolding diff_from
    diff_from-IsKeyed [] should out q = q
    diff_from-IsKeyed ((j, old) ∷ have) should out q =
        let d = diff_peer j old (lookup j should) (should, out) in
        diff_from-IsKeyed have d.0 d.1 (diff_peer-IsKeyed k j old should out q)

  -- The plan's entries for a key, from any two maps keyed by the texts of their keys.
  pub plan-entries :
      (r : Ranges) (should : Assoc PeerConfig) (have : Assoc Peer) (k : Bytes)
      → IsRange r.have
      → IsRange r.should
      → IsMap should
      → IsMap have
      → IsKeyed kc config_key should
      → IsKeyed kc peer_key have
      → entries_for kc k (plan r should have) ≡ wanted_entries (lookup k should) (lookup k have)
  unfolding plan
  plan-entries r should have k rh rs ms mh ks kh =
      let ranged = r.have have in
      let d = diff_from ranged (should, []) in
      let rest-IsMap = diff_from-IsMap k ranged should [] ks ms in
      let rest-IsKeyed = diff_from-IsKeyed k ranged should [] ks in
      ground (
        arith,
        keep-append k d.1 (values (r.should d.0)),
        values-entries k (r.should d.0) (rs.distinct d.0 rest-IsMap)
            (λ j v e. rest-IsKeyed j v (sym (rs.same d.0 rest-IsMap j) ∙ e)),
        rs.same d.0 rest-IsMap k,
        diff_from-lookup k ranged should [] (rh.distinct have mh) ks,
        diff_from-entries k ranged should [] (rh.distinct have mh)
            (λ j v e. kh j v (sym (rh.same have mh j) ∙ e)) ks,
        rh.same have mh k,
        append-nil (loop_entries (lookup k should) (lookup k have)),
      )

  -- For each key and every order of the maps, the plan of a sync has one removal if the peer is only
  -- on the device, one addition if it is only wanted, one update if it is both and they differ, and
  -- nothing otherwise.
  pub wga_sync-plan :
      (r : Ranges) (peers : List WireguardAccessPeer) (device : List Peer) (k : Bytes)
      → IsRange r.have
      → IsRange r.should
      → entries_for kc k (plan r (should_peers kc peers) (have_peers kc device))
        ≡ wanted_entries (lookup k (should_peers kc peers)) (lookup k (have_peers kc device))
  wga_sync-plan r peers device k rh rs =
      let (ms, ks) = should_peers-IsKeyed kc peers in
      let (mh, kh) = have_peers-IsKeyed kc device in
      plan-entries r (should_peers kc peers) (have_peers kc device) k rh rs ms mh ks kh

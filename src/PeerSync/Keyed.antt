-- ===== src/PeerSync/Keyed.antt =====
-- Maps whose entries stand under the texts of their keys, as the two maps of `wgaSync` are.
use wga.Base.{
  Option, none, some, List, [], ◌∷◌, ◌≡◌, arith, Bytes, bytes_eq_iff, Assoc, lookup, insert, delete,
  IsMap, lookup-insert, bytes_eq_refl, lookup-delete, Lacks, lookup-Lacks, IsMap-insert,
}
use wga.WgTypes.{Key, KeyCodec, PeerConfig, Peer}
use wga.Api.{WireguardAccessPeer, WireguardAccessPeerStatus}
use wga.PeerSync.{
  should_peers, have_peers, should_from, should_peer, have_from, peer_config, add_peer,
}

abbrev pub config_key : PeerConfig → Key
config_key c = c.public_key

abbrev pub peer_key : Peer → Key
peer_key p = p.public_key

module _ (kc : KeyCodec) where
  open kc use {key_string}

  -- Each entry stands under the text of its key.
  abbrev pub IsKeyed : {V : Type 0} → (V → Key) → Assoc V → Type 0
  IsKeyed {V} key m = (k : Bytes) (v : V) → lookup k m ≡ some v → key_string (key v) ≡ k

module _ (kc : KeyCodec) where
  pub IsKeyed-insert :
      {V : Type 0} (key : V → Key) (v : V) (m : Assoc V)
      → IsKeyed kc key m
      → IsKeyed kc key (insert (kc.key_string (key v)) v m)
  IsKeyed-insert key v m h k w e = ground (
    arith,
    lookup-insert (kc.key_string (key v)) k v m,
    bytes_eq_iff (kc.key_string (key v)) k,
    h k w,
  )

  pub IsKeyed-delete :
      {V : Type 0} (key : V → Key) (k : Bytes) (m : Assoc V)
      → IsKeyed kc key m
      → IsKeyed kc key (delete k m)
  IsKeyed-delete key k m h j w e = ground (arith, lookup-delete k j m, h j w)

  pub IsKeyed-tail :
      {V : Type 0} (key : V → Key) (j : Bytes) (v : V) (m : Assoc V)
      → Lacks j m
      → IsKeyed kc key ((j, v) ∷ m)
      → IsKeyed kc key m
  unfolding lookup
  IsKeyed-tail key j v m l h k w e = ground (arith, bytes_eq_iff j k, lookup-Lacks k m, h k w)

  pub IsKeyed-head :
      {V : Type 0} (key : V → Key) (j : Bytes) (v : V) (m : Assoc V)
      → IsKeyed kc key ((j, v) ∷ m)
      → kc.key_string (key v) ≡ j
  unfolding lookup
  IsKeyed-head key j v m h = h j v (rw bytes_eq_refl)

  -- `shouldPeers` and `havePeers` are such maps.
  add_peer-keeps :
      (o : Option PeerConfig) (should : Assoc PeerConfig)
      → IsMap should
      → IsKeyed kc config_key should
      → IsMap (add_peer kc o should) × IsKeyed kc config_key (add_peer kc o should)
  unfolding add_peer
  add_peer-keeps none should m q = (m, q)
  add_peer-keeps (some pc) should m q = (
    IsMap-insert (kc.key_string pc.public_key) pc should m,
    IsKeyed-insert config_key pc should q,
  )

  should_peer-keeps :
      (peer : WireguardAccessPeer) (status : Option WireguardAccessPeerStatus)
      (should : Assoc PeerConfig)
      → IsMap should
      → IsKeyed kc config_key should
      → IsMap (should_peer kc peer status should)
        × IsKeyed kc config_key (should_peer kc peer status should)
  unfolding should_peer
  should_peer-keeps peer none should m q = (m, q)
  should_peer-keeps peer (some status) should m q =
      add_peer-keeps (peer_config kc peer status) should m q

  should_from-keeps :
      (should : Assoc PeerConfig) (peers : List WireguardAccessPeer)
      → IsMap should
      → IsKeyed kc config_key should
      → IsMap (should_from kc should peers) × IsKeyed kc config_key (should_from kc should peers)
  unfolding should_from
  should_from-keeps should [] m q = (m, q)
  should_from-keeps should (peer ∷ peers) m q =
      let (m', q') = should_peer-keeps peer peer.status should m q in
      should_from-keeps (should_peer kc peer peer.status should) peers m' q'

  have_from-keeps :
      (have : Assoc Peer) (peers : List Peer)
      → IsMap have
      → IsKeyed kc peer_key have
      → IsMap (have_from kc have peers) × IsKeyed kc peer_key (have_from kc have peers)
  unfolding have_from
  have_from-keeps have [] m q = (m, q)
  have_from-keeps have (v ∷ vs) m q =
      have_from-keeps (insert (kc.key_string v.public_key) v have) vs
        (IsMap-insert (kc.key_string v.public_key) v have m) (IsKeyed-insert peer_key v have q)

  pub should_peers-IsKeyed :
      (peers : List WireguardAccessPeer)
      → IsMap (should_peers kc peers) × IsKeyed kc config_key (should_peers kc peers)
  unfolding should_peers lookup
  should_peers-IsKeyed peers = should_from-keeps [] peers tt (λ j v e. cc)

  pub have_peers-IsKeyed :
      (device : List Peer)
      → IsMap (have_peers kc device) × IsKeyed kc peer_key (have_peers kc device)
  unfolding have_peers lookup
  have_peers-IsKeyed device = have_from-keeps [] device tt (λ j v e. cc)

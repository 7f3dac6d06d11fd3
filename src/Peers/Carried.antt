-- ===== src/Peers/Carried.antt =====
-- The preshared keys of the file of peers.go.
use wga.Base.{
  List, [], ◌∷◌, Bytes, ◌≡◌, Option, some, none, ok, >>=-eq-ok, ◌>>=◌, ◌∙◌, ap, sym, subst, ◌++◌,
  refl, length, suc,
}
use wga.Peers.{file_peer, file_peers, next_psk, allowed_nets}
use wga.WgTypes.{KeyCodec, UdpAddr, Key}
use wga.Net.{IpNet}
use wga.Format.{FilePeer}
use wga.Api.{WireguardAccessPeerStatusPeer}

file_peer-ok :
    (public : Option Key) (ips : Option (List IpNet)) (endpoint : Option UdpAddr) (psk : Option Key)
    (f : FilePeer)
    → file_peer public ips endpoint psk ≡ ok f
    → psk ≡ some f.preshared_key
unfolding file_peer
file_peer-ok none ips endpoint psk f e = cc
file_peer-ok (some public) none endpoint psk f e = cc
file_peer-ok (some public) (some ips) none psk f e = cc
file_peer-ok (some public) (some ips) (some endpoint) none f e = cc
file_peer-ok (some public) (some ips) (some endpoint) (some psk) f e = cc

module _ (kc : KeyCodec) (parse_addr_port : Bytes → Option UdpAddr) where
  file_peers-head :
      (psk : Key) (p : WireguardAccessPeerStatusPeer) (ps : List WireguardAccessPeerStatusPeer)
      (f : FilePeer) (fs : List FilePeer)
      → file_peers kc parse_addr_port psk (p ∷ ps) ≡ ok (f ∷ fs)
      → (next_psk kc p.pre_shared_key psk ≡ some f.preshared_key)
        × (file_peers kc parse_addr_port f.preshared_key ps ≡ ok fs)
  unfolding file_peers
  file_peers-head psk p ps f fs e =
      let (g, made, e') =
        >>=-eq-ok
          (file_peer (kc.parse_key p.public_key) (allowed_nets p.allowed_ips)
            (parse_addr_port p.endpoint) (next_psk kc p.pre_shared_key psk))
          (λ g. file_peers kc parse_addr_port g.preshared_key ps >>= λ rest. ok (g ∷ rest)) e in
      let (rest, later, e'') =
        >>=-eq-ok (file_peers kc parse_addr_port g.preshared_key ps) (λ rest. ok (g ∷ rest)) e' in
      let same : g ≡ f = cc in
      let others : rest ≡ fs = cc in
      (
        file_peer-ok _ _ _ _ g made ∙ ap (λ x. some x.preshared_key) same,
        ap (λ x. file_peers kc parse_addr_port x.preshared_key ps) (sym same)
            ∙ later
            ∙ ap (λ x. ok x) others,
      )

  file_peers-cons :
      (psk : Key) (p : WireguardAccessPeerStatusPeer) (ps : List WireguardAccessPeerStatusPeer)
      (fs : List FilePeer)
      → file_peers kc parse_addr_port psk (p ∷ ps) ≡ ok fs
      → (f : FilePeer) × (rest : List FilePeer) × (fs ≡ f ∷ rest)
  unfolding file_peers
  file_peers-cons psk p ps fs e =
      let (g, made, e') =
        >>=-eq-ok
          (file_peer (kc.parse_key p.public_key) (allowed_nets p.allowed_ips)
            (parse_addr_port p.endpoint) (next_psk kc p.pre_shared_key psk))
          (λ g. file_peers kc parse_addr_port g.preshared_key ps >>= λ rest. ok (g ∷ rest)) e in
      let (rest, later, e'') =
        >>=-eq-ok (file_peers kc parse_addr_port g.preshared_key ps) (λ rest. ok (g ∷ rest)) e' in
      (g, rest, cc)

  second :
      (psk : Key) (p q : WireguardAccessPeerStatusPeer) (ps : List WireguardAccessPeerStatusPeer)
      (f g : FilePeer) (fs : List FilePeer)
      → q.pre_shared_key ≡ []
      → file_peers kc parse_addr_port psk (p ∷ q ∷ ps) ≡ ok (f ∷ g ∷ fs)
      → g.preshared_key ≡ f.preshared_key
  unfolding next_psk
  second psk p q ps f g fs missing e =
      let (first, later) = file_peers-head psk p (q ∷ ps) f (g ∷ fs) e in
      let (next, end) = file_peers-head f.preshared_key q ps g fs later in
      let kept : next_psk kc [] f.preshared_key ≡ some g.preshared_key =
        subst (λ x. next_psk kc x f.preshared_key ≡ some g.preshared_key) missing next in
      cc

  -- Wherever in the status a peer without a preshared key stands after another peer, the file has the two
  -- at the same places, and the one is printed with the preshared key of the other.
  pub file_peers-preshared_key :
      (psk : Key) (before : List WireguardAccessPeerStatusPeer)
      (p q : WireguardAccessPeerStatusPeer) (ps : List WireguardAccessPeerStatusPeer)
      (fs : List FilePeer)
      → q.pre_shared_key ≡ []
      → file_peers kc parse_addr_port psk (before ++ (p ∷ q ∷ ps)) ≡ ok fs
      → (first : List FilePeer) × (f : FilePeer) × (g : FilePeer) × (rest : List FilePeer) × (fs
          ≡ first ++ (f ∷ g ∷ rest))
        × (length first ≡ length before)
        × (g.preshared_key ≡ f.preshared_key)
  file_peers-preshared_key psk [] p q ps fs missing e =
      let (f, others, one) = file_peers-cons psk p (q ∷ ps) fs e in
      let (_, later) = file_peers-head psk p (q ∷ ps) f others (e ∙ ap (λ x. ok x) one) in
      let (g, rest, two) = file_peers-cons f.preshared_key q ps others later in
      let both : fs ≡ f ∷ g ∷ rest = one ∙ ap (λ x. f ∷ x) two in
      ([], f, g, rest, both, refl, second psk p q ps f g rest missing (e ∙ ap (λ x. ok x) both))
  file_peers-preshared_key psk (b ∷ before) p q ps fs missing e =
      let (h, others, one) = file_peers-cons psk b (before ++ (p ∷ q ∷ ps)) fs e in
      let (_, later) =
        file_peers-head psk b (before ++ (p ∷ q ∷ ps)) h others (e ∙ ap (λ x. ok x) one) in
      let (first, f, g, rest, all, long, same) =
        file_peers-preshared_key h.preshared_key before p q ps others missing later in
      (h ∷ first, f, g, rest, one ∙ ap (λ x. h ∷ x) all, ap suc long, same)

-- ===== src/Format/Printable.antt =====
-- Which lines of the file of format.go have no newline inside.
use wga.Base.{
  Bool, true, false, List, [], ◌∷◌, ◌++◌, ◌==◌, if◌then◌else◌, is_empty, Bytes, bytes, ◌≡◌, refl,
  All, map, All-append, all, not,
}
use wga.Net.{
  IsLine, net_string, decimal_string, IsLine-++, fixed_IsLine, join-IsLine, IpNet,
  net_string-IsLine, ip_string, decimal_string-IsLine, ip_string-IsLine, is_v4,
}
use wga.Format.Lines.{all_peer_lines, psk_lines, allowed_lines, keepalive_lines, peer_lines}
use wga.WgTypes.{KeyCodec, Key, UdpAddr}
use wga.Format.{seconds, FilePeer, join_ip_nets, name_block, valid_key, endpoint_string}

-- A setting's line has no newline when its value has none.
pub setting-IsLine :
    (key value : Bytes) → all (λ c. not (c == 10)) key ≡ true → IsLine value → IsLine (key ++ value)
setting-IsLine key value h k = IsLine-++ key value (fixed_IsLine key h) k

if-IsLines : (b : Bool) (l : Bytes) → IsLine l → All IsLine (if b then l ∷ [] else [])
if-IsLines true l h = (h, tt)
if-IsLines false l h = tt

unless-IsLines : (b : Bool) (l : Bytes) → IsLine l → All IsLine (if b then [] else l ∷ [])
unless-IsLines true l h = tt
unless-IsLines false l h = (h, tt)

if-IsLine : (b : Bool) (s t : Bytes) → IsLine s → IsLine t → IsLine (if b then s else t)
if-IsLine true s t h k = h
if-IsLine false s t h k = k

endpoint_string-IsLine : (a : UdpAddr) → IsLine (endpoint_string a)
unfolding endpoint_string
endpoint_string-IsLine a =
    let ip = ip_string a.ip in
    let shown = ip_string-IsLine a.ip in
    IsLine-++ (if is_v4 a.ip then ip else bytes "[" ++ (ip ++ bytes "]"))
      (bytes ":" ++ decimal_string a.port)
      (if-IsLine (is_v4 a.ip) ip (bytes "[" ++ (ip ++ bytes "]")) shown (
        setting-IsLine (bytes "[") (ip ++ bytes "]") refl
          (IsLine-++ ip (bytes "]") shown (fixed_IsLine (bytes "]") refl))))
      (setting-IsLine (bytes ":") (decimal_string a.port) refl (decimal_string-IsLine a.port))

pub name_block-IsLine : (name : Bytes) → IsLine name → IsLine (name_block name)
unfolding name_block
name_block-IsLine [] h = tt
name_block-IsLine (c ∷ s) h = setting-IsLine (bytes "# ") (c ∷ s) refl h

join_ip_nets-IsLine : (ips : List IpNet) → IsLine (join_ip_nets ips (bytes ", "))
unfolding join_ip_nets
join_ip_nets-IsLine ips = join-IsLine (bytes ", ") _ (fixed_IsLine (bytes ", ") refl) (nets ips)
  where
    nets : (ns : List IpNet) → All IsLine (map net_string ns)
    nets [] = tt
    nets (n ∷ ns) = (net_string-IsLine n, nets ns)

module _ (kc : KeyCodec) (printable : (k : Key) → IsLine (kc.key_string k)) where
  peer_lines-IsLine : (p : FilePeer) → All IsLine (peer_lines kc p)
  peer_lines-IsLine p =
      let psk = psk_lines kc p.preshared_key in
      let allowed = allowed_lines p.allowed_ips in
      let keepalive = keepalive_lines p.persistent_keepalive_interval in
      (
        tt,
        ((
          (fixed_IsLine (bytes "[Peer]") refl),
          ((
            (setting-IsLine (bytes "Endpoint = ") _ refl (endpoint_string-IsLine p.endpoint)),
            ((
              (setting-IsLine (bytes "PublicKey = ") _ refl (printable p.public_key)),
              (All-append IsLine psk (allowed ++ keepalive)
                  (if-IsLines (valid_key p.preshared_key) _
                    (setting-IsLine (bytes "PresharedKey = ") _ refl (printable p.preshared_key)))
                  (All-append IsLine allowed keepalive
                    (unless-IsLines (is_empty p.allowed_ips) _ (
                      setting-IsLine (bytes "AllowedIPs = ") _ refl
                        (join_ip_nets-IsLine p.allowed_ips)))
                    (unless-IsLines (p.persistent_keepalive_interval == 0) _ (
                      setting-IsLine (bytes "PersistentKeepalive = ") _ refl
                        (decimal_string-IsLine (seconds p.persistent_keepalive_interval)))))),
            )),
          )),
        )),
      )

  pub all_peer_lines-IsLine : (ps : List FilePeer) → All IsLine (all_peer_lines kc ps)
  all_peer_lines-IsLine [] = tt
  all_peer_lines-IsLine (p ∷ ps) =
      All-append IsLine (peer_lines kc p) (all_peer_lines kc ps) (peer_lines-IsLine p)
        (all_peer_lines-IsLine ps)

-- ===== src/Format.antt =====
-- format.go: the file for `wg-quick` that the command line prints.
pub mod Lines
pub mod Reader
mod Printable
pub mod RoundTrip
mod Samples
use wga.Base.{
  ℕ, ◌/◌, Bool, not, List, [], ◌∷◌, ◌++◌, map, ◌==◌, if◌then◌else◌, is_empty, Bytes, bytes,
  bytes_eq, join,
}
use wga.Net.{ip_string, is_v4, net_string, decimal_string, IpNet}
use wga.WgTypes.{Key, KeyCodec, UdpAddr, zero_key}

-- `wgtypes.Peer`, of which the file has these fields; the program always sets the endpoint.
pub record FilePeer : Type 0 where
  pub endpoint : UdpAddr
  pub public_key : Key
  pub preshared_key : Key
  pub allowed_ips : List IpNet
  pub persistent_keepalive_interval : ℕ  -- nanoseconds

-- `ConfigFile`, whose own `Name` hides that of the device
pub record ConfigFile : Type 0 where
  pub name : Bytes
  pub private_key : Key
  pub address : Bytes
  pub dns : List Bytes
  pub peers : List FilePeer

-- `UDPAddr.String`: an address with colons stands in brackets.
unfoldable pub endpoint_string : UdpAddr → Bytes
unfolding ip_string is_v4 decimal_string
endpoint_string a =
    (if is_v4 a.ip then ip_string a.ip else bytes "[" ++ (ip_string a.ip ++ bytes "]"))
    ++ (bytes ":" ++ decimal_string a.port)

-- `joinIPNets`
unfoldable pub join_ip_nets : List IpNet → Bytes → Bytes
unfolding join net_string
join_ip_nets ips sep = join sep (map net_string ips)

-- `validKey`
unfoldable pub valid_key : Key → Bool
unfolding bytes_eq
valid_key k = not (bytes_eq k zero_key)

-- `seconds`
unfoldable pub seconds : ℕ → ℕ
seconds d = d / 1_000_000_000

-- The blocks of the template `WgFile` under an `if`
unfoldable pub name_block : Bytes → Bytes
name_block name = if is_empty name then [] else bytes "# " ++ name

unfoldable pub psk_block : KeyCodec → Key → Bytes
unfolding valid_key
psk_block kc k = if valid_key k then bytes "\nPresharedKey = " ++ kc.key_string k else []

unfoldable pub allowed_block : List IpNet → Bytes
unfolding join_ip_nets
allowed_block ips =
    if is_empty ips then [] else bytes "\nAllowedIPs = " ++ join_ip_nets ips (bytes ", ")

unfoldable pub keepalive_block : ℕ → Bytes
unfolding seconds decimal_string
keepalive_block d =
    if d == 0 then [] else bytes "\nPersistentKeepalive = " ++ decimal_string (seconds d)

-- The body of `range .Peers`
unfoldable pub peer_block : KeyCodec → FilePeer → Bytes
unfolding endpoint_string psk_block allowed_block keepalive_block
peer_block kc p =
    bytes "\n\n[Peer]\nEndpoint = "
    ++ (endpoint_string p.endpoint
        ++ (bytes "\nPublicKey = "
            ++ (kc.key_string p.public_key
                ++ (psk_block kc p.preshared_key
                    ++ (allowed_block p.allowed_ips
                        ++ keepalive_block p.persistent_keepalive_interval)))))

unfoldable pub peer_blocks : KeyCodec → List FilePeer → Bytes
unfolding peer_block
peer_blocks kc [] = []
peer_blocks kc (p ∷ ps) = peer_block kc p ++ peer_blocks kc ps

-- `Format`
unfoldable pub format : KeyCodec → ConfigFile → Bytes
unfolding name_block peer_blocks join
format kc c =
    name_block c.name
    ++ (bytes "\n[Interface]\nPrivateKey = "
        ++ (kc.key_string c.private_key
            ++ (bytes "\nAddress = "
                ++ (c.address
                    ++ (bytes "\nDNS = "
                        ++ (join (bytes ", ") c.dns ++ (peer_blocks kc c.peers ++ bytes "\n")))))))

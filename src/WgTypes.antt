-- ===== src/WgTypes.antt =====
-- The types of golang.zx2c4.com/wireguard/wgctrl/wgtypes that the program fills in, and that package's
-- functions on keys, which are a parameter of the model.
use wga.Base.{ℕ, Bool, Option, List, Bytes, replicate}
use wga.Net.{Ip, IpNet}

-- `type Key [32]byte`, compared by its bytes
abbrev pub Key : Type 0
Key = Bytes

-- `wgtypes.Key{}`
abbrev pub zero_key : Key
zero_key = replicate 32 0

-- `ParseKey` (none is an error), `Key.String`, `Key.PublicKey`
pub record KeyCodec : Type 0 where
  pub parse_key : Bytes → Option Key
  pub key_string : Key → Bytes
  pub public_key : Key → Key

-- `net.UDPAddr`
pub record UdpAddr : Type 0 where
  pub ip : Ip
  pub port : ℕ

pub record PeerConfig : Type 0 where
  pub public_key : Key
  pub remove : Bool
  pub update_only : Bool
  pub preshared_key : Option Key
  pub endpoint : Option UdpAddr
  pub persistent_keepalive_interval : Option ℕ  -- nanoseconds
  pub replace_allowed_ips : Bool
  pub allowed_ips : List IpNet

-- `wgtypes.Peer`: what the device reports
pub record Peer : Type 0 where
  pub public_key : Key
  pub preshared_key : Key
  pub endpoint : Option UdpAddr
  pub persistent_keepalive_interval : ℕ
  pub allowed_ips : List IpNet

-- `wgtypes.Config`
pub record DeviceConfig : Type 0 where
  pub private_key : Option Key
  pub listen_port : Option ℕ
  pub replace_peers : Bool
  pub peers : List PeerConfig

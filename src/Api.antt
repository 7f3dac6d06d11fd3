-- ===== src/Api.antt =====
-- pkgs/apis/v1beta/types.go: the custom resources. Of the object metadata the program reads the name,
-- and a nil pointer is `none`. A time is the nanoseconds since 1970.
use wga.Base.{ℕ, Option, List, Bytes}

pub record WireguardAccessRuleSpec : Type 0 where
  pub destinations : List Bytes

pub record WireguardAccessRule : Type 0 where
  pub name : Bytes
  pub spec : WireguardAccessRuleSpec

pub record WireguardAccessPeerSpec : Type 0 where
  pub pre_shared_key : Bytes
  pub public_key : Bytes
  pub access_rules : List Bytes

pub record WireguardAccessPeerStatusPeer : Type 0 where
  pub public_key : Bytes
  pub endpoint : Bytes
  pub pre_shared_key : Bytes
  pub allowed_ips : List Bytes

pub record WireguardAccessPeerStatus : Type 0 where
  pub last_updated : ℕ
  pub address : Bytes
  pub addresses : List Bytes
  pub dns : List Bytes
  pub peers : List WireguardAccessPeerStatusPeer

pub record WireguardAccessPeer : Type 0 where
  pub name : Bytes
  pub spec : WireguardAccessPeerSpec
  pub status : Option WireguardAccessPeerStatus

-- `corev1.SecretReference`
pub record SecretReference : Type 0 where
  pub name : Bytes
  pub namespace : Bytes

pub record WireguardClusterClientNodePrivateKey : Type 0 where
  pub value : Option Bytes
  pub secret_ref : Option SecretReference

pub record WireguardClusterClientNode : Type 0 where
  pub node_name : Bytes
  pub pre_shared_key : Bytes
  pub private_key : WireguardClusterClientNodePrivateKey
  pub address : Bytes

pub record WireguardClusterClientSpecServer : Type 0 where
  pub endpoint : Bytes
  pub public_key : Bytes

pub record WireguardClusterClientSpec : Type 0 where
  pub nodes : List WireguardClusterClientNode
  pub server : WireguardClusterClientSpecServer
  pub routes : List Bytes
  pub persistent_keepalive : ℕ

pub record WireguardClusterClientStatusNode : Type 0 where
  pub public_key : Bytes
  pub node_name : Bytes

pub record WireguardClusterClientStatus : Type 0 where
  pub nodes : List WireguardClusterClientStatusNode

pub record WireguardClusterClient : Type 0 where
  pub name : Bytes
  pub spec : WireguardClusterClientSpec
  pub status : Option WireguardClusterClientStatus

-- `Config` of operator/wga.go: what `Fetch` read.
pub record FetchedConfig : Type 0 where
  pub rules : List WireguardAccessRule
  pub peers : List WireguardAccessPeer

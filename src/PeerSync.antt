-- ===== src/PeerSync.antt =====
-- `wgaSync` of operator/wga.go: brings the peers of the device `wga` to those of the cluster. The key
-- functions, `ConfigureDevice` and the orders in which Go's maps are ranged over are parameters.
mod Keyed
pub mod Plan
pub mod Converge
pub mod Quiet
mod Samples
use wga.Base.{
  ℕ, ◌*◌, Bool, true, false, not, ◌||◌, Option, none, some, List, [], ◌∷◌, ◌++◌, map, ◌==◌,
  if◌then◌else◌, length, is_empty, Bytes, bytes, bytes_eq, Assoc, lookup, insert, delete, Outcome,
  ok, err,
}
use wga.Net.{Ip, IpNet, parse_ip, is_v4, cidr_mask, ip_equal}
use wga.Api.{WireguardAccessPeer, WireguardAccessPeerStatus}
use wga.WgTypes.{Key, zero_key, KeyCodec, PeerConfig, Peer}

-- `len(peer.Status.Addresses) == 0`: the deprecated single address stands in.
unfoldable pub status_addresses : WireguardAccessPeerStatus → List Bytes
status_addresses status =
    if is_empty status.addresses then status.address ∷ [] else status.addresses

-- The host network of an address.
unfoldable pub host_net : Ip → IpNet
host_net ip = record { ip = ip; mask = if is_v4 ip then cidr_mask 32 32 else cidr_mask 128 128 }

-- The loop over the addresses; one that does not parse is logged and left out.
unfoldable pub allowed_ips : List Bytes → List IpNet
unfolding host_net
allowed_ips [] = []
allowed_ips (addr ∷ addrs) =
    let rest = allowed_ips addrs in
    let ip = parse_ip addr in if is_empty ip then rest else host_net ip ∷ rest

-- 60 * time.Second
abbrev pub keepalive : ℕ
keepalive = 60 * 1_000_000_000

infixl 5 ◌>>=◌
abbrev ◌>>=◌ : {A B : Type 0} → Option A → (A → Option B) → Option B
none >>= f = none
some a >>= f = f a

module _ (kc : KeyCodec) where
  open kc use {parse_key, key_string}

  -- An absent preshared key is the zero key.
  parse_psk : Bytes → Option Key
  parse_psk s = if is_empty s then some zero_key else parse_key s

  -- The body of the loop over `config.Peers`, from `allowedIPs` on; `none` is a `continue`.
  unfoldable pub peer_config : WireguardAccessPeer → WireguardAccessPeerStatus → Option PeerConfig
  unfolding parse_psk status_addresses allowed_ips
  peer_config peer status = do
    psk ← parse_psk peer.spec.pre_shared_key
    public ← parse_key peer.spec.public_key
    some (record {
      public_key = public;
      remove = false;
      update_only = false;
      preshared_key = some psk;
      endpoint = none;
      persistent_keepalive_interval = some keepalive;
      replace_allowed_ips = true;
      allowed_ips = allowed_ips (status_addresses status);
    })

  add_peer : Option PeerConfig → Assoc PeerConfig → Assoc PeerConfig
  add_peer none should = should
  add_peer (some pc) should = insert (key_string pc.public_key) pc should

  -- One round: `shouldPeers[pub.String()] = pc`, unless the peer is skipped.
  should_peer :
      WireguardAccessPeer → Option WireguardAccessPeerStatus → Assoc PeerConfig → Assoc PeerConfig
  unfolding add_peer
  should_peer peer none should = should
  should_peer peer (some status) should = add_peer (peer_config peer status) should

  should_from : Assoc PeerConfig → List WireguardAccessPeer → Assoc PeerConfig
  should_from should [] = should
  should_from should (peer ∷ peers) = should_from (should_peer peer peer.status should) peers

  unfoldable pub should_peers : List WireguardAccessPeer → Assoc PeerConfig
  unfolding should_from should_peer
  should_peers = should_from []

  have_from : Assoc Peer → List Peer → Assoc Peer
  have_from have [] = have
  have_from have (v ∷ vs) = have_from (insert (key_string v.public_key) v have) vs

  -- `havePeers`
  unfoldable pub have_peers : List Peer → Assoc Peer
  unfolding have_from
  have_peers = have_from []

-- The index loop over allowed IPs of the same number
nets_changed : List IpNet → List IpNet → Bool
nets_changed (n ∷ ns) (o ∷ os) =
    not (ip_equal n.ip o.ip) || not (bytes_eq n.mask o.mask) || nets_changed ns os
nets_changed _ _ = false

psk_changed : Option Key → Key → Bool
psk_changed none old = false
psk_changed (some nu) old = not (bytes_eq nu old)

-- The comparison of a wanted peer with the device's
unfoldable pub changed : PeerConfig → Peer → Bool
unfolding nets_changed psk_changed
changed nu old =
    psk_changed nu.preshared_key old.preshared_key
    || (if length nu.allowed_ips == length old.allowed_ips
        then nets_changed nu.allowed_ips old.allowed_ips
        else true)

-- `nu.UpdateOnly = true; nu.ReplaceAllowedIPs = true`
abbrev pub update_of : PeerConfig → PeerConfig
update_of nu = record nu { update_only = true; replace_allowed_ips = true }

-- `wgtypes.PeerConfig{Remove: true, PublicKey: old.PublicKey}`
abbrev pub removal_of : Peer → PeerConfig
removal_of old = record {
  public_key = old.public_key;
  remove = true;
  update_only = false;
  preshared_key = none;
  endpoint = none;
  persistent_keepalive_interval = none;
  replace_allowed_ips = false;
  allowed_ips = [];
}

-- `shouldPeers` and `nuconfig.Peers`
abbrev Diff : Type 0
Diff = Assoc PeerConfig × List PeerConfig

-- The body of the loop over `havePeers`
diff_peer : Bytes → Peer → Option PeerConfig → Diff → Diff
diff_peer k old none (should, out) = (should, out ++ removal_of old ∷ [])
diff_peer k old (some nu) (should, out) =
    (delete k should, if changed nu old then out ++ update_of nu ∷ [] else out)

diff_from : Assoc Peer → Diff → Diff
unfolding diff_peer
diff_from [] d = d
diff_from ((k, old) ∷ have) d = diff_from have (diff_peer k old (lookup k d.0) d)

values : {V : Type 0} → Assoc V → List V
values m = map (λ e. e.1) m

-- Which calls fail.
pub record Faults : Type 0 where
  pub new : Bool
  pub device : Bool

-- The two orders in which `range` visits a map.
pub record Ranges : Type 0 where
  pub have : Assoc Peer → Assoc Peer
  pub should : Assoc PeerConfig → Assoc PeerConfig

-- `nuconfig.Peers`, from the two maps
unfoldable pub plan : Ranges → Assoc PeerConfig → Assoc Peer → List PeerConfig
unfolding diff_from values
plan r should have =
    let (rest, out) = diff_from (r.have have) (should, []) in out ++ values (r.should rest)

-- `ConfigureDevice` with `ReplacePeers` false: whether it succeeds, and the peers that it leaves.
abbrev pub Configure : Type 0
Configure = List PeerConfig → List Peer → Bool × List Peer

configure_result : Bool × List Peer → Outcome (Unit {0}) × List Peer
configure_result (true, device) = (ok tt, device)
configure_result (false, device) = (err (bytes "wg.ConfigureDevice"), device)

module _ (kc : KeyCodec) (r : Ranges) (configure : Configure) where
  -- The outcome, and the device's peers afterwards.
  unfoldable pub wga_sync :
      Faults → List WireguardAccessPeer → List Peer → Outcome (Unit {0}) × List Peer
  unfolding configure_result
  wga_sync f peers device =
      if f.new
      then (err (bytes "wgctrl.New"), device)
      else if f.device
      then (err (bytes "wg.Device"), device)
      else configure_result
          (configure (plan r (should_peers kc peers) (have_peers kc device)) device)

-- ===== src/PeerReconcile.antt =====
-- `PeerReconciler.Reconcile` of operator/wga.go: gives a peer its address and its server.
-- `cidr.HostBig`, the random source, the clock and the answers of the API server are parameters.
pub mod Stable
pub mod Life
pub mod Assigns
pub mod Legacy
pub mod Samples
use wga.Base.{
  true, false, none, some, List, [], ◌∷◌, ◌++◌, not, ok, err, panic, Bytes, ℕ, Outcome, Option,
  if◌then◌else◌, bytes, Bool, any, is_empty, get_elem?, ◌==◌, length, ◌||◌,
}
use wga.Api.{WireguardAccessPeerStatus, WireguardAccessPeer}
use wga.Index.{mask_bits, generate_index}
use wga.Net.{is_v4, IpNet, net_string, decimal_string, Ip, ip_string}
use wga.Base.{◌>>=◌}

pub record PeerReconciler : Type 0 where
  pub server_addr : Bytes
  pub clients_nets : List IpNet
  pub services_nets : List IpNet
  pub dns_servers : List Bytes

-- What the outside gives to one call.
pub record Surroundings : Type 0 where
  pub host_big : IpNet → ℕ → Option Ip  -- cidr.HostBig; none is an error
  pub int_n : ℕ → ℕ  -- rand.IntN
  pub int64_n : ℕ → ℕ  -- rand.Int64N
  pub now : ℕ  -- time.Now, in nanoseconds
  pub migrates : Bool  -- whether the first Update succeeds
  pub updates : Bool  -- whether the last Update succeeds
  pub public_key : Bytes  -- WGConfig.PrivateKey.PublicKey().String()
  pub listen_port : ℕ  -- *WGConfig.ListenPort
  pub sync_outcome : Outcome (Unit {0})  -- WGASync, which returns nil or panics

-- How the call ends, the peer as the API server has it then, and whether `WGASync` was called.
pub record Reconciled : Type 0 where
  pub outcome : Outcome (Unit {0})
  pub stored : WireguardAccessPeer
  pub synced : Bool

-- `net.JoinHostPort`
unfoldable pub join_host_port : Bytes → Bytes → Bytes
join_host_port host port =
    if any (λ c. c == b':' || c == b'%') host
    then b'[' ∷ (host ++ (bytes "]:" ++ port))
    else host ++ b':' ∷ port

-- `netsAsStrings`
unfoldable pub nets_as_strings : List IpNet → List Bytes
unfolding net_string
nets_as_strings [] = []
nets_as_strings (n ∷ nets) = net_string n ∷ nets_as_strings nets

-- The second half of the split by families; nothing reads the first.
unfoldable pub v6_nets : List IpNet → List IpNet
unfolding is_v4
v6_nets [] = []
v6_nets (n ∷ nets) = let rest = v6_nets nets in if is_v4 n.ip then rest else n ∷ rest

-- `randPick`: an index out of range panics, as `rand.IntN(0)` does.
unfoldable pub rand_pick : (ℕ → ℕ) → List IpNet → Option IpNet
rand_pick int_n nets = get_elem? nets (int_n (length nets))

module _ (r : PeerReconciler) (s : Surroundings) where
  unfoldable pub host_of : IpNet → ℕ → Outcome (List Bytes)
  host_of cnet index = elim (s.host_big cnet index) [
    | none ↦ err (bytes "HostBig")
    | some sip ↦ ok (ip_string sip ∷ [])
  ]

  unfoldable pub address_in : Option IpNet → Outcome (List Bytes)
  unfolding host_of mask_bits
  address_in none = panic (bytes "IntN")
  address_in (some cnet) = generate_index s.int64_n s.now (mask_bits cnet) >>= host_of cnet

  -- `addrs`: one address if there is an IPv6 network.
  unfoldable pub new_addresses : List IpNet → Outcome (List Bytes)
  unfolding address_in rand_pick
  new_addresses [] = ok []
  new_addresses (n ∷ nets) = address_in (rand_pick s.int_n (n ∷ nets))

  -- The status that is written; `addrs[0]` panics on an empty slice.
  unfoldable pub new_status : List Bytes → Outcome WireguardAccessPeerStatus
  unfolding join_host_port nets_as_strings decimal_string
  new_status [] = panic (bytes "index out of range")
  new_status (addr ∷ addrs) = ok (record {
    last_updated = s.now;
    address = addr;
    addresses = addr ∷ addrs;
    dns = r.dns_servers;
    peers =
        record {
          public_key = s.public_key;
          endpoint = join_host_port r.server_addr (decimal_string s.listen_port);
          pre_shared_key = [];
          allowed_ips = nets_as_strings r.services_nets;
        }
        ∷ [];
  })

  -- The last Update, whose success is the first argument, and then `WGASync`.
  unfoldable pub write_status :
      Bool
      → WireguardAccessPeer
      → WireguardAccessPeer
      → Outcome WireguardAccessPeerStatus
      → Reconciled
  write_status updates before peer (err e) = record {
    outcome = err e;
    stored = before;
    synced = false;
  }
  write_status updates before peer (panic e) = record {
    outcome = panic e;
    stored = before;
    synced = false;
  }
  write_status true before peer (ok status) = record {
    outcome = s.sync_outcome;
    stored = record peer { status = some status };
    synced = true;
  }
  write_status false before peer (ok status) = record {
    outcome = err (bytes "Update");
    stored = before;
    synced = false;
  }

  -- From the choice of the networks on; `before` is what the API server has.
  unfoldable pub assign : WireguardAccessPeer → Reconciled
  unfolding write_status
  assign peer =
      write_status s.updates peer peer (new_addresses (v6_nets r.clients_nets) >>= new_status)

  -- `Address` is set and `Addresses` is not: the field is migrated, and, when that Update
  -- succeeds, the call goes on.
  unfoldable pub migrate : Bool → WireguardAccessPeer → WireguardAccessPeerStatus → Reconciled
  migrate true peer status =
      assign (record peer { status = some (record status { addresses = status.address ∷ [] }) })
  migrate false peer status = record {
    outcome = err (bytes "Update");
    stored = peer;
    synced = false;
  }

  unfoldable pub by_status : WireguardAccessPeer → Option WireguardAccessPeerStatus → Reconciled
  by_status peer none = assign peer
  by_status peer (some status) =
      if not (is_empty status.addresses)
      then record { outcome = ok tt; stored = peer; synced = false }
      else if not (is_empty status.address)
      then migrate s.migrates peer status
      else assign peer

  -- `Reconcile`
  unfoldable pub reconcile : WireguardAccessPeer → Reconciled
  unfolding by_status
  reconcile peer = by_status peer peer.status

-- ===== src/Wgc.antt =====
-- `wgcSync` of operator/wgc.go: one WireGuard interface for each cluster client of this node. The
-- answers of netlink and wgctrl, which may depend on all calls before, are parameters.
mod Keeps
pub mod Allowed
pub mod Required
pub mod Complete
pub mod Shared
mod Samples
use wga.Base.{
  Bool, true, false, not, ◌&&◌, Option, none, some, List, [], ◌∷◌, ◌++◌, ◌==◌, if◌then◌else◌,
  is_empty, any, Bytes, bytes, bytes_eq, has_prefix, Assoc, lookup, insert, delete, ok, err, ℕ, ◌*◌,
  ◌%◌, ◌^◌, is_some,
}
use wga.Net.{IpNet, parse_ip, parse_cidr, full_mask, net_string}
use wga.WgTypes.{Key, KeyCodec, UdpAddr, PeerConfig, DeviceConfig}
use wga.Run.{require, Act, pure, ◌>>=◌, ◌>>◌}

-- `wgPeer`
pub record WgPeer : Type 0 where
  pub peer_name : Bytes
  pub peer_private_key : Key
  pub peer_address : Bytes
  pub persistent_keepalive : ℕ
  pub server_public_key : Key
  pub routes : List IpNet
  pub pre_shared_key : Bytes
  pub server_endpoint : Bytes

-- `netlink.Link`: its name and type
pub record Link : Type 0 where
  pub name : Bytes
  pub kind : Bytes

-- The calls of netlink and wgctrl that may fail; an interface is named.
pub data Call : Type 0 where
  link_add link_by_name new_client link_set_up link_del : Bytes → Call
  configure_device : Bytes → DeviceConfig → Call
  addr_replace addr_del : Bytes → IpNet → Call
  route_replace : Bytes → IpNet → Call
  route_del : Bytes → Option IpNet → Call

-- `WGConfig`, and the calls so far
pub record State : Type 0 where
  pub config : DeviceConfig
  pub calls : List Call

-- What the kernel answers, given the calls before. A route without a destination is `none`.
pub record Kernel : Type 0 where
  pub links : Option (List Link)  -- LinkList
  pub succeeds : List Call → Call → Bool
  pub addrs : List Call → Bytes → List IpNet  -- AddrList, whose error is ignored
  pub routes : List Call → Bytes → Option (List (Option IpNet))  -- RouteList

-- `"wgc-" + wgc.PeerName`
unfoldable pub interface_name : WgPeer → Bytes
interface_name p = bytes "wgc-" ++ p.peer_name

unfoldable pub is_ours : Link → Bool
unfolding bytes_eq has_prefix
is_ours l = bytes_eq l.kind (bytes "wireguard") && has_prefix l.name (bytes "wgc-")

pub existing_from : Assoc Link → List Link → Assoc Link
unfolding is_ours
existing_from m [] = m
existing_from m (l ∷ ls) = existing_from (if is_ours l then insert l.name l m else m) ls

-- `existing`
unfoldable pub existing_links : List Link → Assoc Link
unfolding existing_from
existing_links = existing_from []

-- `addr`: a bare address gets the mask of a single host, a network keeps its mask.
unfoldable pub address_net : Bytes → Option IpNet
unfolding parse_cidr
address_net text =
    let ip = parse_ip text in
    if not (is_empty ip)
    then some (record { ip = ip; mask = full_mask ip })
    else elim (parse_cidr text) [
      | none ↦ none
      | some (host, net) ↦ some (record { ip = host; mask = net.mask })
    ]

-- The text of a route's destination; a nil network prints as "<nil>".
unfoldable pub dst_string : Option IpNet → Bytes
dst_string none = bytes "<nil>"
dst_string (some net) = net_string net

unfoldable pub optional_key : KeyCodec → Bytes → Option (Option Key)
optional_key kc text =
    let parsed = kc.parse_key text in
    if is_empty text then some none else elim parsed [ none ↦ none | some k ↦ some (some k) ]

-- A Go int and a time.Duration stand here as their 64 bits, also those of a negative number.
unfoldable pub peer_of : WgPeer → UdpAddr → Option Key → PeerConfig
peer_of p endpoint psk = record {
  public_key = p.server_public_key;
  remove = false;
  update_only = false;
  preshared_key = psk;
  endpoint = some endpoint;
  persistent_keepalive_interval =
      if p.persistent_keepalive == 0
      then none
      else some (p.persistent_keepalive * 1_000_000_000 % 2 ^ 64);
  replace_allowed_ips = true;
  allowed_ips = p.routes;
}

unfoldable pub set_private_key : Key → Act State Unit
set_private_key k s = (ok tt, record s { config = record s.config { private_key = some k } })

-- `WGConfig.Peers = append(WGConfig.Peers, pc)`
unfoldable pub append_peer : PeerConfig → Act State Unit
append_peer pc s =
    (ok tt, record s { config = record s.config { peers = s.config.peers ++ (pc ∷ []) } })

unfoldable pub is_route : List IpNet → Option IpNet → Bool
unfolding dst_string
is_route routes dst = any (λ r. bytes_eq (dst_string dst) (net_string r)) routes

-- `delete(existing, ifname)`, when it is there
unfoldable pub without_link : Bytes → Assoc Link → Assoc Link
unfolding delete
without_link name existing =
    if is_some (lookup name existing) then delete name existing else existing

module _ (kernel : Kernel) where
  -- A call is recorded, whether it succeeds or not.
  unfoldable pub call : Bytes → Call → Act State Unit
  call message c s =
      let after : State = record s { calls = s.calls ++ (c ∷ []) } in
      if kernel.succeeds s.calls c then (ok tt, after) else (err message, after)

  unfoldable pub configure : Bytes → Act State Unit
  unfolding call
  configure name s = call (bytes "wgctrl.ConfigureDevice") (configure_device name s.config) s

  -- The address loop
  unfoldable pub drop_addresses : Bytes → IpNet → List IpNet → Act State Unit
  unfolding net_string
  drop_addresses name addr [] = pure tt
  drop_addresses name addr (a ∷ as') =
      (if bytes_eq (net_string addr) (net_string a)
        then pure tt
        else call (bytes "AddrDel") (addr_del name a))
      >> drop_addresses name addr as'

  unfoldable pub keep_addresses : Bytes → IpNet → Act State Unit
  keep_addresses name addr s = drop_addresses name addr (kernel.addrs s.calls name) s

  unfoldable pub add_routes : Bytes → List IpNet → Act State Unit
  add_routes name [] = pure tt
  add_routes name (dst ∷ dsts) =
      call (bytes "cannot add route") (route_replace name dst) >> add_routes name dsts

  unfoldable pub drop_routes : Bytes → List IpNet → List (Option IpNet) → Act State Unit
  drop_routes name routes [] = pure tt
  drop_routes name routes (dst ∷ dsts) =
      (if is_route routes dst then pure tt else call (bytes "RouteDel") (route_del name dst))
      >> drop_routes name routes dsts

  unfoldable pub keep_routes : Bytes → List IpNet → Act State Unit
  keep_routes name routes s =
      (require (bytes "cannot get routes") (kernel.routes s.calls name) >>= drop_routes name routes)
        s

  -- `LinkAdd`, unless the interface is there.
  unfoldable pub ensure_link : Assoc Link → Bytes → Act State Unit
  ensure_link existing name =
      if is_some (lookup name existing)
      then pure tt
      else call (bytes "cannot create wg interface") (link_add name)

  -- Its netlink part
  unfoldable pub sync_network : WgPeer → Act State Unit
  sync_network p = do
    addr ← require (bytes "error parsing address") (address_net p.peer_address)
    call (bytes "cannot add address") (addr_replace (interface_name p) addr)
    keep_addresses (interface_name p) addr
    add_routes (interface_name p) p.routes
    keep_routes (interface_name p) p.routes

  unfoldable pub delete_links : Assoc Link → Act State Unit
  delete_links [] = pure tt
  delete_links ((name, l) ∷ ls) = call (bytes "LinkDel") (link_del name) >> delete_links ls

module _ (kc : KeyCodec) (parse_addr_port : Bytes → Option UdpAddr) (kernel : Kernel) where
  -- The WireGuard part of the body of the loop over `wgc`
  unfoldable pub sync_device : WgPeer → Act State Unit
  unfolding optional_key peer_of
  sync_device p = do
    set_private_key p.peer_private_key
    endpoint ← require (bytes "error parsing endpoint") (parse_addr_port p.server_endpoint)
    psk ← require (bytes "error parsing key") (optional_key kc p.pre_shared_key)
    append_peer (peer_of p endpoint psk)
    configure kernel (interface_name p)

  -- The body of the loop over `wgc`
  unfoldable pub sync_peer : Assoc Link → WgPeer → Act State Unit
  sync_peer existing p = do
    ensure_link kernel existing (interface_name p)
    call kernel (bytes "cannot get wg interface") (link_by_name (interface_name p))
    call kernel (bytes "wgctrl.New") (new_client (interface_name p))
    sync_device p
    call kernel (bytes "link up") (link_set_up (interface_name p))
    sync_network kernel p

  -- The loop, and then the leftovers, in the order of `range`.
  unfoldable pub sync_peers : (Assoc Link → Assoc Link) → Assoc Link → List WgPeer → Act State Unit
  sync_peers range existing [] = delete_links kernel (range existing)
  sync_peers range existing (p ∷ ps) =
      sync_peer existing p >> sync_peers range (without_link (interface_name p) existing) ps

  -- `wgcSync`
  unfoldable pub wgc_sync : (Assoc Link → Assoc Link) → List WgPeer → Act State Unit
  unfolding existing_links
  wgc_sync range peers = require (bytes "LinkList") kernel.links >>= λ links.
      sync_peers range (existing_links links) peers

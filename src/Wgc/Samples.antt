-- ===== src/Wgc/Samples.antt =====
-- `wgcSync` at concrete inputs: one cluster client, one interface of another one, and one that the
-- program does not manage.
use wga.Base.{
  ok, bytes_eq, has_prefix, true, false, none, some, Option, List, [], ◌∷◌, ◌≡◌, Bytes, bytes, All,
  refl, lookup, insert, delete, replicate, length, ◌==◌, if◌then◌else◌,
}
use mathlib.Core.List.{Memᴰ}
use wga.Net.{full_mask, cidr_mask, parse_cidr, net_string, IpNet, parse_ip, is_v4}
use wga.WgTypes.{KeyCodec, UdpAddr, PeerConfig, DeviceConfig}
use wga.PeerSync.Plan.{IsRange}
use wga.Run.{require, ◌>>=◌, ◌>>◌}
use wga.Wgc.{
  route_replace, sync_peers, sync_peer, ensure_link, interface_name, call, sync_device,
  set_private_key, append_peer, configure, sync_network, address_net, add_routes, delete_links,
  drop_addresses, drop_routes, dst_string, existing_links, is_ours, is_route, keep_addresses,
  keep_routes, optional_key, peer_of, without_link, WgPeer, Link, Call, State, Kernel, wgc_sync,
  link_del,
}
use wga.Wgc.Allowed.{IsAllowed, wgc_sync-IsAllowed}
use wga.Wgc.Complete.{IsRequired, has_route, wgc_sync-IsRequired}
use wga.Wgc.Required.{made, IsDone}
use wga.Wgc.Shared.{Sends, wgc_sync-Sends}

-- Keys whose text is their bytes.
abbrev plain_codec : KeyCodec
plain_codec = record {
  parse_key = λ s. if length s == 32 then some s else none;
  key_string = λ k. k;
  public_key = λ k. k;
}

abbrev any_endpoint : Bytes → Option UdpAddr
any_endpoint text = some (record { ip = 10 ∷ 0 ∷ 0 ∷ 1 ∷ []; port = 51820 })

abbrev service_net : IpNet
service_net = record { ip = 10 ∷ 1 ∷ 0 ∷ 0 ∷ []; mask = 255 ∷ 255 ∷ 0 ∷ 0 ∷ [] }

abbrev old_net : IpNet
old_net = record { ip = 10 ∷ 2 ∷ 0 ∷ 0 ∷ []; mask = 255 ∷ 255 ∷ 0 ∷ 0 ∷ [] }

abbrev here : WgPeer
here = record {
  peer_name = bytes "here";
  peer_private_key = replicate 32 65;
  peer_address = bytes "10.0.0.7";
  persistent_keepalive = 25;
  server_public_key = replicate 32 66;
  routes = service_net ∷ [];
  pre_shared_key = [];
  server_endpoint = bytes "10.0.0.1:51820";
}

abbrev kernel_links : List Link
kernel_links =
    record { name = bytes "wgc-gone"; kind = bytes "wireguard" }
    ∷ record { name = bytes "wgc-eth"; kind = bytes "device" }
    ∷ []

-- A kernel where every call succeeds.
abbrev kernel : Kernel
kernel = record {
  links = some kernel_links;
  succeeds = λ before c. true;
  addrs = λ before name. [];
  routes = λ before name. some (some service_net ∷ some old_net ∷ []);
}

abbrev earlier : PeerConfig
earlier = record {
  public_key = replicate 32 67;
  remove = false;
  update_only = false;
  preshared_key = none;
  endpoint = none;
  persistent_keepalive_interval = none;
  replace_allowed_ips = true;
  allowed_ips = [];
}

abbrev shared : DeviceConfig
shared = record {
  private_key = none;
  listen_port = none;
  replace_peers = false;
  peers = earlier ∷ [];
}

abbrev final : State
final =
    (wgc_sync plain_codec any_endpoint kernel (λ m. m) (here ∷ [])
      (record { config = shared; calls = [] })).1

-- The last of nine calls deletes the interface that is left over.
runs : (length final.calls ≡ 9) × Memᴰ (link_del (bytes "wgc-gone")) final.calls
unfolding wgc_sync ◌>>=◌ ◌>>◌ require sync_peers sync_peer ensure_link lookup insert delete
    interface_name call sync_device set_private_key append_peer configure sync_network address_net
    parse_ip is_v4 full_mask cidr_mask parse_cidr net_string bytes_eq has_prefix add_routes
    delete_links drop_addresses drop_routes dst_string existing_links is_ours is_route
    keep_addresses keep_routes optional_key peer_of without_link
runs = (refl, tail (tail (tail (tail (tail (tail (tail (tail (head refl)))))))))
  where
    head : {x y : Call} {ys : List Call} → x ≡ y → Memᴰ x (y ∷ ys)
    head e = Memᴰ.head e

    tail : {x y : Call} {ys : List Call} → Memᴰ x ys → Memᴰ x (y ∷ ys)
    tail m = Memᴰ.tail m

in_order-IsRange : IsRange {V = Link} (λ m. m)
in_order-IsRange = record { distinct = λ m h. h; same = λ m h k. refl }

wgc_sync-IsAllowed_example : All (IsAllowed kernel.links (here ∷ [])) final.calls
wgc_sync-IsAllowed_example =
    wgc_sync-IsAllowed plain_codec any_endpoint kernel (λ m. m) (here ∷ []) shared in_order-IsRange

wgc_sync-Sends_example : Memᴰ earlier final.config.peers × All (Sends earlier) final.calls
wgc_sync-Sends_example =
    wgc_sync-Sends plain_codec any_endpoint kernel (λ m. m) (here ∷ []) shared earlier
      (Memᴰ.head refl)

returns :
    (wgc_sync plain_codec any_endpoint kernel
      (λ m. m)
      (here ∷ [])
      (record { config = shared; calls = [] })).0
    ≡ ok tt
unfolding wgc_sync ◌>>=◌ ◌>>◌ require sync_peers sync_peer ensure_link lookup insert delete
    interface_name call sync_device set_private_key append_peer configure sync_network address_net
    parse_ip is_v4 full_mask cidr_mask parse_cidr net_string bytes_eq has_prefix add_routes
    delete_links drop_addresses drop_routes dst_string existing_links is_ours is_route
    keep_addresses keep_routes optional_key peer_of without_link
returns = refl

here-IsRequired :
    IsRequired kernel_links (here ∷ []) (made (route_replace (bytes "wgc-here") service_net))
unfolding interface_name
here-IsRequired = has_route here service_net (Memᴰ.head refl) (Memᴰ.head refl)

wgc_sync-IsRequired_example :
    IsDone kernel (made (route_replace (bytes "wgc-here") service_net)) final
wgc_sync-IsRequired_example =
    wgc_sync-IsRequired plain_codec any_endpoint kernel (λ m. m) kernel_links (here ∷ [])
      (record { config = shared; calls = [] }) (made (route_replace (bytes "wgc-here") service_net))
      in_order-IsRange refl returns here-IsRequired

-- ===== src/Main/Samples.antt =====
-- The command `ep` with a service network that has no mask.
use wga.Base.{Bytes, bytes, split, panic, true, false, refl, ◌≡◌, ◌↔◌, is_empty}
use wga.Main.{ServerEnvironment, client_nets, service_nets_of, required, server_config}
use wga.Main.Panics.{are_nets, server_config-panics}

abbrev without_mask : ServerEnvironment
without_mask = record {
  client_cidr = bytes "fd00::/64,10.0.0.0/8";
  server_address = bytes "vpn.example.org:51820";
  allowed_ips = bytes "10.1.0.0/16,10.2.0.0";
  dns_addresses = bytes "10.1.0.10";
}

runs : server_config without_mask ≡ panic (bytes "nil pointer dereference")
unfolding server_config client_nets service_nets_of required
runs = refl

server_config-panics_example : ((why : Bytes) × (server_config without_mask ≡ panic why)) ↔ (
    (are_nets (split b',' (bytes "fd00::/64,10.0.0.0/8")) ≡ true)
    × (is_empty (bytes "vpn.example.org:51820") ≡ false)
    × (is_empty (bytes "10.1.0.0/16,10.2.0.0") ≡ false)
    × (are_nets (split b',' (bytes "10.1.0.0/16,10.2.0.0")) ≡ false))
server_config-panics_example = server_config-panics without_mask

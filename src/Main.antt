-- ===== src/Main.antt =====
-- The command `ep` of main.go: what it reads from the environment and gives to `RunWGA`.
mod Panics
mod Samples
use wga.Base.{
  none, some, List, [], ◌∷◌, if◌then◌else◌, is_empty, Bytes, bytes, split, Outcome, ok, err, panic,
  ◌>>=◌,
}
use wga.Net.{IpNet, parse_cidr}

-- The variables that the command reads; one that is not set is empty.
pub record ServerEnvironment : Type 0 where
  pub client_cidr : Bytes  -- WGA_CLIENT_CIDR
  pub server_address : Bytes  -- WGA_SERVER_ADDRESS
  pub allowed_ips : Bytes  -- WGA_ALLOWED_IPS
  pub dns_addresses : Bytes  -- WGA_DNS_ADDRESSES

-- The arguments of `RunWGA`
pub record ServerConfig : Type 0 where
  pub service_nets : List IpNet
  pub peers_nets : List IpNet
  pub dns_servers : List Bytes
  pub server_addr : Bytes

-- The loop over the client networks, which ends the program at one that does not parse.
unfoldable pub client_nets : List Bytes → Outcome (List IpNet)
unfolding parse_cidr
client_nets [] = ok []
client_nets (s ∷ ss) =
    let rest = client_nets ss in
    elim (parse_cidr s) [
      | none ↦ err (bytes "cannot parse client cidr")
      | some (_, net) ↦ rest >>= λ nets. ok (net ∷ nets)
    ]

-- The loop over the service networks: at one that does not parse, the nil network is dereferenced.
unfoldable pub service_nets_of : List Bytes → Outcome (List IpNet)
unfolding parse_cidr
service_nets_of [] = ok []
service_nets_of (s ∷ ss) =
    let rest = service_nets_of ss in
    elim (parse_cidr s) [
      | none ↦ panic (bytes "nil pointer dereference")
      | some (_, net) ↦ rest >>= λ nets. ok (net ∷ nets)
    ]

-- A variable that must be set
unfoldable pub required : Bytes → Bytes → Outcome Bytes
required message value = if is_empty value then err message else ok value

-- The body of the command, up to the call of `RunWGA`
unfoldable pub server_config : ServerEnvironment → Outcome ServerConfig
unfolding client_nets service_nets_of required split
server_config env = do
  peers ← client_nets (split b',' env.client_cidr)
  address ← required (bytes "WGA_SERVER_ADDRESS not set") env.server_address
  allowed ← required (bytes "WGA_ALLOWED_IPS not set") env.allowed_ips
  services ← service_nets_of (split b',' allowed)
  dns ← required (bytes "WGA_DNS_ADDRESSES not set") env.dns_addresses
  ok (record {
    service_nets = services;
    peers_nets = peers;
    dns_servers = split b',' dns;
    server_addr = address;
  })

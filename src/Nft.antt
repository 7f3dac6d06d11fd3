-- ===== src/Nft.antt =====
-- `nftSync` of operator/nft.go, which brings the firewall's rules to the access rules of the peers. The
-- answers of the nftables library and the exit codes of the `nft` command are parameters.
mod Setup
pub use Setup.{Table, Chain}
unfoldable pub use Setup.{check_or_create_table, check_or_create_chain}
pub mod Wants
pub mod Rules
pub mod Grants
pub mod Sync
pub mod Guarantees
pub mod Permits
pub mod Stale
pub mod Repeats
pub mod Filled
mod Samples
use wga.Api.{WireguardAccessRule, WireguardAccessPeer, WireguardAccessPeerStatus, FetchedConfig}
use wga.Base.{
  Bool, true, false, not, ◌||◌, Option, none, some, List, [], ◌∷◌, ◌++◌, if◌then◌else◌, Bytes,
  bytes, between, contains, Assoc, lookup, insert, any, keep_if, Outcome, ok, panic, ◌>>=◌, get_or,
  err, ℕ,
}
use wga.Net.{IpNet, parse_ip, parse_cidr, is_v4, net_string}
use wga.PeerSync.{status_addresses, host_net}

-- `nftables.Rule`: its user data holds the comment, among other bytes. The rest is not read.
pub record NftRule : Type 0 where
  pub user_data : Bytes
  pub handle : Bytes

-- The destinations that parse; the others are logged and left out.
parse_destinations : List Bytes → List IpNet
unfolding parse_cidr
parse_destinations [] = []
parse_destinations (d ∷ ds) =
    let rest = parse_destinations ds in
    elim (parse_cidr d) [ none ↦ rest | some (_, ipnet) ↦ ipnet ∷ rest ]

destinations_from : Assoc (List IpNet) → List WireguardAccessRule → Assoc (List IpNet)
unfolding parse_destinations insert
destinations_from m [] = m
destinations_from m (rr ∷ rules) =
    destinations_from (insert rr.name (parse_destinations rr.spec.destinations) m) rules

-- `ruleNameToDestinations`
unfoldable pub rule_destinations : List WireguardAccessRule → Assoc (List IpNet)
unfolding destinations_from
rule_destinations = destinations_from []

rule_map_from : Assoc NftRule → List NftRule → Assoc NftRule
unfolding insert
rule_map_from m [] = m
rule_map_from m (r ∷ rules) = rule_map_from (insert r.user_data r m) rules

-- `ruleMap`: of two rules with one user data, the later.
unfoldable pub rule_map : List NftRule → Assoc NftRule
unfolding rule_map_from
rule_map = rule_map_from []

-- `strip`: the letters and digits of a text
is_alphanumeric : ℕ → Bool
is_alphanumeric b = between b'a' b'z' b || between b'A' b'Z' b || between b'0' b'9' b

unfoldable pub strip : Bytes → Bytes
unfolding is_alphanumeric
strip [] = []
strip (b ∷ s) = let rest = strip s in if is_alphanumeric b then b ∷ rest else rest

-- `"r" + strip(...)`
unfoldable pub comment_of : Bytes → Bytes → Bytes
unfolding strip
comment_of source target = b'r' ∷ strip (source ++ target)

-- The loop that takes the rules with a comment out of `ruleMap`, and whether there was one.
unfoldable pub claim : Bytes → Assoc NftRule → Assoc NftRule × Bool
unfolding contains
claim comment m = (keep_if (λ e. not (contains e.0 comment)) m, any (λ e. contains e.0 comment) m)

-- What `nft` is called with by `routingRule`, `dnsRule` and `httpRule`.
module _ (table chain : Bytes) where
  abbrev add_rule : List Bytes → List Bytes
  add_rule rest = bytes "add" ∷ bytes "rule" ∷ bytes "netdev" ∷ table ∷ chain ∷ rest

  abbrev accept : Bytes → List Bytes
  accept comment = bytes "counter" ∷ bytes "accept" ∷ bytes "comment" ∷ comment ∷ []

  unfoldable pub routing_rule : Bool → IpNet → IpNet → Bytes → List Bytes
  unfolding net_string
  routing_rule is_v6 snet dnet comment =
      let ipp = if is_v6 then bytes "ip6" else bytes "ip" in
      add_rule (
        ipp
        ∷ bytes "saddr"
        ∷ net_string snet
        ∷ ipp
        ∷ bytes "daddr"
        ∷ net_string dnet
        ∷ accept comment)

  unfoldable pub dns_rule : Bytes → IpNet → Bytes → List Bytes
  unfolding net_string
  dns_rule dns snet comment = add_rule (
      bytes "ip6"
      ∷ bytes "saddr"
      ∷ net_string snet
      ∷ bytes "ip6"
      ∷ bytes "daddr"
      ∷ dns
      ∷ bytes "udp"
      ∷ bytes "dport"
      ∷ bytes "53"
      ∷ accept comment)

  unfoldable pub http_rule : Bytes → IpNet → Bytes → List Bytes
  unfolding net_string
  http_rule dns snet comment = add_rule (
      bytes "ip6"
      ∷ bytes "saddr"
      ∷ net_string snet
      ∷ bytes "ip6"
      ∷ bytes "daddr"
      ∷ dns
      ∷ bytes "tcp"
      ∷ bytes "dport"
      ∷ bytes "{ 80, 443 }"
      ∷ accept comment)

-- `ruleMap`, and the calls of `nft` so far
pub record Progress : Type 0 where
  pub rules : Assoc NftRule
  pub calls : List (List Bytes)

-- `snetIsV6 == dnetIs6`, from whether the destination is IPv4
abbrev pub same_family : Bool → Bool → Bool
same_family true v4 = not v4
same_family false v4 = v4

-- `runs args` says whether `nft` with these arguments exits with 0.
module _ (runs : List Bytes → Bool) (table chain : Bytes) where
  -- The body of the loop over the destinations. An error of `routingRule` is logged.
  unfoldable pub route_step : Bool → IpNet → Progress → IpNet → Progress
  unfolding claim
  route_step is_v6 snet st dnet =
      let comment = comment_of (net_string snet) (net_string dnet) in
      let (left, exists) = claim comment st.rules in
      if exists
      then record st { rules = left }
      else if same_family is_v6 (is_v4 dnet.ip)
      then record {
        rules = left;
        calls = st.calls ++ routing_rule table chain is_v6 snet dnet comment ∷ [];
      }
      else record st { rules = left }

  -- The block for the DNS server; when `dnsRule` fails, `httpRule` is not called.
  unfoldable pub dns_step : IpNet → Progress → Bytes → Progress
  unfolding claim
  dns_step snet st dns =
      let comment = comment_of (net_string snet) dns in
      let (left, exists) = claim comment st.rules in
      let first = dns_rule table chain dns snet comment in
      if exists then record st { rules = left } else record {
        rules = left;
        calls =
            st.calls
            ++ (first ∷ (if runs first then http_rule table chain dns snet comment ∷ [] else []));
      }

  routes_step : Bool → IpNet → Progress → List IpNet → Progress
  routes_step is_v6 snet st [] = st
  routes_step is_v6 snet st (dnet ∷ dnets) =
      routes_step is_v6 snet (route_step is_v6 snet st dnet) dnets

  -- The loop over the access rules' names; a name that is no rule has no destinations.
  names_step : Assoc (List IpNet) → Bool → IpNet → Progress → List Bytes → Progress
  names_step dests is_v6 snet st [] = st
  names_step dests is_v6 snet st (name ∷ names) =
      names_step dests is_v6 snet (routes_step is_v6 snet st (get_or (lookup name dests) [])) names

  -- `if snetIsV6 && len(peer.Status.DNS) > 0`
  dns_block : Bool → IpNet → Progress → List Bytes → Progress
  dns_block is_v6 snet st [] = st
  dns_block is_v6 snet st (dns ∷ _) = if is_v6 then dns_step snet st dns else st

  -- The body of the loop over the addresses. An address that does not parse is the nil address,
  -- taken for IPv6.
  address_step : Assoc (List IpNet) → List Bytes → List Bytes → Progress → Bytes → Progress
  unfolding names_step routes_step dns_block
  address_step dests names dns st addr =
      let ip = parse_ip addr in
      let is_v6 = not (is_v4 ip) in
      let snet = host_net ip in dns_block is_v6 snet (names_step dests is_v6 snet st names) dns

  addresses_step : Assoc (List IpNet) → List Bytes → List Bytes → Progress → List Bytes → Progress
  addresses_step dests names dns st [] = st
  addresses_step dests names dns st (addr ∷ addrs) =
      addresses_step dests names dns (address_step dests names dns st addr) addrs

  peer_step :
      Assoc (List IpNet) → List Bytes → Option WireguardAccessPeerStatus → Progress → Progress
  unfolding addresses_step address_step status_addresses
  peer_step dests names none st = st
  peer_step dests names (some status) st =
      addresses_step dests names status.dns st (status_addresses status)

  -- The loop over `config.Peers`
  unfoldable pub peers_step : Assoc (List IpNet) → Progress → List WireguardAccessPeer → Progress
  unfolding peer_step
  peers_step dests st [] = st
  peers_step dests st (peer ∷ peers) =
      peers_step dests (peer_step dests peer.spec.access_rules peer.status st) peers

-- What nftables and `nft` answer to one sync.
pub record Answers : Type 0 where
  pub connects : Bool  -- nftables.New
  pub tables : Option (List Table)
  pub flushes : Bool
  pub chains : Option (List Chain)
  pub chain_added : Bool  -- nft add chain
  pub chains_again : Option (List Chain)
  pub rules : Option (List NftRule)
  pub runs : List Bytes → Bool

-- The calls of `nft add rule`, and the rules that `DelRule` is called with: what is left of
-- `ruleMap`.
pub record Effects : Type 0 where
  pub calls : List (List Bytes)
  pub stale : Assoc NftRule

-- `panic(err)` when `GetRules` fails. A chain that is still missing is nil, and `GetRules` reads its
-- name.
rules_of : Option Chain → Option (List NftRule) → Outcome (Chain × List NftRule)
rules_of none rules = panic (bytes "nil chain")
rules_of (some chain) none = panic (bytes "GetRules")
rules_of (some chain) (some rules) = ok (chain, rules)

-- `if err != nil { panic(err) }`
must : {A : Type 0} → Outcome A → Outcome A
must (ok a) = ok a
must (err e) = panic e
must (panic e) = panic e

-- `nftSync` from the loop over the peers on
finish_sync : Answers → FetchedConfig → Table → Chain × List NftRule → Outcome Effects
finish_sync a config table (chain, rules) =
    let start : Progress = record { rules = rule_map rules; calls = [] } in
    let done =
      peers_step a.runs table.name chain.name (rule_destinations config.rules) start config.peers in
    ok (record { calls = done.calls; stale = done.rules })

-- from `GetRules` on
rules_sync : Answers → FetchedConfig → Table → Option Chain → Outcome Effects
unfolding rules_of finish_sync
rules_sync a config table found = rules_of found a.rules >>= finish_sync a config table

-- from the chain on
chain_sync : Answers → FetchedConfig → Bytes → Table → Outcome Effects
unfolding rules_sync must
chain_sync a config device_name table =
    must (check_or_create_chain a.chains a.chain_added a.chains_again table device_name)
    >>= rules_sync a config table

-- `nftSync`
unfoldable pub nft_sync : Answers → FetchedConfig → Bytes → Outcome Effects
unfolding chain_sync must
nft_sync a config device_name =
    if a.connects
    then must (check_or_create_table a.tables a.flushes) >>= chain_sync a config device_name
    else panic (bytes "nftables.New")

-- ===== src/Nft/Samples.antt =====
-- `nftSync` at a small configuration: a peer whose two access rules name one destination.
use wga.Base.{
  true, false, some, List, [], ◌∷◌, ◌++◌, ◌≡◌, ok, Bytes, bytes, refl, replicate, bytes_eq, lookup,
  insert, contains, ◌↔◌, ◌⊎◌,
}
use Prim.Native.String.{String}
use mathlib.Core.List.{Memᴰ}
use wga.Nft.Wants.{Want, route, dns, want_comment}
use wga.Nft.Grants.{IsAsked}
use wga.Api.{FetchedConfig, WireguardAccessPeerStatus, WireguardAccessPeer, WireguardAccessRule}
use wga.Nft.{
  Answers, Effects, nft_sync, NftRule, comment_of, peers_step, dns_rule, route_step, http_rule,
  dns_step, rule_destinations, rule_map, strip, claim, routing_rule,
}
use wga.Nft.Sync.{config_wants, IsAsked-of_mem}
use wga.Nft.Rules.{want_calls, has_comment}
use wga.Net.{IpNet, parse_ip, parse_cidr, is_v4, net_string, cidr_mask}
use wga.Nft.Setup.{check_or_create_table, check_or_create_chain}
use wga.PeerSync.{host_net, status_addresses}
use wga.Nft.Repeats.{nft_sync-repeats, nft_sync-shadowed}
use wga.Nft.Permits.{IsPermitted, nft_sync-IsPermitted}
use wga.Nft.Stale.{IsLast, nft_sync-IsLast}
use wga.Nft.Guarantees.{nft_sync_complete}

abbrev rule_named : String → WireguardAccessRule
rule_named name = record {
  name = bytes name;
  spec = record { destinations = bytes "fd10::/64" ∷ bytes "nowhere" ∷ [] };
}

abbrev phone_status : WireguardAccessPeerStatus
phone_status = record {
  last_updated = 0;
  address = [];
  addresses = bytes "fd00::7" ∷ [];
  dns = bytes "fd00::53" ∷ [];
  peers = [];
}

abbrev phone : WireguardAccessPeer
phone = record {
  name = bytes "phone";
  spec = record {
    pre_shared_key = [];
    public_key = [];
    access_rules = bytes "db" ∷ bytes "web" ∷ bytes "gone" ∷ [];
  };
  status = some phone_status;
}

abbrev sample_config : FetchedConfig
sample_config = record { rules = rule_named "db" ∷ rule_named "web" ∷ []; peers = phone ∷ [] }

abbrev old_rule : NftRule
old_rule = record { user_data = bytes "..rfd0099128"; handle = [] }

abbrev device_name : Bytes
device_name = bytes "wga"

abbrev answers : Answers
answers = record {
  connects = true;
  tables = some [];
  flushes = true;
  chains = some [];
  chain_added = true;
  chains_again = some (record { name = device_name; table = device_name } ∷ []);
  rules = some (old_rule ∷ []);
  runs = λ args. true;
}

abbrev phone_net : IpNet
phone_net = record { ip = 0xfd ∷ 0 ∷ (replicate 13 0 ++ 7 ∷ []); mask = replicate 16 255 }

abbrev db_net : IpNet
db_net = record { ip = 0xfd ∷ 0x10 ∷ replicate 14 0; mask = replicate 8 255 ++ replicate 8 0 }

abbrev to_db : Want
to_db = route true phone_net db_net

abbrev to_dns : Want
to_dns = dns phone_net (bytes "fd00::53")

program : Unit {0}
unfolding nft_sync peers_step route_step dns_step rule_destinations rule_map strip comment_of claim
    routing_rule dns_rule http_rule check_or_create_table check_or_create_chain bytes_eq lookup
    insert contains parse_ip parse_cidr is_v4 net_string cidr_mask host_net status_addresses
program = tt

abbrev to_db_call : List Bytes
to_db_call =
    bytes "add"
    ∷ bytes "rule"
    ∷ bytes "netdev"
    ∷ device_name
    ∷ device_name
    ∷ bytes "ip6"
    ∷ bytes "saddr"
    ∷ bytes "fd00::7/128"
    ∷ bytes "ip6"
    ∷ bytes "daddr"
    ∷ bytes "fd10::/64"
    ∷ bytes "counter"
    ∷ bytes "accept"
    ∷ bytes "comment"
    ∷ bytes "rfd007128fd1064"
    ∷ []

abbrev to_dns_calls : List (List Bytes)
to_dns_calls = unfold dns_rule http_rule in want_calls (λ args. true) device_name device_name to_dns

abbrev sample_effects : Effects
sample_effects = record {
  calls = to_db_call ∷ to_db_call ∷ to_dns_calls;
  stale = (old_rule.user_data, old_rule) ∷ [];
}

sample_returns : nft_sync answers sample_config device_name ≡ ok sample_effects
unfolding program
sample_returns = refl

to_db_calls : want_calls (λ args. true) device_name device_name to_db ≡ to_db_call ∷ []
unfolding program
to_db_calls = refl

sample_wants : config_wants sample_config ≡ to_db ∷ to_db ∷ to_dns ∷ []
unfolding program
sample_wants = refl

-- Two peers' addresses, and two destinations, that no comment tells apart.
same_comments :
    (comment_of (bytes "fd00::1:1/128") (bytes "fd10::/64")
      ≡ comment_of (bytes "fd00::11/128") (bytes "fd10::/64"))
    × (comment_of (bytes "10.1.1.1/32") (bytes "10.11.1.0/24")
        ≡ comment_of (bytes "10.1.1.1/32") (bytes "10.1.11.0/24"))
unfolding comment_of
same_comments = (refl, refl)

to_db-IsAsked : IsAsked sample_config to_db
to_db-IsAsked = IsAsked-of_mem sample_config (rw sample_wants (Memᴰ.head refl))

nft_sync-IsPermitted_example : IsPermitted sample_config device_name to_db_call
nft_sync-IsPermitted_example =
    nft_sync-IsPermitted answers sample_config device_name sample_effects to_db_call sample_returns
      (Memᴰ.head refl)

nft_sync_complete_example :
    (has_comment (want_comment to_db) (rule_map (old_rule ∷ [])) ≡ true)
    ⊎ ((call : List Bytes)
        → Memᴰ call (want_calls answers.runs (bytes "wga") device_name to_db)
        → Memᴰ call sample_effects.calls)
nft_sync_complete_example =
    nft_sync_complete answers sample_config device_name sample_effects sample_returns
      (old_rule ∷ []) to_db refl to_db-IsAsked

nft_sync-IsLast_example : Memᴰ (old_rule.user_data, old_rule) sample_effects.stale ↔ (
    IsLast old_rule (old_rule ∷ [])
    × ((w : Want) → IsAsked sample_config w → contains old_rule.user_data (want_comment w) ≡ false))
nft_sync-IsLast_example =
    nft_sync-IsLast answers sample_config device_name sample_effects (old_rule ∷ []) old_rule
      sample_returns refl

nft_sync-repeats_example : Memᴰ to_db_call sample_effects.calls
nft_sync-repeats_example =
    nft_sync-repeats answers sample_config device_name sample_effects [] (to_db ∷ to_dns ∷ []) to_db
      to_db_call sample_returns sample_wants (Memᴰ.head refl) (rw to_db_calls (Memᴰ.head refl))

-- 0.0.0.0/16 stands in the chain, and 0.0.0.0/1 is wanted.
abbrev wide_rule : WireguardAccessRule
wide_rule = record { name = bytes "wide"; spec = record { destinations = bytes "0.0.0.0/1" ∷ [] } }

abbrev laptop : WireguardAccessPeer
laptop = record {
  name = bytes "laptop";
  spec = record { pre_shared_key = []; public_key = []; access_rules = bytes "wide" ∷ [] };
  status = some (record phone_status { addresses = bytes "10.1.1.1" ∷ []; dns = [] });
}

abbrev wide_config : FetchedConfig
wide_config = record { rules = wide_rule ∷ []; peers = laptop ∷ [] }

abbrev wide_net : IpNet
wide_net = record { ip = 0 ∷ 0 ∷ 0 ∷ 0 ∷ []; mask = 128 ∷ 0 ∷ 0 ∷ 0 ∷ [] }

abbrev narrow_rule : NftRule
narrow_rule = record { user_data = bytes "..r1011132000016"; handle = [] }

abbrev narrow_answers : Answers
narrow_answers = record answers { rules = some (narrow_rule ∷ []) }

abbrev wide_want : Want
wide_want = route false (host_net (parse_ip (bytes "10.1.1.1"))) wide_net

abbrev no_effects : Effects
no_effects = record { calls = []; stale = [] }

wide_returns : nft_sync narrow_answers wide_config device_name ≡ ok no_effects
unfolding program
wide_returns = refl

wide_wants : config_wants wide_config ≡ wide_want ∷ []
unfolding program
wide_wants = refl

begins_alike : bytes "r1011132000016" ≡ want_comment wide_want ++ bytes "6"
unfolding program
begins_alike = refl

nft_sync-shadowed_example : no_effects.calls ≡ []
nft_sync-shadowed_example =
    nft_sync-shadowed narrow_answers wide_config device_name no_effects (narrow_rule ∷ [])
      narrow_rule wide_want (bytes "r1011132000016") (bytes "6") (bytes "..") [] wide_returns refl
      wide_wants (IsLast.here (λ q n. elim n [ ])) refl begins_alike

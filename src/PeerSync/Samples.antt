-- ===== src/PeerSync/Samples.antt =====
-- `wgaSync` at concrete inputs: a device with one stale peer, and a cluster with one new one.
use wga.Api.{WireguardAccessPeerStatus, WireguardAccessPeer}
use wga.Base.{
  none, some, List, [], ◌∷◌, ◌≡◌, ◌↔◌, arith, map, bytes_eq, Option, replicate, refl, lookup, bytes,
  false, keep_if, not, insert, true, delete, if◌then◌else◌, length, ◌==◌, bytes_eq_iff, ok, Bytes,
  subst, ◌≢◌, sym,
}
use wga.Net.{parse_ip, is_v4, cidr_mask, ip_equal, IpNet}
use wga.PeerSync.{
  Faults, Ranges, plan, should_peers, Configure, have_peers, peer_config, changed, wga_sync,
  removal_of, keepalive, allowed_ips,
}
use wga.PeerSync.Converge.{apply_peer, ActsByKey, apply_all, Reached, wga_sync-converges}
use wga.PeerSync.Plan.{IsRange, entries_for, wanted_entries, wga_sync-plan}
use wga.WgTypes.{zero_key, Peer, Key, KeyCodec, PeerConfig}
use wga.PeerSync.Quiet.{wga_sync-quiet_iff}
use mathlib.Core.Bool.{false≢true}

-- Keys whose text is their bytes.
abbrev plain_codec : KeyCodec
plain_codec = record {
  parse_key = λ s. if length s == 32 then some s else none;
  key_string = λ k. k;
  public_key = λ k. k;
}

abbrev in_order : Ranges
in_order = record { have = λ m. m; should = λ m. m }

in_order-IsRange : {V : Type 0} → IsRange {V = V} (λ m. m)
in_order-IsRange = record { distinct = λ m h. h; same = λ m h k. refl }

abbrev key_a : Key
key_a = replicate 32 65

abbrev key_b : Key
key_b = replicate 32 66

abbrev laptop_status : WireguardAccessPeerStatus
laptop_status = record {
  last_updated = 0;
  address = [];
  addresses = bytes "fd00::7" ∷ bytes "nonsense" ∷ [];
  dns = [];
  peers = [];
}

abbrev laptop : WireguardAccessPeer
laptop = record {
  name = bytes "laptop";
  spec = record { pre_shared_key = []; public_key = key_a; access_rules = [] };
  status = some laptop_status;
}

abbrev stale : Peer
stale = record {
  public_key = key_b;
  preshared_key = zero_key;
  endpoint = none;
  persistent_keepalive_interval = 0;
  allowed_ips = [];
}

-- A device that does as documented, one entry after the other.
without : Key → List Peer → List Peer
unfolding bytes_eq
without k = keep_if (λ p. not (bytes_eq p.public_key k))

find : Key → List Peer → Option Peer
unfolding bytes_eq
find k [] = none
find k (p ∷ ps) = if bytes_eq p.public_key k then some p else find k ps

put : Option Peer → List Peer → List Peer
put none ps = ps
put (some p) ps = p ∷ ps

obedient : Configure
unfolding without find put apply_peer
obedient [] device = (true, device)
obedient (c ∷ cs) device =
    obedient cs (put (apply_peer c (find c.public_key device)) (without c.public_key device))

program : Unit {0}
unfolding bytes_eq lookup insert delete parse_ip is_v4 cidr_mask ip_equal plan should_peers
    have_peers peer_config changed wga_sync obedient without
program = tt

abbrev no_faults : Faults
no_faults = record { new = false; device = false }

plan_test :
    map
      (λ c. c.remove)
      (plan in_order (should_peers plain_codec (laptop ∷ [])) (have_peers plain_codec (stale ∷ [])))
    ≡ true ∷ false ∷ []
unfolding program
plan_test = refl

abbrev wanted : Key → List IpNet → PeerConfig
wanted a nets = record {
  public_key = a;
  remove = false;
  update_only = false;
  preshared_key = some zero_key;
  endpoint = none;
  persistent_keepalive_interval = some keepalive;
  replace_allowed_ips = true;
  allowed_ips = nets;
}

abbrev added : Key → List IpNet → Peer
added a nets = record {
  public_key = a;
  preshared_key = zero_key;
  endpoint = none;
  persistent_keepalive_interval = keepalive;
  allowed_ips = nets;
}

abbrev laptop_nets : List IpNet
laptop_nets = allowed_ips laptop_status.addresses

swap_peers :
    (a b k : Key) (nets : List IpNet) (old : Peer)
    → a ≢ b
    → old.public_key ≡ b
    → lookup k ((a, added a nets) ∷ [])
      ≡ apply_all
          (entries_for plain_codec k (removal_of old ∷ wanted a nets ∷ []))
          (lookup k ((b, old) ∷ []))
unfolding lookup apply_peer
swap_peers a b k nets old ne same = ground (arith, bytes_eq_iff a k, bytes_eq_iff b k)

keys_differ : key_a ≢ key_b
unfolding bytes_eq
keys_differ e = false≢true ((bytes_eq_iff key_a key_b).1 e)

abbrev sample_plan : List PeerConfig
sample_plan =
    plan in_order (should_peers plain_codec (laptop ∷ [])) (have_peers plain_codec (stale ∷ []))

sample_plan_value : sample_plan ≡ removal_of stale ∷ wanted key_a laptop_nets ∷ []
unfolding program
sample_plan_value = refl

before_value : have_peers plain_codec (stale ∷ []) ≡ (key_b, stale) ∷ []
unfolding program
before_value = refl

after_value :
    have_peers plain_codec (obedient sample_plan (stale ∷ [])).1
    ≡ (key_a, added key_a laptop_nets) ∷ []
unfolding program
after_value = refl

obedient-ActsByKey : ActsByKey plain_codec obedient sample_plan (stale ∷ [])
obedient-ActsByKey k =
    subst
      (λ m.
        lookup k m
        ≡ apply_all (entries_for plain_codec k sample_plan)
            (lookup k (have_peers plain_codec (stale ∷ []))))
      (sym after_value)
      (subst
        (λ m.
          lookup k ((key_a, added key_a laptop_nets) ∷ [])
          ≡ apply_all (entries_for plain_codec k sample_plan) (lookup k m))
        (sym before_value)
        (subst
          (λ p.
            lookup k ((key_a, added key_a laptop_nets) ∷ [])
            ≡ apply_all (entries_for plain_codec k p) (lookup k ((key_b, stale) ∷ [])))
          (sym sample_plan_value) (swap_peers key_a key_b k laptop_nets stale keys_differ refl)))

wga_sync-plan_example :
    entries_for plain_codec key_b sample_plan
    ≡ wanted_entries
        (lookup key_b (should_peers plain_codec (laptop ∷ [])))
        (lookup key_b (have_peers plain_codec (stale ∷ [])))
wga_sync-plan_example =
    wga_sync-plan plain_codec in_order (laptop ∷ []) (stale ∷ []) key_b in_order-IsRange
      in_order-IsRange

wga_sync-converges_example :
    let (outcome, device) =
      wga_sync plain_codec in_order obedient no_faults (laptop ∷ []) (stale ∷ []) in
    (outcome ≡ ok tt)
    × ((k : Bytes)
        → Reached
            (lookup k (should_peers plain_codec (laptop ∷ [])))
            (lookup k (have_peers plain_codec device)))
wga_sync-converges_example =
    wga_sync-converges plain_codec in_order obedient no_faults (laptop ∷ []) (stale ∷ [])
      in_order-IsRange in_order-IsRange refl refl (unfold program in refl) obedient-ActsByKey

wga_sync-quiet_iff_example : (sample_plan ≡ []) ↔ (
    (k : Bytes)
    → Reached
        (lookup k (should_peers plain_codec (laptop ∷ [])))
        (lookup k (have_peers plain_codec (stale ∷ []))))
wga_sync-quiet_iff_example =
    wga_sync-quiet_iff plain_codec in_order (laptop ∷ []) (stale ∷ []) in_order-IsRange
      in_order-IsRange

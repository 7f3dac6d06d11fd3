-- ===== src/Nft/Permits.antt =====
-- What a sync of the firewall makes `nft` allow, read off the access rules and the statuses themselves.
use wga.Base.{
  true, false, none, some, inl, inr, List, [], ◌∷◌, ◌++◌, ◌≡◌, refl, sym, ap, ◌∙◌, not, ok, Bool,
  Assoc, Bytes, bytes, get_or, lookup, insert, lookup-insert, bytes_eq, bytes_eq_iff, Bool-cases,
  ◌⊎◌, Option, subst, if◌then◌else◌,
}
use mathlib.Core.List.{Memᴰ}
use wga.Api.{WireguardAccessRule, FetchedConfig}
use wga.Net.{Ip, IpNet, parse_cidr, is_v4, net_string}
use wga.PeerSync.{host_net}
use wga.Nft.{
  Answers, Effects, nft_sync, parse_destinations, destinations_from, rule_destinations, same_family,
  routing_rule, dns_rule, http_rule,
}
use wga.Nft.Wants.{Want}
use wga.Nft.Grants.{Source, source_ip, IsAsked, by_rule, by_dns}
use wga.Nft.Rules.{want_calls}
use wga.Nft.Guarantees.{nft_sync_sound}

-- A destination of an access rule of that name.
pub record Names (rules : List WireguardAccessRule) (name : Bytes) (dnet : IpNet) : Type 0 where
  pub rule : WireguardAccessRule
  pub listed : Memᴰ rule rules
  pub named : rule.name ≡ name
  pub text : Bytes
  pub destination : Memᴰ text rule.spec.destinations
  pub ip : Ip
  pub parsed : parse_cidr text ≡ some (ip, dnet)

mem-parse_destinations :
    (ds : List Bytes) (dnet : IpNet)
    → Memᴰ dnet (parse_destinations ds)
    → (text : Bytes) × (ip : Ip) × Memᴰ text ds × (parse_cidr text ≡ some (ip, dnet))
unfolding parse_destinations
mem-parse_destinations [] dnet m = elim m [ ]
mem-parse_destinations (d ∷ ds) dnet m =
    chosen (mem-parse_destinations ds dnet) (parse_cidr d) refl m
  where
    chosen :
        (Memᴰ dnet (parse_destinations ds)
          → (text : Bytes) × (ip : Ip) × Memᴰ text ds × (parse_cidr text ≡ some (ip, dnet)))
        → (o : Option (Ip × IpNet)) → parse_cidr d ≡ o
        → Memᴰ dnet (elim o [
          | none ↦ parse_destinations ds
          | some (_, ipnet) ↦ ipnet ∷ parse_destinations ds
        ])
        → (text : Bytes) × (ip : Ip) × Memᴰ text (d ∷ ds) × (parse_cidr text ≡ some (ip, dnet))
    chosen later none e n = let (text, ip, among, p) = later n in (text, ip, Memᴰ.tail among, p)
    chosen later (some (ip, net)) e (Memᴰ.head same) =
        (d, ip, Memᴰ.head refl, e ∙ ap (λ x. some (ip, x)) (sym same))
    chosen later (some (ip, net)) e (Memᴰ.tail n) =
        let (text, ip', among, p) = later n in (text, ip', Memᴰ.tail among, p)

tail-Names :
    {rr : WireguardAccessRule} {rules : List WireguardAccessRule} {name : Bytes} {dnet : IpNet}
    → Names rules name dnet
    → Names (rr ∷ rules) name dnet
tail-Names n = record {
  rule = n.rule;
  listed = Memᴰ.tail n.listed;
  named = n.named;
  text = n.text;
  destination = n.destination;
  ip = n.ip;
  parsed = n.parsed;
}

destinations_from-Names :
    (m : Assoc (List IpNet)) (rules : List WireguardAccessRule) (name : Bytes) (dnet : IpNet)
    → Memᴰ dnet (get_or (lookup name (destinations_from m rules)) [])
    → Memᴰ dnet (get_or (lookup name m) []) ⊎ Names rules name dnet
unfolding destinations_from
destinations_from-Names m [] name dnet n = inl n
destinations_from-Names m (rr ∷ rules) name dnet n =
    let ds = parse_destinations rr.spec.destinations in
    elim (destinations_from-Names (insert rr.name ds m) rules name dnet n) [
      | inr later ↦ inr (tail-Names later)
      | inl before ↦ elim (Bool-cases (bytes_eq rr.name name)) [
        | inr differs ↦ inl (rw (lookup-insert rr.name name ds m, differs) at before)
        | inl same ↦
            let here : Memᴰ dnet ds = rw (lookup-insert rr.name name ds m, same) at before in
            let (text, ip, among, p) = mem-parse_destinations rr.spec.destinations dnet here in
            inr (record {
              rule = rr;
              listed = Memᴰ.head refl;
              named = (bytes_eq_iff rr.name name).0 same;
              text = text;
              destination = among;
              ip = ip;
              parsed = p;
            })
      ]
    ]

-- `nft add rule netdev <table> <chain> <ipp> saddr <from> <ipp> daddr <to> <match> counter accept ...`
abbrev pub accepts : Bytes → Bytes → Bytes → Bytes → List Bytes → Bytes → List Bytes
accepts device ipp from to match comment =
    bytes "add"
      ∷ bytes "rule"
      ∷ bytes "netdev"
      ∷ bytes "wga"
      ∷ device
      ∷ ipp
      ∷ bytes "saddr"
      ∷ from
      ∷ ipp
      ∷ bytes "daddr"
      ∷ to
      ∷ match
    ++ (bytes "counter" ∷ bytes "accept" ∷ bytes "comment" ∷ comment ∷ [])

-- A call that the configuration permits: from an address of a peer to a destination of an access rule
-- that the peer names, both of one family; or from an address that is not IPv4 (IPv6, or one that does
-- not parse) to the peer's first DNS server, by port 53 or ports 80 and 443.
pub data IsPermitted (config : FetchedConfig) (device : Bytes) (call : List Bytes) : Type 0 where
  to_v4 :
      (s : Source config) (name : Bytes) (dnet : IpNet)
      → Memᴰ name s.peer.spec.access_rules
      → Names config.rules name dnet
      → is_v4 (source_ip s) ≡ true
      → is_v4 dnet.ip ≡ true
      → (comment : Bytes)
      → call
        ≡ accepts device
            (bytes "ip")
            (net_string (host_net (source_ip s)))
            (net_string dnet)
            []
            comment
      → IsPermitted config device call
  to_v6 :
      (s : Source config) (name : Bytes) (dnet : IpNet)
      → Memᴰ name s.peer.spec.access_rules
      → Names config.rules name dnet
      → is_v4 (source_ip s) ≡ false
      → is_v4 dnet.ip ≡ false
      → (comment : Bytes)
      → call
        ≡ accepts device
            (bytes "ip6")
            (net_string (host_net (source_ip s)))
            (net_string dnet)
            []
            comment
      → IsPermitted config device call
  to_dns :
      (s : Source config) (server : Bytes) (rest : List Bytes)
      → s.status.dns ≡ server ∷ rest
      → is_v4 (source_ip s) ≡ false
      → (comment : Bytes)
      → call
        ≡ accepts device
            (bytes "ip6")
            (net_string (host_net (source_ip s)))
            server
            (bytes "udp" ∷ bytes "dport" ∷ bytes "53" ∷ [])
            comment
      → IsPermitted config device call
  to_http :
      (s : Source config) (server : Bytes) (rest : List Bytes)
      → s.status.dns ≡ server ∷ rest
      → is_v4 (source_ip s) ≡ false
      → (comment : Bytes)
      → call
        ≡ accepts device
            (bytes "ip6")
            (net_string (host_net (source_ip s)))
            server
            (bytes "tcp" ∷ bytes "dport" ∷ bytes "{ 80, 443 }" ∷ [])
            comment
      → IsPermitted config device call

module _ (runs : List Bytes → Bool) (config : FetchedConfig) (device : Bytes)
    (call : List Bytes) where
  route-IsPermitted :
      (s : Source config) (name : Bytes) (dnet : IpNet) (v4 d4 : Bool) (comment : Bytes)
      → Memᴰ name s.peer.spec.access_rules
      → Names config.rules name dnet
      → is_v4 (source_ip s) ≡ v4
      → is_v4 dnet.ip ≡ d4
      → Memᴰ call (
          if same_family (not v4) d4
          then routing_rule (bytes "wga") device (not v4) (host_net (source_ip s)) dnet comment ∷ []
          else [])
      → IsPermitted config device call
  unfolding routing_rule
  route-IsPermitted s name dnet true true comment n among v d (Memᴰ.head e) =
      to_v4 s name dnet n among v d comment e
  route-IsPermitted s name dnet true true comment n among v d (Memᴰ.tail m) = elim m [ ]
  route-IsPermitted s name dnet false false comment n among v d (Memᴰ.head e) =
      to_v6 s name dnet n among v d comment e
  route-IsPermitted s name dnet false false comment n among v d (Memᴰ.tail m) = elim m [ ]
  route-IsPermitted s name dnet true false comment n among v d m = elim m [ ]
  route-IsPermitted s name dnet false true comment n among v d m = elim m [ ]

  dns-IsPermitted :
      (s : Source config) (server : Bytes) (rest : List Bytes) (comment : Bytes) (fine : Bool)
      → s.status.dns ≡ server ∷ rest
      → is_v4 (source_ip s) ≡ false
      → Memᴰ call (
          dns_rule (bytes "wga") device server (host_net (source_ip s)) comment
          ∷ (if fine
              then http_rule (bytes "wga") device server (host_net (source_ip s)) comment ∷ []
              else []))
      → IsPermitted config device call
  unfolding dns_rule http_rule
  dns-IsPermitted s server rest comment fine d v (Memᴰ.head e) = to_dns s server rest d v comment e
  dns-IsPermitted s server rest comment true d v (Memᴰ.tail (Memᴰ.head e)) =
      to_http s server rest d v comment e
  dns-IsPermitted s server rest comment true d v (Memᴰ.tail (Memᴰ.tail m)) = elim m [ ]
  dns-IsPermitted s server rest comment false d v (Memᴰ.tail m) = elim m [ ]

  IsAsked-IsPermitted :
      (w : Want)
      → IsAsked config w
      → Memᴰ call (want_calls runs (bytes "wga") device w)
      → IsPermitted config device call
  unfolding rule_destinations lookup
  IsAsked-IsPermitted w (by_rule s name dnet n among e) m =
      elim (destinations_from-Names [] config.rules name dnet among) [
        | inl nothing ↦ elim nothing [ ]
        | inr names ↦
            route-IsPermitted s name dnet (is_v4 (source_ip s)) (is_v4 dnet.ip) _ n names refl refl
              (subst (λ x. Memᴰ call (want_calls runs (bytes "wga") device x)) e m)
      ]
  IsAsked-IsPermitted w (by_dns s server rest d v e) m =
      dns-IsPermitted s server rest _ _ d v
        (subst (λ x. Memᴰ call (want_calls runs (bytes "wga") device x)) e m)

-- Nothing is allowed that the configuration does not name: every `nft add rule` call of a sync that
-- returns accepts packets from the host of an address in a peer's status to a destination of an access
-- rule that the peer names, both of one family; or, from an address that is not IPv4, to the first DNS
-- server of the peer's status at the ports 53, 80 and 443.
pub nft_sync-IsPermitted :
    (a : Answers) (config : FetchedConfig) (device : Bytes) (eff : Effects) (call : List Bytes)
    → nft_sync a config device ≡ ok eff
    → Memᴰ call eff.calls
    → IsPermitted config device call
nft_sync-IsPermitted a config device eff call returned m =
    let (w, asked, made) = nft_sync_sound a config device eff returned call m in
    IsAsked-IsPermitted a.runs config device call w asked made

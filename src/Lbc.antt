-- ===== src/Lbc.antt =====
-- `LoadBalancerClassReconciler` of operator/lbc.go: gives load balancer services their addresses.
-- `cidr.HostBig`, the random source, the clock and the answers of the API server are parameters.
-- Of the API's service record, only the fields that the program reads or writes are kept.
pub mod Conflicts
mod Found
pub mod Assigned
pub mod Reports
mod Samples
use wga.Base.{
  ℕ, Bool, true, false, none, some, Option, List, [], ◌∷◌, ◌++◌, Bytes, bytes, bytes_eq, split,
  trim_space, if◌then◌else◌, is_empty, Outcome, ok, err, panic, ◌>>=◌, ◌&&◌, or_else,
}
use wga.Net.{Ip, IpNet, ip_string, parse_ip}
use wga.Index.{generate_index, mask_bits}

abbrev pub load_balancer_class_name : Bytes
load_balancer_class_name = bytes "wga.kraudcloud.com/intranet"

pub record PortStatus : Type 0 where
  pub protocol : Bytes
  pub port : ℕ

pub record LoadBalancerIngress : Type 0 where
  pub ip : Bytes
  pub ports : List PortStatus

pub record Condition : Type 0 where
  pub kind : Bytes  -- Type
  pub status : Bool
  pub observed_generation : ℕ
  pub last_transition_time : ℕ
  pub reason : Bytes
  pub message : Bytes

pub record Service : Type 0 where
  pub uid : Bytes
  pub generation : ℕ
  pub load_balancer_ips : Bytes  -- the annotation; empty if it is missing
  pub load_balancer_class : Option Bytes
  pub service_type : Bytes
  pub service_ports : List PortStatus
  pub ingress : List LoadBalancerIngress
  pub conditions : List Condition

-- `isLoadBalancerClass`; a nil pointer is `none`
unfoldable pub is_load_balancer_class : Option Service → Bool
unfolding bytes_eq
is_load_balancer_class none = false
is_load_balancer_class (some s) = elim s.load_balancer_class [
  | none ↦ false
  | some c ↦ bytes_eq c load_balancer_class_name && bytes_eq s.service_type (bytes "LoadBalancer")
]

first_is_blank : List LoadBalancerIngress → Bool
first_is_blank [] = true
first_is_blank (i ∷ rest) = is_empty i.ip

-- `hasNoIP`
unfoldable pub has_no_ip : Option Service → Bool
unfolding first_is_blank
has_no_ip none = true
has_no_ip (some s) = first_is_blank s.ingress

-- `lbcPredicate`, whose four functions are the same; an object that is no service is `none`.
unfoldable pub passes : Option Service → Bool
unfolding is_load_balancer_class has_no_ip
passes none = false
passes (some s) = is_load_balancer_class (some s) && has_no_ip (some s)

-- What the outside gives to one call.
pub record Cluster : Type 0 where
  pub host_big : IpNet → ℕ → Option Ip  -- cidr.HostBig; none is an error
  pub int64_n : ℕ → ℕ  -- rand.Int64N
  pub now : ℕ  -- time.Now, in nanoseconds
  pub services : Option (List Service)  -- List; none is an error
  pub updates : Bool  -- whether Status().Update succeeds

-- `serviceIPs` and `generated`
pub record Chosen : Type 0 where
  pub generated : Option Ip
  pub ips : List Ip

-- How the call ends, and the service as the API server has it then.
pub record Settled : Type 0 where
  pub outcome : Outcome (Unit {0})
  pub stored : Service

-- The addresses of the annotation; the first one that is none ends the call.
unfoldable pub requested : List Bytes → Outcome (List Ip)
unfolding parse_ip trim_space
requested [] = ok []
requested (text ∷ texts) =
    let rest = requested texts in
    let ip = parse_ip (trim_space text) in
    if is_empty ip then err (bytes "invalid ip") else rest >>= λ ips. ok (ip ∷ ips)

-- The first of the addresses that an entry of another service has.
unfoldable pub ingress_conflict : LoadBalancerIngress → List Ip → Option Ip
unfolding bytes_eq ip_string
ingress_conflict i [] = none
ingress_conflict i (ip ∷ ips) =
    let rest = ingress_conflict i ips in if bytes_eq i.ip (ip_string ip) then some ip else rest

unfoldable pub entries_conflict : List LoadBalancerIngress → List Ip → Option Ip
unfolding ingress_conflict
entries_conflict [] ips = none
entries_conflict (i ∷ rest) ips = or_else (ingress_conflict i ips) (entries_conflict rest ips)

unfoldable pub find_conflict : Service → List Service → List Ip → Option Ip
unfolding entries_conflict bytes_eq
find_conflict svc [] ips = none
find_conflict svc (service ∷ services) ips =
    let rest = find_conflict svc services ips in
    if bytes_eq service.uid svc.uid
    then rest
    else or_else (entries_conflict service.ingress ips) rest

unfoldable pub last_reason : List Condition → Bytes
last_reason [] = []
last_reason (c ∷ []) = c.reason
last_reason (c ∷ d ∷ cs) = last_reason (d ∷ cs)

unfoldable pub is_generated : Option Ip → Ip → Bool
unfolding bytes_eq ip_string
is_generated none ip = false
is_generated (some g) ip = bytes_eq (ip_string ip) (ip_string g)

unfoldable pub conflict_condition : Service → ℕ → Ip → Condition
unfolding ip_string
conflict_condition svc now ip = record {
  kind = bytes "Failed";
  status = false;
  observed_generation = svc.generation;
  last_transition_time = now;
  reason = bytes "InvalidLoadBalancerIP";
  message =
      bytes "The requested ip ("
      ++ (ip_string ip ++ bytes ") is already assigned to another service");
}

unfoldable pub ready_condition : Service → ℕ → Condition
ready_condition svc now = record {
  kind = bytes "Active";
  status = true;
  observed_generation = svc.generation;
  last_transition_time = now;
  reason = bytes "LoadBalancerReady";
  message = bytes "LoadBalancer is ready";
}

unfoldable pub ingress_of : List PortStatus → List Ip → List LoadBalancerIngress
unfolding ip_string
ingress_of ports [] = []
ingress_of ports (ip ∷ ips) = record { ip = ip_string ip; ports = ports } ∷ ingress_of ports ips

-- `Status().Update`, whose success is the first argument.
unfoldable pub update_status : Bool → Service → Service → Settled
update_status true before after = record { outcome = ok tt; stored = after }
update_status false before after = record {
  outcome = err (bytes "unable to update service status");
  stored = before;
}

module _ (service_nets : List IpNet) (c : Cluster) where
  pick_host : IpNet → ℕ → Outcome Chosen
  pick_host net index = elim (c.host_big net index) [
    | none ↦ err (bytes "unable to generate ip")
    | some ip ↦ ok (record { generated = some ip; ips = ip ∷ [] })
  ]

  -- `r.serviceNets[0]` panics on an empty slice.
  pick_from : List IpNet → Outcome Chosen
  unfolding pick_host
  pick_from [] = panic (bytes "index out of range")
  pick_from (net ∷ nets) = generate_index c.int64_n c.now (mask_bits net) >>= pick_host net

  unfoldable pub choose : Service → Outcome Chosen
  unfolding pick_from requested split
  choose svc =
      if is_empty svc.load_balancer_ips
      then pick_from service_nets
      else requested (split b',' svc.load_balancer_ips) >>= λ ips.
          ok (record { generated = none; ips = ips })

  -- The branch on the first conflict.
  unfoldable pub settle : Service → Chosen → Option Ip → Settled
  unfolding is_generated last_reason bytes_eq conflict_condition ready_condition ingress_of
  settle svc chosen (some ip) =
      if is_generated chosen.generated ip
      then record { outcome = err (bytes "generated ip is already assigned"); stored = svc }
      else if bytes_eq (last_reason svc.conditions) (bytes "InvalidLoadBalancerIP")
      then record { outcome = err (bytes "generated ip is already assigned"); stored = svc }
      else update_status c.updates svc
          (record svc { conditions = svc.conditions ++ (conflict_condition svc c.now ip ∷ []) })
  settle svc chosen none = update_status c.updates svc (record svc {
    ingress = svc.ingress ++ ingress_of svc.service_ports chosen.ips;
    conditions = svc.conditions ++ (ready_condition svc c.now ∷ []);
  })

  -- `services` is read only after the addresses are chosen.
  unfoldable pub assign : Service → Outcome Chosen → Option (List Service) → Settled
  unfolding settle find_conflict
  assign svc (ok chosen) (some services) = settle svc chosen (find_conflict svc services chosen.ips)
  assign svc (ok chosen) none = record {
    outcome = err (bytes "unable to list services");
    stored = svc;
  }
  assign svc (err e) services = record { outcome = err e; stored = svc }
  assign svc (panic e) services = record { outcome = panic e; stored = svc }

  -- `Reconcile`
  unfoldable pub reconcile : Service → Settled
  unfolding assign choose
  reconcile svc =
      if is_empty svc.ingress
      then assign svc (choose svc) c.services
      else record { outcome = ok tt; stored = svc }

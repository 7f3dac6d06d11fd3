-- ===== src/Lbc/Conflicts.antt =====
-- The search of `LoadBalancerClassReconciler.Reconcile` (operator/lbc.go) for another service with one of
-- the addresses.
use wga.Base.{
  subst, bytes, Bool, true, false, none, some, Option, List, [], ◌∷◌, ◌≡◌, ◌≢◌, inl, inr, Bytes,
  bytes_eq, bytes_eq_iff, is_empty, Outcome, ok, err, panic, Bool-cases, or_else, refl, ◌∙◌, ap,
}
use mathlib.Core.List.{Memᴰ}
use wga.Net.{Ip, IpNet, ip_string}
use wga.Lbc.{
  is_generated, last_reason, LoadBalancerIngress, PortStatus, Service, Cluster, Chosen, reconcile,
  assign, settle, update_status, choose, find_conflict, entries_conflict, ingress_conflict,
  ingress_of,
}

-- An entry of another one of the services has this text.
pub record IsTaken (svc : Service) (services : List Service) (text : Bytes) : Type 0 where
  pub other : Service
  pub listed : Memᴰ other services
  pub differs : other.uid ≢ svc.uid
  pub entry : LoadBalancerIngress
  pub among : Memᴰ entry other.ingress
  pub same : entry.ip ≡ text

ingress_conflict-head :
    (i : LoadBalancerIngress) (x : Ip) (ips : List Ip)
    → ingress_conflict i (x ∷ ips) ≡ none
    → (i.ip ≢ ip_string x) × (ingress_conflict i ips ≡ none)
unfolding ingress_conflict
ingress_conflict-head i x ips e = elim (Bool-cases (bytes_eq i.ip (ip_string x))) [
  | inl equal ↦ cc (simp equal at e)
  | inr differs ↦
      ((λ same. cc (differs, (bytes_eq_iff i.ip (ip_string x)).1 same)), simp differs at e)
]

ingress_conflict-none :
    (i : LoadBalancerIngress) (ips : List Ip) (ip : Ip)
    → ingress_conflict i ips ≡ none
    → Memᴰ ip ips
    → i.ip ≢ ip_string ip
ingress_conflict-none i [] ip e m = elim m [ ]
ingress_conflict-none i (x ∷ ips) ip e (Memᴰ.head h) = rw h (ingress_conflict-head i x ips e).0
ingress_conflict-none i (x ∷ ips) ip e (Memᴰ.tail l) =
    ingress_conflict-none i ips ip (ingress_conflict-head i x ips e).1 l

or_else-none : {A : Type 0} (o p : Option A) → or_else o p ≡ none → (o ≡ none) × (p ≡ none)
or_else-none none p e = (refl, e)
or_else-none (some a) p e = cc

entries_conflict-none :
    (entries : List LoadBalancerIngress) (ips : List Ip) (i : LoadBalancerIngress) (ip : Ip)
    → entries_conflict entries ips ≡ none
    → Memᴰ i entries
    → Memᴰ ip ips
    → i.ip ≢ ip_string ip
unfolding entries_conflict
entries_conflict-none [] ips i ip none_found m l = elim m [ ]
entries_conflict-none (x ∷ entries) ips i ip none_found (Memᴰ.head e) l =
    let (here, rest) = or_else-none _ _ none_found in rw e (ingress_conflict-none x ips ip here l)
entries_conflict-none (x ∷ entries) ips i ip none_found (Memᴰ.tail m) l =
    let (here, rest) = or_else-none _ _ none_found in
    entries_conflict-none entries ips i ip rest m l

find_conflict-head :
    (svc x : Service) (services : List Service) (ips : List Ip)
    → find_conflict svc (x ∷ services) ips ≡ none
    → (x.uid ≢ svc.uid → entries_conflict x.ingress ips ≡ none)
      × (find_conflict svc services ips ≡ none)
unfolding find_conflict
find_conflict-head svc x services ips e = elim (Bool-cases (bytes_eq x.uid svc.uid)) [
  | inl own ↦ ((λ differs. absurd (differs ((bytes_eq_iff x.uid svc.uid).0 own))), simp own at e)
  | inr other ↦ let (here, rest) = or_else-none _ _ (simp other at e) in ((λ differs. here), rest)
]

entries-free :
    (svc : Service) (services : List Service) (ips : List Ip) (other : Service)
    → find_conflict svc services ips ≡ none
    → Memᴰ other services
    → other.uid ≢ svc.uid
    → entries_conflict other.ingress ips ≡ none
entries-free svc [] ips other e m differs = elim m [ ]
entries-free svc (x ∷ services) ips other e (Memᴰ.head h) differs =
    simp h ((find_conflict-head svc x services ips e).0 (simp h at differs))
entries-free svc (x ∷ services) ips other e (Memᴰ.tail m) differs =
    entries-free svc services ips other (find_conflict-head svc x services ips e).1 m differs

pub find_conflict-none :
    (svc : Service) (services : List Service) (ips : List Ip) (ip : Ip)
    → find_conflict svc services ips ≡ none
    → Memᴰ ip ips
    → ¬ IsTaken svc services (ip_string ip)
find_conflict-none svc services ips ip e l taken =
    let free = entries-free svc services ips taken.other e taken.listed taken.differs in
    entries_conflict-none taken.other.ingress ips taken.entry ip free taken.among l taken.same

mem-ingress_of :
    (ports : List PortStatus) (ips : List Ip) (i : LoadBalancerIngress)
    → Memᴰ i (ingress_of ports ips)
    → (ip : Ip) × Memᴰ ip ips × (i.ip ≡ ip_string ip)
unfolding ingress_of
mem-ingress_of ports [] i m = elim m [ ]
mem-ingress_of ports (ip ∷ ips) i (Memᴰ.head e) = (ip, Memᴰ.head refl, ap (λ t. t.ip) e)
mem-ingress_of ports (ip ∷ ips) i (Memᴰ.tail m) =
    let (ip', l, same) = mem-ingress_of ports ips i m in (ip', Memᴰ.tail l, same)

no-mem : (i : LoadBalancerIngress) → ¬ Memᴰ i []
no-mem i m = elim m [ ]

module _ (service_nets : List IpNet) (c : Cluster) where
  mem-update_status :
      (updates : Bool) (before after : Service) (i : LoadBalancerIngress)
      → before.ingress ≡ []
      → Memᴰ i (update_status updates before after).stored.ingress
      → Memᴰ i after.ingress
  unfolding update_status
  mem-update_status true before after i none_yet m = m
  mem-update_status false before after i none_yet m = elim (rw none_yet at m) [ ]

  update_status-ingress :
      (updates : Bool) (before after : Service)
      → after.ingress ≡ before.ingress
      → (update_status updates before after).stored.ingress ≡ before.ingress
  unfolding update_status
  update_status-ingress true before after same = same
  update_status-ingress false before after same = refl

  settle-conflict :
      (svc : Service) (chosen : Chosen) (ip : Ip)
      → (settle service_nets c svc chosen (some ip)).stored.ingress ≡ svc.ingress
  unfolding settle
  settle-conflict svc chosen ip = elim (Bool-cases (is_generated chosen.generated ip)) [
    | inl ours ↦ simp ours
    | inr asked ↦
        elim (Bool-cases (bytes_eq (last_reason svc.conditions) (bytes "InvalidLoadBalancerIP"))) [
          | inl again ↦ simp (asked, again)
          | inr first ↦ simp (asked, first) (update_status-ingress c.updates svc _ refl)
        ]
  ]

  mem-settle :
      (svc : Service) (chosen : Chosen) (o : Option Ip) (i : LoadBalancerIngress)
      → svc.ingress ≡ []
      → Memᴰ i (settle service_nets c svc chosen o).stored.ingress
      → (o ≡ none) × Memᴰ i (ingress_of svc.service_ports chosen.ips)
  unfolding settle
  mem-settle svc chosen none i none_yet m =
      let added = mem-update_status c.updates svc _ i none_yet m in (refl, rw none_yet at added)
  mem-settle svc chosen (some ip) i none_yet m =
      absurd (no-mem i (subst (Memᴰ i) (settle-conflict svc chosen ip ∙ none_yet) m))

  mem-assign :
      (svc : Service) (o : Outcome Chosen) (services : List Service) (i : LoadBalancerIngress)
      → svc.ingress ≡ []
      → Memᴰ i (assign service_nets c svc o (some services)).stored.ingress
      → ¬ IsTaken svc services i.ip
  unfolding assign
  mem-assign svc (ok chosen) services i none_yet m taken =
      let (free, added) = mem-settle svc chosen _ i none_yet m in
      let (ip, l, same) = mem-ingress_of svc.service_ports chosen.ips i added in
      find_conflict-none svc services chosen.ips ip free l (subst (IsTaken svc services) same taken)
  mem-assign svc (err e) services i none_yet m taken = no-mem i (subst (Memᴰ i) none_yet m)
  mem-assign svc (panic e) services i none_yet m taken = no-mem i (subst (Memᴰ i) none_yet m)

  pub reconcile-assign :
      (svc : Service) (services : List Service)
      → is_empty svc.ingress ≡ true
      → c.services ≡ some services
      → reconcile service_nets c svc
        ≡ assign service_nets c svc (choose service_nets c svc) (some services)
  unfolding reconcile
  reconcile-assign svc services none_yet listed = rw (none_yet, listed) refl

  -- Whatever the networks, the random source and the annotation: when a service without an address
  -- is reconciled, no address it has afterwards is one of another listed service's.
  pub reconcile-IsFree :
      (svc : Service) (services : List Service) (i : LoadBalancerIngress)
      → svc.ingress ≡ []
      → c.services ≡ some services
      → Memᴰ i (reconcile service_nets c svc).stored.ingress
      → ¬ IsTaken svc services i.ip
  reconcile-IsFree svc services i none_yet listed m =
      mem-assign svc (choose service_nets c svc) services i none_yet (
        subst (λ s. Memᴰ i s.stored.ingress)
          (reconcile-assign svc services (ap is_empty none_yet) listed) m)

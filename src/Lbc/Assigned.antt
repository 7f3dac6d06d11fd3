-- ===== src/Lbc/Assigned.antt =====
-- What a service that asks for addresses is given.
use wga.Base.{
  true, false, none, some, Option, List, [], ◌∷◌, ◌++◌, ◌≡◌, Bytes, is_empty, split, trim_space, ok,
  refl, sym, ◌∙◌, ap, subst, map, Option-cases, inl, inr,
}
use mathlib.Core.List.{Memᴰ}
use wga.Net.{Ip, IpNet, ip_string, parse_ip}
use wga.Lbc.{
  Service, Cluster, Chosen, Settled, reconcile, assign, settle, update_status, choose,
  find_conflict, requested, ingress_of, ready_condition, LoadBalancerIngress, PortStatus,
}
use wga.Lbc.Conflicts.{reconcile-assign, IsTaken}
use wga.Lbc.Found.{find_conflict-some}

-- The addresses of the annotation, by their texts.
abbrev pub asked_texts : Service → List Bytes
asked_texts svc = split b',' svc.load_balancer_ips

abbrev pub parsed : Bytes → Ip
parsed text = parse_ip (trim_space text)

-- Every part of the annotation is an address.
abbrev pub AreAddresses : List Bytes → Type 0
AreAddresses texts = (text : Bytes) → Memᴰ text texts → is_empty (parsed text) ≡ false

requested-map : (texts : List Bytes) → AreAddresses texts → requested texts ≡ ok (map parsed texts)
unfolding requested
requested-map [] good = refl
requested-map (text ∷ texts) good =
    let here = good text (Memᴰ.head refl) in
    let rest = requested-map texts (λ t m. good t (Memᴰ.tail m)) in rw (here, rest) refl

-- The service has no address yet, asks for some, and every part of its annotation is one.
pub record Asks (svc : Service) : Type 0 where
  pub none_yet : is_empty svc.ingress ≡ true
  pub asks : is_empty svc.load_balancer_ips ≡ false
  pub good : AreAddresses (asked_texts svc)

unfoldable pub asked : Service → Chosen
asked svc = record { generated = none; ips = map parsed (asked_texts svc) }

texts-ingress_of :
    (ports : List PortStatus) (texts : List Bytes)
    → map (λ i. i.ip) (ingress_of ports (map parsed texts))
      ≡ map (λ text. ip_string (parsed text)) texts
unfolding ingress_of
texts-ingress_of ports [] = refl
texts-ingress_of ports (text ∷ texts) =
    ap (◌∷◌ (ip_string (parsed text))) (texts-ingress_of ports texts)

ports-ingress_of :
    (ports : List PortStatus) (ips : List Ip) (i : LoadBalancerIngress)
    → Memᴰ i (ingress_of ports ips)
    → i.ports ≡ ports
unfolding ingress_of
ports-ingress_of ports [] i m = elim m [ ]
ports-ingress_of ports (ip ∷ ips) i (Memᴰ.head e) = ap (λ t. t.ports) e
ports-ingress_of ports (ip ∷ ips) i (Memᴰ.tail m) = ports-ingress_of ports ips i m

empty_list : {A : Type 0} (xs : List A) → is_empty xs ≡ true → xs ≡ []
empty_list [] e = refl
empty_list (x ∷ xs) e = cc

-- Each of the asked addresses is free: no entry of another listed service has its text.
abbrev pub AreFree : Service → List Service → Type 0
AreFree svc services =
    (ip : Ip) → Memᴰ ip (map parsed (asked_texts svc)) → ¬ IsTaken svc services (ip_string ip)

no_conflict :
    (svc : Service) (services : List Service)
    → AreFree svc services
    → find_conflict svc services (map parsed (asked_texts svc)) ≡ none
no_conflict svc services free =
    elim (Option-cases (find_conflict svc services (map parsed (asked_texts svc)))) [
      | inl none_found ↦ none_found
      | inr found ↦
          let (ip, e) = found in
          let (l, taken) = find_conflict-some svc services _ ip e in absurd (free ip l taken)
    ]

module _ (service_nets : List IpNet) (c : Cluster) where
  choose-asked : (svc : Service) → Asks svc → choose service_nets c svc ≡ ok (asked svc)
  unfolding choose asked
  choose-asked svc a = rw (a.asks, requested-map (asked_texts svc) a.good) refl

  pub reconcile-settle :
      (svc : Service) (services : List Service) (o : Option Ip)
      → Asks svc
      → find_conflict svc services (map parsed (asked_texts svc)) ≡ o
      → c.services ≡ some services
      → reconcile service_nets c svc ≡ settle service_nets c svc (asked svc) o
  unfolding assign asked
  reconcile-settle svc services o a found listed =
      reconcile-assign service_nets c svc services a.none_yet listed
      ∙ ap (λ o. assign service_nets c svc o (some services)) (choose-asked svc a)
      ∙ ap (settle service_nets c svc (asked svc)) found

  -- The call succeeded: the entries are the asked addresses in their order, each with all the
  -- ports, and the service is marked ready.
  abbrev pub IsReady : Service → Settled → Type 0
  IsReady svc after =
      (after.outcome ≡ ok tt)
      × (map (λ i. i.ip) after.stored.ingress
          ≡ map (λ text. ip_string (parsed text)) (asked_texts svc))
      × ((i : LoadBalancerIngress) → Memᴰ i after.stored.ingress → i.ports ≡ svc.service_ports)
      × (after.stored.conditions ≡ svc.conditions ++ (ready_condition svc c.now ∷ []))

  update_status-IsReady :
      (svc : Service) (before after : Service)
      → map (λ i. i.ip) after.ingress ≡ map (λ text. ip_string (parsed text)) (asked_texts svc)
      → ((i : LoadBalancerIngress) → Memᴰ i after.ingress → i.ports ≡ svc.service_ports)
      → after.conditions ≡ svc.conditions ++ (ready_condition svc c.now ∷ [])
      → IsReady svc (update_status true before after)
  unfolding update_status
  update_status-IsReady svc before after texts ports conditions = (refl, texts, ports, conditions)

  settle-IsReady :
      (svc : Service)
      → svc.ingress ≡ []
      → c.updates ≡ true
      → IsReady svc (settle service_nets c svc (asked svc) none)
  unfolding settle asked
  settle-IsReady svc none_yet updates = simp (updates) (
      update_status-IsReady svc svc _
        (rw none_yet (texts-ingress_of svc.service_ports (asked_texts svc)))
        (λ i m. ports-ingress_of svc.service_ports _ i (rw none_yet at m)) refl)

  -- A service that asks for free addresses, when the Update succeeds, gets an entry for each of
  -- them, in the order of the annotation, each with all its ports, and one condition more, which
  -- says that it is ready.
  pub reconcile-AreFree :
      (svc : Service) (services : List Service)
      → Asks svc
      → c.services ≡ some services
      → AreFree svc services
      → c.updates ≡ true
      → IsReady svc (reconcile service_nets c svc)
  reconcile-AreFree svc services a listed free updates =
      let none_found = no_conflict svc services free in
      let p = reconcile-settle svc services none a none_found listed in
      subst (IsReady svc) (sym p) (settle-IsReady svc (empty_list svc.ingress a.none_yet) updates)

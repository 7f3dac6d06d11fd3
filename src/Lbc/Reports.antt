-- ===== src/Lbc/Reports.antt =====
-- What happens when a service asks for an address that another one has.
use wga.Base.{
  true, false, some, List, [], ◌∷◌, ◌++◌, ◌≡◌, bytes, bytes_eq, bytes_eq_refl, ok, err,
  Option-cases, refl, ◌∙◌, map, inl, inr, ℕ,
}
use mathlib.Core.List.{Memᴰ}
use wga.Net.{Ip, IpNet, ip_string}
use wga.Lbc.{
  Service, Cluster, Condition, reconcile, settle, update_status, find_conflict, conflict_condition,
  last_reason, is_generated,
}
use wga.Lbc.Conflicts.{IsTaken, find_conflict-none}
use wga.Lbc.Found.{find_conflict-some}
use wga.Lbc.Assigned.{Asks, asked, asked_texts, parsed, reconcile-settle}

last_reason-append : (cs : List Condition) (c : Condition) → last_reason (cs ++ (c ∷ [])) ≡ c.reason
unfolding last_reason
last_reason-append [] c = refl
last_reason-append (a ∷ []) c = refl
last_reason-append (a ∷ b ∷ cs) c = last_reason-append (b ∷ cs) c

-- One of the addresses that the service asks for is another listed service's.
abbrev pub IsContested : Service → List Service → Type 0
IsContested svc services =
    (ip : Ip) × Memᴰ ip (map parsed (asked_texts svc)) × IsTaken svc services (ip_string ip)

-- The service with one condition more.
abbrev pub with_condition : Service → Condition → Service
with_condition svc condition = record svc { conditions = svc.conditions ++ (condition ∷ []) }

contested-find_conflict :
    (svc : Service) (services : List Service)
    → IsContested svc services
    → (ip : Ip) × (find_conflict svc services (map parsed (asked_texts svc)) ≡ some ip)
contested-find_conflict svc services (ip, l, taken) =
    elim (Option-cases (find_conflict svc services (map parsed (asked_texts svc)))) [
      | inl none_found ↦ absurd (find_conflict-none svc services _ ip none_found l taken)
      | inr found ↦ found
    ]

module _ (service_nets : List IpNet) (c : Cluster) where
  settle-first :
      (svc : Service) (ip : Ip)
      → bytes_eq (last_reason svc.conditions) (bytes "InvalidLoadBalancerIP") ≡ false
      → c.updates ≡ true
      → settle service_nets c svc (asked svc) (some ip)
        ≡ record { outcome = ok tt; stored = with_condition svc (conflict_condition svc c.now ip) }
  unfolding settle asked is_generated update_status
  settle-first svc ip first updates = simp (first, updates)

  settle-again :
      (svc : Service) (ip : Ip)
      → last_reason svc.conditions ≡ bytes "InvalidLoadBalancerIP"
      → settle service_nets c svc (asked svc) (some ip)
        ≡ record { outcome = err (bytes "generated ip is already assigned"); stored = svc }
  unfolding settle asked is_generated
  settle-again svc ip again =
      let equal : bytes_eq (last_reason svc.conditions) (bytes "InvalidLoadBalancerIP") ≡ true =
        rw again (bytes_eq_refl (bytes "InvalidLoadBalancerIP")) in
      simp equal

  -- A service asks for an address that another one has, and its last condition does not say so yet:
  -- the call returns no error and only appends the condition that names one such address.
  pub reconcile-IsContested :
      (svc : Service) (services : List Service)
      → Asks svc
      → c.services ≡ some services
      → IsContested svc services
      → bytes_eq (last_reason svc.conditions) (bytes "InvalidLoadBalancerIP") ≡ false
      → c.updates ≡ true
      → (ip : Ip) × Memᴰ ip (map parsed (asked_texts svc))
        × IsTaken svc services (ip_string ip)
        × (reconcile service_nets c svc ≡ record {
          outcome = ok tt;
          stored = with_condition svc (conflict_condition svc c.now ip);
        })
  reconcile-IsContested svc services a listed contested first updates =
      let (ip, found) = contested-find_conflict svc services contested in
      let (l, taken) = find_conflict-some svc services _ ip found in
      (
        ip,
        l,
        taken,
        reconcile-settle service_nets c svc services (some ip) a found listed
            ∙ settle-first svc ip first updates,
      )

-- Once the conflict is reported, any later call, as long as one of the addresses is another
-- service's, returns an error and appends no second condition.
pub reconcile-with_condition :
    (service_nets : List IpNet) (c : Cluster) (svc : Service) (services : List Service) (now : ℕ)
    (ip : Ip)
    → let reported = with_condition svc (conflict_condition svc now ip) in
      Asks svc
      → c.services ≡ some services
      → IsContested reported services
      → reconcile service_nets c reported
        ≡ record { outcome = err (bytes "generated ip is already assigned"); stored = reported }
unfolding conflict_condition
reconcile-with_condition service_nets c svc services now ip a listed contested =
    let reported = with_condition svc (conflict_condition svc now ip) in
    let (other, found) = contested-find_conflict reported services contested in
    let a' : Asks reported = record { none_yet = a.none_yet; asks = a.asks; good = a.good } in
    reconcile-settle service_nets c reported services (some other) a' found listed
    ∙ settle-again service_nets c reported other (last_reason-append svc.conditions _)

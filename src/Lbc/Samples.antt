-- ===== src/Lbc/Samples.antt =====
-- `Reconcile` at concrete inputs: two services, one of which has an address.
use wga.Base.{
  split, trim_space, true, false, none, some, List, [], ◌∷◌, ◌≡◌, Bytes, bytes, bytes_eq, ok, err,
  refl, map,
}
use mathlib.Core.List.{Memᴰ}
use wga.Net.{Ip, ip_string, parse_ip}
use wga.Lbc.{
  update_status, LoadBalancerIngress, PortStatus, Service, Cluster, reconcile, find_conflict,
  conflict_condition, passes, last_reason, load_balancer_class_name,
}
use wga.Lbc.Conflicts.{find_conflict-none, IsTaken, reconcile-IsFree}
use wga.Lbc.Found.{find_conflict-some}
use wga.Lbc.Assigned.{Asks, AreAddresses, AreFree, IsReady, asked_texts, parsed, reconcile-AreFree}
use wga.Lbc.Reports.{IsContested, with_condition, reconcile-IsContested, reconcile-with_condition}

abbrev web_ports : List PortStatus
web_ports = record { protocol = bytes "TCP"; port = 80 } ∷ []

abbrev service : Bytes → Bytes → List LoadBalancerIngress → Service
service uid ips ingress = record {
  uid = uid;
  generation = 1;
  load_balancer_ips = ips;
  load_balancer_class = some load_balancer_class_name;
  service_type = bytes "LoadBalancer";
  service_ports = web_ports;
  ingress = ingress;
  conditions = [];
}

abbrev entry : LoadBalancerIngress
entry = record { ip = bytes "10.1.0.1"; ports = web_ports }

abbrev other : Service
other = service (bytes "a") [] (entry ∷ [])

abbrev asks_free : Service
asks_free = service (bytes "b") (bytes "10.1.0.2, fd00::2") []

abbrev asks_taken : Service
asks_taken = service (bytes "b") (bytes "10.1.0.2,10.1.0.1") []

abbrev cluster : List Service → Cluster
cluster services = record {
  host_big = λ net i. some net.ip;
  int64_n = λ n. 0;
  now = 1704067200000000000;
  services = some services;
  updates = true;
}

is_passed : (passes (some asks_free) ≡ true) × (passes (some other) ≡ false) × (passes none ≡ false)
unfolding passes
is_passed = (refl, refl, refl)

free_entries :
    map (λ i. i.ip) (reconcile [] (cluster (other ∷ asks_free ∷ [])) asks_free).stored.ingress
    ≡ bytes "10.1.0.2" ∷ bytes "fd00::2" ∷ []
unfolding reconcile update_status
free_entries = refl

abbrev all_services : List Service
all_services = other ∷ asks_free ∷ []

abbrev first_entry : LoadBalancerIngress
first_entry = record { ip = bytes "10.1.0.2"; ports = web_ports }

first_listed : Memᴰ first_entry (reconcile [] (cluster all_services) asks_free).stored.ingress
unfolding reconcile update_status
first_listed = Memᴰ.head refl

reconcile-IsFree_example : ¬ IsTaken asks_free all_services (bytes "10.1.0.2")
reconcile-IsFree_example =
    reconcile-IsFree [] (cluster all_services) asks_free all_services first_entry refl refl
      first_listed

free_good : AreAddresses (asked_texts asks_free)
unfolding split trim_space parse_ip
free_good t (Memᴰ.head e) = rw e refl
free_good t (Memᴰ.tail (Memᴰ.head e)) = rw e refl
free_good t (Memᴰ.tail (Memᴰ.tail m)) = elim m [ ]

free_Asks : Asks asks_free
free_Asks = record { none_yet = refl; asks = refl; good = free_good }

nothing_found : find_conflict asks_free all_services (map parsed (asked_texts asks_free)) ≡ none
unfolding find_conflict split trim_space parse_ip ip_string bytes_eq
nothing_found = refl

free_AreFree : AreFree asks_free all_services
free_AreFree ip l = find_conflict-none asks_free all_services _ ip nothing_found l

reconcile-AreFree_example :
    IsReady [] (cluster all_services) asks_free (reconcile [] (cluster all_services) asks_free)
reconcile-AreFree_example =
    reconcile-AreFree [] (cluster all_services) asks_free all_services free_Asks refl free_AreFree
      refl

taken_good : AreAddresses (asked_texts asks_taken)
unfolding split trim_space parse_ip
taken_good t (Memᴰ.head e) = rw e refl
taken_good t (Memᴰ.tail (Memᴰ.head e)) = rw e refl
taken_good t (Memᴰ.tail (Memᴰ.tail m)) = elim m [ ]

taken_Asks : Asks asks_taken
taken_Asks = record { none_yet = refl; asks = refl; good = taken_good }

abbrev taken_ip : Ip
taken_ip = parsed (bytes "10.1.0.1")

one_found :
    find_conflict asks_taken all_services (map parsed (asked_texts asks_taken)) ≡ some taken_ip
unfolding find_conflict split trim_space parse_ip ip_string bytes_eq
one_found = refl

taken_IsContested : IsContested asks_taken all_services
taken_IsContested =
    let (l, taken) = find_conflict-some asks_taken all_services _ taken_ip one_found in
    (taken_ip, l, taken)

reconcile-IsContested_example :
    (ip : Ip) × Memᴰ ip (map parsed (asked_texts asks_taken))
    × IsTaken asks_taken all_services (ip_string ip)
    × (reconcile [] (cluster all_services) asks_taken ≡ record {
      outcome = ok tt;
      stored =
          with_condition asks_taken (conflict_condition asks_taken (cluster all_services).now ip);
    })
unfolding bytes_eq last_reason
reconcile-IsContested_example =
    reconcile-IsContested [] (cluster all_services) asks_taken all_services taken_Asks refl
      taken_IsContested refl refl

abbrev reported : Service
reported = with_condition asks_taken (conflict_condition asks_taken 5 taken_ip)

one_found_again :
    find_conflict reported all_services (map parsed (asked_texts reported)) ≡ some taken_ip
unfolding find_conflict split trim_space parse_ip ip_string bytes_eq
one_found_again = refl

reported-IsContested : IsContested reported all_services
reported-IsContested =
    let (l, taken) = find_conflict-some reported all_services _ taken_ip one_found_again in
    (taken_ip, l, taken)

reconcile-with_condition_example :
    reconcile [] (cluster all_services) reported
    ≡ record { outcome = err (bytes "generated ip is already assigned"); stored = reported }
reconcile-with_condition_example =
    reconcile-with_condition [] (cluster all_services) asks_taken all_services 5 taken_ip taken_Asks
      refl reported-IsContested

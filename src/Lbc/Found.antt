-- ===== src/Lbc/Found.antt =====
-- A conflict that is found is one.
use wga.Base.{
  none, some, Option, List, [], ◌∷◌, ◌≡◌, ◌⊎◌, inl, inr, Bytes, bytes_eq, bytes_eq_iff, Bool-cases,
  or_else, refl, ◌∙◌, ap, sym,
}
use mathlib.Core.List.{Memᴰ}
use mathlib.Core.Bool.{true≢false}
use wga.Net.{Ip, ip_string}
use wga.Lbc.{LoadBalancerIngress, Service, find_conflict, entries_conflict, ingress_conflict}
use wga.Lbc.Conflicts.{IsTaken}

or_else-some :
    {A : Type 0} (o p : Option A) {a : A} → or_else o p ≡ some a → (o ≡ some a) ⊎ (p ≡ some a)
or_else-some none p e = inr e
or_else-some (some b) p e = inl e

ingress_conflict-some :
    (i : LoadBalancerIngress) (ips : List Ip) (ip : Ip)
    → ingress_conflict i ips ≡ some ip
    → Memᴰ ip ips × (i.ip ≡ ip_string ip)
unfolding ingress_conflict
ingress_conflict-some i [] ip e = cc
ingress_conflict-some i (x ∷ ips) ip e = elim (Bool-cases (bytes_eq i.ip (ip_string x))) [
  | inl equal ↦
      let same : x ≡ ip = cc (simp equal at e) in
      (Memᴰ.head (sym same), (bytes_eq_iff i.ip (ip_string x)).0 equal ∙ ap ip_string same)
  | inr differs ↦
      let (l, same) = ingress_conflict-some i ips ip (simp differs at e) in (Memᴰ.tail l, same)
]

entries_conflict-some :
    (entries : List LoadBalancerIngress) (ips : List Ip) (ip : Ip)
    → entries_conflict entries ips ≡ some ip
    → Memᴰ ip ips × (i : LoadBalancerIngress) × Memᴰ i entries × (i.ip ≡ ip_string ip)
unfolding entries_conflict
entries_conflict-some [] ips ip e = cc
entries_conflict-some (x ∷ entries) ips ip e = elim (or_else-some _ _ e) [
  | inl here ↦ let (l, same) = ingress_conflict-some x ips ip here in (l, x, Memᴰ.head refl, same)
  | inr later ↦
      let (l, i, m, same) = entries_conflict-some entries ips ip later in (l, i, Memᴰ.tail m, same)
]

later-IsTaken :
    (svc x : Service) (services : List Service) (text : Bytes)
    → IsTaken svc services text
    → IsTaken svc (x ∷ services) text
later-IsTaken svc x services text taken = record {
  other = taken.other;
  listed = Memᴰ.tail taken.listed;
  differs = taken.differs;
  entry = taken.entry;
  among = taken.among;
  same = taken.same;
}

pub find_conflict-some :
    (svc : Service) (services : List Service) (ips : List Ip) (ip : Ip)
    → find_conflict svc services ips ≡ some ip
    → Memᴰ ip ips × IsTaken svc services (ip_string ip)
unfolding find_conflict
find_conflict-some svc [] ips ip e = cc
find_conflict-some svc (x ∷ services) ips ip e = elim (Bool-cases (bytes_eq x.uid svc.uid)) [
  | inl own ↦
      let (l, taken) = find_conflict-some svc services ips ip (simp own at e) in
      (l, later-IsTaken svc x services _ taken)
  | inr other ↦ elim (or_else-some _ _ (simp other at e)) [
    | inl here ↦
        let (l, i, m, same) = entries_conflict-some x.ingress ips ip here in
        (
          l,
          record {
            other = x;
            listed = Memᴰ.head refl;
            differs = λ equal. true≢false (sym ((bytes_eq_iff x.uid svc.uid).1 equal) ∙ other);
            entry = i;
            among = m;
            same = same;
          },
        )
    | inr rest ↦
        let (l, taken) = find_conflict-some svc services ips ip rest in
        (l, later-IsTaken svc x services _ taken)
  ]
]

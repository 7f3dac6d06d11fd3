-- ===== src/Nft/Stale.antt =====
-- Which rules of the chain a sync deletes.
use wga.Base.{
  false, some, inl, inr, List, [], ◌∷◌, ◌≡◌, ◌≢◌, refl, sym, ap, ◌∙◌, ok, Assoc, Bytes, lookup,
  insert, lookup-insert, bytes_eq, bytes_eq_iff, Bool-cases, ◌⊎◌, ◌↔◌, IsMap, IsMap-insert,
  lookup-mem, mem-lookup, contains, subst,
}
use mathlib.Core.List.{Memᴰ}
use wga.Api.{FetchedConfig}
use wga.Nft.{Answers, Effects, nft_sync, NftRule, rule_map, rule_map_from}
use wga.Nft.Wants.{Want, want_comment}
use wga.Nft.Grants.{IsAsked}
use wga.Nft.Guarantees.{nft_sync-stale}

abbrev HasOther : Bytes → List NftRule → Type 0
HasOther ud rules = (q : NftRule) → Memᴰ q rules → q.user_data ≢ ud

-- The rule is in the list, and no rule after it has its user data.
pub data IsLast (r : NftRule) : List NftRule → Type 0 where
  here : {rules : List NftRule} → HasOther r.user_data rules → IsLast r (r ∷ rules)
  later : {q : NftRule} {rules : List NftRule} → IsLast r rules → IsLast r (q ∷ rules)

more-HasOther :
    {ud : Bytes} {q : NftRule} {rules : List NftRule}
    → q.user_data ≢ ud
    → HasOther ud rules
    → HasOther ud (q ∷ rules)
more-HasOther differs h x (Memᴰ.head e) same = differs (ap (λ y. y.user_data) (sym e) ∙ same)
more-HasOther differs h x (Memᴰ.tail m) same = h x m same

rule_map_from-IsMap :
    (m : Assoc NftRule) (rules : List NftRule) → IsMap m → IsMap (rule_map_from m rules)
unfolding rule_map_from
rule_map_from-IsMap m [] h = h
rule_map_from-IsMap m (r ∷ rules) h =
    rule_map_from-IsMap (insert r.user_data r m) rules (IsMap-insert r.user_data r m h)

lookup-rule_map_from :
    (m : Assoc NftRule) (rules : List NftRule) (ud : Bytes) (r : NftRule)
    → lookup ud (rule_map_from m rules) ≡ some r
    → (IsLast r rules × (r.user_data ≡ ud)) ⊎ ((lookup ud m ≡ some r) × HasOther ud rules)
unfolding rule_map_from
lookup-rule_map_from m [] ud r e = inr (e, λ q n. elim n [ ])
lookup-rule_map_from m (q ∷ rules) ud r e =
    elim (lookup-rule_map_from (insert q.user_data q m) rules ud r e) [
      | inl last ↦ inl (later last.0, last.1)
      | inr before ↦ elim (Bool-cases (bytes_eq q.user_data ud)) [
        | inl same ↦
            let its : q ≡ r = cc (lookup-insert q.user_data ud q m, same, before.0) in
            let named : q.user_data ≡ ud = (bytes_eq_iff q.user_data ud).0 same in
            inl (
              subst (λ x. IsLast x (q ∷ rules)) its (here (λ x n eq. before.1 x n (eq ∙ named))),
              ap (λ x. x.user_data) (sym its) ∙ named,
            )
        | inr differs ↦ inr (
          cc (lookup-insert q.user_data ud q m, differs, before.0),
          more-HasOther (λ eq. cc (differs, (bytes_eq_iff q.user_data ud).1 eq)) before.1,
        )
      ]
    ]

lookup-others :
    (m : Assoc NftRule) (rules : List NftRule) (ud : Bytes)
    → HasOther ud rules
    → lookup ud (rule_map_from m rules) ≡ lookup ud m
unfolding rule_map_from
lookup-others m [] ud h = refl
lookup-others m (q ∷ rules) ud h =
    let differs : bytes_eq q.user_data ud ≡ false = elim (Bool-cases (bytes_eq q.user_data ud)) [
      | inl same ↦ absurd (h q (Memᴰ.head refl) ((bytes_eq_iff q.user_data ud).0 same))
      | inr other ↦ other
    ] in
    lookup-others (insert q.user_data q m) rules ud (λ x n. h x (Memᴰ.tail n))
    ∙ cc (lookup-insert q.user_data ud q m, differs)

IsLast-lookup :
    (m : Assoc NftRule) (rules : List NftRule) (r : NftRule)
    → IsLast r rules
    → lookup r.user_data (rule_map_from m rules) ≡ some r
unfolding rule_map_from
IsLast-lookup m [] r last = elim last [ ]
IsLast-lookup m (q ∷ rules) r (here others) =
    lookup-others (insert r.user_data r m) rules r.user_data others
    ∙ cc (lookup-insert r.user_data r.user_data r m, (bytes_eq_iff r.user_data r.user_data).1 refl)
IsLast-lookup m (q ∷ rules) r (later last) = IsLast-lookup (insert q.user_data q m) rules r last

pub mem-rule_map :
    (rules : List NftRule) (r : NftRule) → Memᴰ (r.user_data, r) (rule_map rules) ↔ IsLast r rules
unfolding rule_map lookup
mem-rule_map rules r =
    let distinct = rule_map_from-IsMap [] rules tt in
    (
      λ m.
          elim (lookup-rule_map_from [] rules r.user_data r
            (lookup-mem (r.user_data, r) (rule_map_from [] rules) distinct m)) [
              | inl last ↦ last.0
              | inr nothing ↦ cc (nothing.0)
            ],
      λ last. mem-lookup r.user_data r (rule_map_from [] rules) (IsLast-lookup [] rules r last),
    )

-- A sync that returns deletes a rule of the chain exactly when its user data holds the comment of no
-- rule that the configuration asks for, and no later rule of the chain has the same user data: of
-- several such rules with one user data, only the last is deleted.
pub nft_sync-IsLast :
    (a : Answers) (config : FetchedConfig) (device : Bytes) (eff : Effects) (rules : List NftRule)
    (r : NftRule)
    → nft_sync a config device ≡ ok eff
    → a.rules ≡ some rules
    → Memᴰ (r.user_data, r) eff.stale ↔ (
        IsLast r rules
        × ((w : Want) → IsAsked config w → contains r.user_data (want_comment w) ≡ false))
nft_sync-IsLast a config device eff rules r returned read =
    let stale = nft_sync-stale a config device eff returned rules (r.user_data, r) read in
    let last = mem-rule_map rules r in
    (λ m. let (there, free) = stale.0 m in (last.0 there, free), λ h. stale.1 (last.1 h.0, h.1))

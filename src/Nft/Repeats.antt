-- ===== src/Nft/Repeats.antt =====
-- Where comments coincide: destinations that are named twice, and comments that begin alike.
use wga.Base.{
  true, false, inl, inr, List, [], ◌∷◌, ◌++◌, ◌≡◌, arith, not, ok, some, subst, Bytes, Assoc, Bool,
  any, keep_if, contains, refl, ap, sym, ◌∙◌, contains-append, bytes,
}
use mathlib.Core.List.{Memᴰ, append_assoc, append-nil}
use wga.Nft.{NftRule, rule_map, Progress, Answers, Effects, nft_sync}
use wga.Nft.Rules.{has_comment, want_calls, take_wants_complete, want_step_lem}
use wga.Nft.Wants.{Want, take_wants, want_comment, want_step, take_wants-append}
use wga.Nft.Grants.{eq_false_of_not}
use wga.Api.{FetchedConfig}
use wga.Nft.Sync.{config_wants, nft_sync-inversion}
use wga.Nft.Guarantees.{start}
use wga.Nft.Stale.{IsLast, mem-rule_map}

any-nothing :
    {A : Type 0} (p q : A → Bool) (xs : List A)
    → ((x : A) → q x ≡ true → p x ≡ false)
    → any p (keep_if q xs) ≡ false
any-nothing p q [] h = refl
any-nothing p q (x ∷ xs) h = ground (arith, h x, any-nothing p q xs h)

-- Once a comment is claimed, no rule of the map holds it.
claimed :
    (m : Assoc NftRule) (c : Bytes) → has_comment c (keep_if (λ e. not (contains e.0 c)) m) ≡ false
claimed m c =
    any-nothing (λ e. contains e.0 c) (λ e. not (contains e.0 c)) m
      (λ e h. eq_false_of_not (contains e.0 c) h)

any-mem :
    {A : Type 0} (p : A → Bool) (x : A) (xs : List A) → Memᴰ x xs → p x ≡ true → any p xs ≡ true
any-mem p x [] m h = elim m [ ]
any-mem p x (y ∷ xs) (Memᴰ.head e) h = rw (ap p (sym e) ∙ h)
any-mem p x (y ∷ xs) (Memᴰ.tail m) h = ground (arith, any-mem p x xs m h)

module _ (runs : List Bytes → Bool) (table chain : Bytes) where
  repeated_added :
      (st : Progress) (w : Want) (ws : List Want) (call : List Bytes)
      → Memᴰ w ws
      → Memᴰ call (want_calls runs table chain w)
      → Memᴰ call (take_wants runs table chain st (w ∷ ws)).calls
  repeated_added st w ws call again c =
      let st' = want_step runs table chain st w in
      elim (take_wants_complete runs table chain st' ws w again) [
        | inl there ↦
            let gone : has_comment (want_comment w) st'.rules ≡ false =
              rw (want_step_lem runs table chain st w).0 (claimed st.rules (want_comment w)) in
            absurd (cc (there, gone))
        | inr made ↦ made call c
      ]

  -- A step for which no `nft` is called: what is left of `ruleMap` has a rule whose user data holds a
  -- comment that begins with the comment of this wanted rule.
  want_step_shadowed :
      (st : Progress) (w : Want) (longer more before after : Bytes) (r : NftRule)
      → longer ≡ want_comment w ++ more
      → Memᴰ (before ++ (longer ++ after), r) st.rules
      → (want_step runs table chain st w).calls ≡ st.calls
  want_step_shadowed st w longer more before after r begins m =
      let c = want_comment w in
      let ud = before ++ (longer ++ after) in
      let holds : contains ud c ≡ true =
        rw (begins, append_assoc c more after) (contains-append c before (more ++ after)) in
      let there : has_comment c st.rules ≡ true =
        any-mem (λ e. contains e.0 c) (ud, r) st.rules m holds in
      (want_step_lem runs table chain st w).1 ∙ rw there (append-nil st.calls)

-- A rule that the configuration asks for twice, as when two access rules of a peer name one
-- destination, is added by every sync that returns, also when the chain already has it.
pub nft_sync-repeats :
    (a : Answers) (config : FetchedConfig) (device : Bytes) (eff : Effects)
    (before after : List Want) (w : Want) (call : List Bytes)
    → nft_sync a config device ≡ ok eff
    → config_wants config ≡ before ++ w ∷ after
    → Memᴰ w after
    → Memᴰ call (want_calls a.runs (bytes "wga") device w)
    → Memᴰ call eff.calls
nft_sync-repeats a config device eff before after w call returned twice again c =
    let (rules, known, done) = nft_sync-inversion a config device eff returned in
    let first = take_wants a.runs (bytes "wga") device (start rules) before in
    rw
      (
        done.0,
        twice,
        take_wants-append a.runs (bytes "wga") device (start rules) before (w ∷ after),
      )
      (repeated_added a.runs (bytes "wga") device first w after call again c)

-- When the configuration asks for one rule only, and the chain has a rule whose comment is longer and
-- begins with the comment of the wanted one (as that of 10.0.0.0/24 does for 10.0.0.0/2), a sync that
-- returns adds nothing, whether or not the chain has the wanted rule; of rules with the same user data
-- the last counts.
pub nft_sync-shadowed :
    (a : Answers) (config : FetchedConfig) (device : Bytes) (eff : Effects) (rules : List NftRule)
    (r : NftRule) (w : Want) (longer more before after : Bytes)
    → nft_sync a config device ≡ ok eff
    → a.rules ≡ some rules
    → config_wants config ≡ w ∷ []
    → IsLast r rules
    → r.user_data ≡ before ++ (longer ++ after)
    → longer ≡ want_comment w ++ more
    → eff.calls ≡ []
nft_sync-shadowed a config device eff rules r w longer more before after returned read one last ud
      begins =
    let (rules', known, done) = nft_sync-inversion a config device eff returned in
    let same : rules ≡ rules' = cc (known, read) in
    let there : Memᴰ (r.user_data, r) (rule_map rules') =
      subst (λ x. Memᴰ (r.user_data, r) (rule_map x)) same ((mem-rule_map rules r).1 last) in
    done.0
    ∙ ap (λ ws. (take_wants a.runs (bytes "wga") device (start rules') ws).calls) one
    ∙ want_step_shadowed a.runs (bytes "wga") device (start rules') w longer more before after r
        begins (subst (λ x. Memᴰ (x, r) (rule_map rules')) ud there)

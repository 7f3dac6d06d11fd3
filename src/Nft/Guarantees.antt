-- ===== src/Nft/Guarantees.antt =====
-- What a sync that returns has done, for every configuration and every state of the chain.
use wga.Base.{
  true, false, some, inl, inr, List, [], ◌∷◌, ◌≡◌, arith, not, ok, Bytes, ◌↔◌, contains, bytes, ◌⊎◌,
  ◌∙◌, subst, refl, mem-keep_if, mem_keep_if_of_true, ap,
}
use mathlib.Core.List.{Memᴰ}
use wga.Nft.{Answers, Effects, nft_sync, NftRule, rule_map, Progress}
use wga.Api.{FetchedConfig}
use wga.Nft.Wants.{Want, want_comment, take_wants}
use wga.Nft.Grants.{IsAsked, eq_false_of_not}
use wga.Nft.Rules.{
  want_calls, has_comment, take_wants_sound, take_wants_complete, is_wanted, take_wants-rules,
}
use wga.Nft.Sync.{nft_sync-inversion, config_wants, IsAsked-of_mem, mem_of_asked}

abbrev pub start : List NftRule → Progress
start rules = record { rules = rule_map rules; calls = [] }

unwanted :
    (ws : List Want) (ud : Bytes)
    → is_wanted ws ud ≡ false
    → (w : Want) → Memᴰ w ws
    → contains ud (want_comment w) ≡ false
unwanted [] ud h w m = elim m [ ]
unwanted (v ∷ ws) ud h w (Memᴰ.head e) = rw e (ground arith)
unwanted (v ∷ ws) ud h w (Memᴰ.tail m) = unwanted ws ud (ground arith) w m

is_wanted-false :
    (ws : List Want) (ud : Bytes)
    → ((w : Want) → Memᴰ w ws → contains ud (want_comment w) ≡ false)
    → is_wanted ws ud ≡ false
is_wanted-false [] ud h = refl
is_wanted-false (v ∷ ws) ud h =
    rw (h v (Memᴰ.head refl)) (is_wanted-false ws ud (λ w m. h w (Memᴰ.tail m)))

module _ (a : Answers) (config : FetchedConfig) (device : Bytes) (eff : Effects)
    (returned : nft_sync a config device ≡ ok eff) where
  after :
      (rules : List NftRule)
      → a.rules ≡ some rules
      → (let done = take_wants a.runs (bytes "wga") device (start rules) (config_wants config) in
          (eff.calls ≡ done.calls) × (eff.stale ≡ done.rules))
  after rules read =
      let (rules', known, done) = nft_sync-inversion a config device eff returned in
      let same : rules' ≡ rules = cc (known, read) in
      subst
        (λ r.
          let d = take_wants a.runs (bytes "wga") device (start r) (config_wants config) in
          (eff.calls ≡ d.calls) × (eff.stale ≡ d.rules))
        same done

  -- Every `nft add rule` call is a call for a rule of the loops over the configuration.
  pub nft_sync_sound :
      (call : List Bytes)
      → Memᴰ call eff.calls
      → (w : Want) × IsAsked config w × Memᴰ call (want_calls a.runs (bytes "wga") device w)
  nft_sync_sound call m =
      let (rules, known, done) = nft_sync-inversion a config device eff returned in
      elim (take_wants_sound a.runs (bytes "wga") device (start rules) (config_wants config) call
        (rw done.0 at m)) [
          | inl old ↦ elim old [ ]
          | inr (w, among, made) ↦ (w, IsAsked-of_mem config among, made)
        ]

  -- For every rule that the configuration asks for, the chain had a rule with its comment in the user
  -- data, or all of its `nft add rule` calls are made.
  pub nft_sync_complete :
      (rules : List NftRule) (w : Want)
      → a.rules ≡ some rules
      → IsAsked config w
      → (has_comment (want_comment w) (rule_map rules) ≡ true)
        ⊎ ((call : List Bytes)
            → Memᴰ call (want_calls a.runs (bytes "wga") device w)
            → Memᴰ call eff.calls)
  nft_sync_complete rules w read asked =
      elim (take_wants_complete a.runs (bytes "wga") device (start rules) (config_wants config) w
        (mem_of_asked config asked)) [
          | inl there ↦ inl there
          | inr made ↦ inr (λ call c. rw (after rules read).0 (made call c))
        ]

  -- Of the entries of `ruleMap`, those are deleted, and only those, whose user data holds the comment of
  -- no rule that the configuration asks for.
  pub nft_sync-stale :
      (rules : List NftRule) (entry : Bytes × NftRule)
      → a.rules ≡ some rules
      → Memᴰ entry eff.stale ↔ (
          Memᴰ entry (rule_map rules)
          × ((w : Want) → IsAsked config w → contains entry.0 (want_comment w) ≡ false))
  nft_sync-stale rules entry read =
      let kept = λ (e : Bytes × NftRule). not (is_wanted (config_wants config) e.0) in
      let left =
        (after rules read).1
        ∙ take_wants-rules a.runs (bytes "wga") device (start rules) (config_wants config) in
      (
        λ m.
            let (there, free) = mem-keep_if kept (rule_map rules) (rw left at m) in
            (
              there,
              λ w asked.
                  unwanted (config_wants config) entry.0 (eq_false_of_not _ free) w
                    (mem_of_asked config asked),
            ),
        λ h. rw left (
            mem_keep_if_of_true kept (rule_map rules) h.0 (
              ap not (
                is_wanted-false (config_wants config) entry.0
                  (λ w m. h.1 w (IsAsked-of_mem config m))))),
      )

-- ===== src/Nft/Rules.antt =====
-- What one sync adds and deletes, for a list of wanted rules.
use wga.Base.{
  true, false, inl, inr, List, [], ◌∷◌, ◌++◌, ◌≡◌, arith, ◌||◌, not, Bytes, Bool, contains, Assoc,
  keep_if, if◌then◌else◌, any, ◌&&◌, ap, sym, refl, ◌⊎◌, ◌∙◌, mem-append_right, Bool-cases,
  mem-append_left, mem-append_cases,
}
use mathlib.Core.List.{Memᴰ, append-nil}
use wga.Nft.Wants.{Want, route, dns, want_comment, take_wants, want_step}
use wga.Nft.{
  Progress, route_step, same_family, NftRule, dns_step, routing_rule, dns_rule, http_rule,
}
use wga.Net.{is_v4}
use mathlib.Core.Path.{fun_ext}

-- Some rule of the map holds the comment.
abbrev pub has_comment : Bytes → Assoc NftRule → Bool
has_comment comment m = any (λ e. contains e.0 comment) m

-- The user data holds the comment of one of the wanted rules.
abbrev pub is_wanted : List Want → Bytes → Bool
is_wanted [] ud = false
is_wanted (w ∷ ws) ud = contains ud (want_comment w) || is_wanted ws ud

keep_if-keep_if :
    {A : Type 0} (p q : A → Bool) (xs : List A)
    → keep_if p (keep_if q xs) ≡ keep_if (λ x. q x && p x) xs
keep_if-keep_if p q [] = refl
keep_if-keep_if p q (x ∷ xs) = ground (arith, keep_if-keep_if p q xs)

any-keep_if :
    {A : Type 0} (p q : A → Bool) (xs : List A) → any p (keep_if q xs) ≡ true → any p xs ≡ true
any-keep_if p q [] h = h
any-keep_if p q (x ∷ xs) h = ground (arith, any-keep_if p q xs)

not_or : (a b : Bool) → (not a && not b) ≡ not (a || b)
not_or true b = refl
not_or false b = refl

module _ (runs : List Bytes → Bool) (table chain : Bytes) where
  abbrev pub want_calls : Want → List (List Bytes)
  want_calls (route is_v6 snet dnet) =
      if same_family is_v6 (is_v4 dnet.ip)
      then routing_rule table chain is_v6 snet dnet (want_comment (route is_v6 snet dnet)) ∷ []
      else []
  want_calls (dns snet server) =
      let comment = want_comment (dns snet server) in
      let first = dns_rule table chain server snet comment in
      first ∷ (if runs first then http_rule table chain server snet comment ∷ [] else [])

  -- One wanted rule: its comment's rules leave the map, and without one it is added.
  pub want_step_lem :
      (st : Progress) (w : Want)
      → ((want_step runs table chain st w).rules
          ≡ keep_if (λ e. not (contains e.0 (want_comment w))) st.rules)
        × ((want_step runs table chain st w).calls
            ≡ st.calls ++ (if has_comment (want_comment w) st.rules then [] else want_calls w))
  unfolding route_step dns_step
  want_step_lem st (route is_v6 snet dnet) = ground (arith, append-nil st.calls)
  want_step_lem st (dns snet server) = ground (arith, append-nil st.calls)

  keep_if-true : {A : Type 0} (xs : List A) → keep_if (λ x. true) xs ≡ xs
  keep_if-true [] = refl
  keep_if-true (x ∷ xs) = ap (λ r. x ∷ r) (keep_if-true xs)

  -- What is left of the map are the rules that hold no wanted comment.
  pub take_wants-rules :
      (st : Progress) (ws : List Want)
      → (take_wants runs table chain st ws).rules ≡ keep_if (λ e. not (is_wanted ws e.0)) st.rules
  take_wants-rules st [] = sym (keep_if-true st.rules)
  take_wants-rules st (w ∷ ws) =
      take_wants-rules (want_step runs table chain st w) ws
      ∙ (ap (keep_if (λ e. not (is_wanted ws e.0))) (want_step_lem st w).0
          ∙ (keep_if-keep_if (λ e. not (is_wanted ws e.0))
                (λ e. not (contains e.0 (want_comment w))) st.rules
              ∙ ap (λ p. keep_if p st.rules)
                  (fun_ext (λ e. not_or (contains e.0 (want_comment w)) (is_wanted ws e.0)))))

  calls-want_step :
      (st : Progress) (w : Want) (call : List Bytes)
      → Memᴰ call st.calls
      → Memᴰ call (want_step runs table chain st w).calls
  calls-want_step st w call m = rw (want_step_lem st w).1 (mem-append_left _ m)

  calls-take_wants :
      (st : Progress) (ws : List Want) (call : List Bytes)
      → Memᴰ call st.calls
      → Memᴰ call (take_wants runs table chain st ws).calls
  calls-take_wants st [] call m = m
  calls-take_wants st (w ∷ ws) call m =
      calls-take_wants (want_step runs table chain st w) ws call (calls-want_step st w call m)

  want_step_sound :
      (st : Progress) (w : Want) (call : List Bytes)
      → Memᴰ call (want_step runs table chain st w).calls
      → Memᴰ call st.calls ⊎ Memᴰ call (want_calls w)
  want_step_sound st w call m = elim (mem-append_cases st.calls (rw (want_step_lem st w).1 at m)) [
    | inl old ↦ inl old
    | inr new ↦ if_mem (has_comment (want_comment w) st.rules) new
  ]
    where
      if_mem :
          (b : Bool)
          → Memᴰ call (if b then [] else want_calls w)
          → Memᴰ call st.calls ⊎ Memᴰ call (want_calls w)
      if_mem true m = elim m [ ]
      if_mem false m = inr m

  -- Every call is one of a wanted rule.
  pub take_wants_sound :
      (st : Progress) (ws : List Want) (call : List Bytes)
      → Memᴰ call (take_wants runs table chain st ws).calls
      → Memᴰ call st.calls ⊎ ((w : Want) × Memᴰ w ws × Memᴰ call (want_calls w))
  take_wants_sound st [] call m = inl m
  take_wants_sound st (w ∷ ws) call m =
      elim (take_wants_sound (want_step runs table chain st w) ws call m) [
        | inl before ↦ elim (want_step_sound st w call before) [
          | inl old ↦ inl old
          | inr new ↦ inr (w, Memᴰ.head refl, new)
        ]
        | inr (v, among, new) ↦ inr (v, Memᴰ.tail among, new)
      ]

  added :
      (st : Progress) (v w : Want) {call : List Bytes}
      → v ≡ w
      → has_comment (want_comment w) st.rules ≡ false
      → Memᴰ call (want_calls w)
      → Memᴰ call (want_step runs table chain st v).calls
  added st v w same new c = rw (want_step_lem st v).1 (mem-append_right st.calls (rw (same, new) c))

  -- A wanted rule is there before, or its calls are made.
  pub take_wants_complete :
      (st : Progress) (ws : List Want) (w : Want)
      → Memᴰ w ws
      → (has_comment (want_comment w) st.rules ≡ true)
        ⊎ ((call : List Bytes)
            → Memᴰ call (want_calls w)
            → Memᴰ call (take_wants runs table chain st ws).calls)
  take_wants_complete st [] w m = elim m [ ]
  take_wants_complete st (v ∷ ws) w (Memᴰ.head e) =
      elim (Bool-cases (has_comment (want_comment w) st.rules)) [
        | inl there ↦ inl there
        | inr new ↦ inr (λ call c.
            calls-take_wants (want_step runs table chain st v) ws call (added st v w (sym e) new c))
      ]
  take_wants_complete st (v ∷ ws) w (Memᴰ.tail m) =
      elim (take_wants_complete (want_step runs table chain st v) ws w m) [
        | inl there ↦ inl (
            any-keep_if (λ e. contains e.0 (want_comment w))
              (λ e. not (contains e.0 (want_comment v))) st.rules
              (rw (want_step_lem st v).0 at there))
        | inr made ↦ inr made
      ]

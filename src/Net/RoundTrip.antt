-- ===== src/Net/RoundTrip.antt =====
-- An IPv6 address is parsed as it was printed.
use wga.Base.{
  ℕ, zero, suc, ◌+◌, ◌-◌, ◌<◌, ◌≤◌, Bool, true, false, Bool-cases, none, some, List, [], ◌∷◌, ◌++◌,
  Bytes, bytes, arith, ◌≡◌, refl, sym, ap, ◌∙◌, length, length-append, inl, inr, All, is_empty,
  drop, replicate, ◌==◌, if◌then◌else◌, suc, subst,
}
use wga.Net.Address.{Ip, to4}
use wga.Net.Parse.{parse_ip, parse_v6, v6_rounds, v6_finish, ◌>>=◌, as16}
use wga.Net.Print.{
  colon_groups, groups, v6_string, ip_string, first_groups, longest_run, hex_digits, dotted,
}
use wga.Net.Hex.{bound}
use wga.Net.Groups.{
  StartsPlain, StartsPlain-++, colon_groups-StartsPlain, bytes_of, rounds_ended, hex_digits-IsPlain,
  hex_digits-StartsPlain,
}
use wga.Net.Gaps.{rounds_gap}
use wga.Net.Runs.{longest_run-HasZeros}
use wga.Net.Pieces.{
  HasColon, parse_addr-v6, length-bytes_of, else_branch, v6_finish-gap, parse_v6-StartsPlain,
  colon_groups-HasColon, bytes_of-replicate, bytes_of-++, bytes_of-groups,
}

-- The bytes of an IPv6 address: 16, and not those of an IPv4 one
pub record IsV6 (ip : Ip) : Type 0 where
  pub sized : length ip ≡ 16
  pub small : All (λ b. b < 256) ip
  pub not_v4 : is_empty (to4 ip) ≡ true

abbrev Fit : List ℕ → Type 0
Fit gs = All (λ g. g < bound 4) gs

abbrev Reads : Bytes → Bytes → Type 0
Reads s ip = HasColon s × (parse_v6 s ≡ some ip)

starts_long : (s t : Bytes) → StartsPlain s → 0 < length t → 1 < length (s ++ t)
starts_long s t (c, r, e, plain) h =
    let counted : length (s ++ t) ≡ suc (length r) + length t =
      length-append s t ∙ ap (λ x. length x + length t) e in
    omega (arith, counted, h)

is_sixteen : (gs : List ℕ) → length gs ≡ 8 → length (bytes_of gs) == 16 ≡ true
is_sixteen gs h =
    let counted : length (bytes_of gs) ≡ 16 = omega (arith, length-bytes_of gs, h) in
    ap (λ n. n == 16) counted

plain-Reads :
    (g x : ℕ) (gs : List ℕ)
    → Fit (g ∷ x ∷ gs)
    → length (g ∷ x ∷ gs) ≡ 8
    → Reads (colon_groups (g ∷ x ∷ gs)) (bytes_of (g ∷ x ∷ gs))
unfolding colon_groups v6_finish
plain-Reads g x gs fits eight =
    let s = colon_groups (g ∷ x ∷ gs) in
    let long =
      starts_long (hex_digits 4 g) (58 ∷ colon_groups (x ∷ gs))
        (hex_digits-StartsPlain 4 g (omega arith)) (omega arith) in
    (
      (hex_digits 4 g, colon_groups (x ∷ gs), refl, hex_digits-IsPlain 4 g),
      parse_v6-StartsPlain s (colon_groups-StartsPlain g (x ∷ gs)) long
          ∙ ap (λ o. o >>= v6_finish)
              (rounds_ended 8 [] none g (x ∷ gs) fits (omega (arith, eight)))
          ∙ ap (λ b. if b then some (bytes_of (g ∷ x ∷ gs)) else none)
              (is_sixteen (g ∷ x ∷ gs) eight),
    )

-- What the gap stands for
abbrev filled : List ℕ → List ℕ → Bytes
filled gs hs =
    bytes_of gs ++ (replicate (16 - (length (bytes_of gs) + length (bytes_of hs))) 0 ++ bytes_of hs)

few :
    (gs hs : List ℕ) → length gs + length hs ≤ 6 → length (bytes_of gs) + length (bytes_of hs) < 16
few gs hs h = omega (arith, length-bytes_of gs, length-bytes_of hs)

gap-Reads :
    (gs hs : List ℕ)
    → Fit gs
    → Fit hs
    → length gs + length hs ≤ 6
    → Reads (colon_groups gs ++ (58 ∷ 58 ∷ colon_groups hs)) (filled gs hs)
unfolding parse_v6 colon_groups
gap-Reads [] [] p q h = (([], bytes ":", refl, tt), refl)
gap-Reads [] (x ∷ hs) p q h =
    let s = colon_groups (x ∷ hs) in
    let (c, r, e, plain) = colon_groups-StartsPlain x hs in
    (
      ([], 58 ∷ s, refl, tt),
      else_branch (is_empty s) _ (v6_rounds 8 [] (some 0) s >>= v6_finish) (ap is_empty e)
          ∙ ap (λ o. o >>= v6_finish) (rounds_ended 8 [] (some 0) x hs q (omega (arith, h)))
          ∙ v6_finish-gap [] (bytes_of (x ∷ hs)) (few [] (x ∷ hs) h),
    )
gap-Reads (g ∷ gs) hs p q h =
    let gap = 58 ∷ 58 ∷ colon_groups hs in
    let starts = colon_groups-StartsPlain g gs in
    (
      colon_groups-HasColon g gs (58 ∷ colon_groups hs),
      parse_v6-StartsPlain (colon_groups (g ∷ gs) ++ gap)
            (StartsPlain-++ (colon_groups (g ∷ gs)) gap starts)
            (starts_long (colon_groups (g ∷ gs)) gap starts (omega arith))
          ∙ ap (λ o. o >>= v6_finish) (rounds_gap 8 [] g gs hs p q (omega (arith, h)))
          ∙ v6_finish-gap (bytes_of (g ∷ gs)) (bytes_of hs) (few (g ∷ gs) hs h),
    )

Fit-parts : (xs ys : List ℕ) → Fit (xs ++ ys) → Fit xs × Fit ys
Fit-parts [] ys h = (tt, h)
Fit-parts (x ∷ xs) ys (k, h) = let (left, right) = Fit-parts xs ys h in ((k, left), right)

length-replicate : (n : ℕ) → length {A = ℕ} (replicate n 0) ≡ n
length-replicate zero = refl
length-replicate (suc n) = omega (arith, length-replicate n)

-- A run of zeros is what the gap stands for.
run-Reads :
    (xs ys gs : List ℕ) (n : ℕ)
    → gs ≡ xs ++ (replicate n 0 ++ ys)
    → 2 ≤ n
    → Fit gs
    → length gs ≡ 8
    → Reads (colon_groups xs ++ (58 ∷ 58 ∷ colon_groups ys)) (bytes_of gs)
run-Reads xs ys gs n e two fits eight =
    let zeros : List ℕ = replicate n 0 in
    let (left, more) = Fit-parts xs (zeros ++ ys) (subst Fit e fits) in
    let (_, right) = Fit-parts zeros ys more in
    let total : length xs + (n + length ys) ≡ 8 = omega (
      arith,
      ap length e,
      eight,
      length-append xs (zeros ++ ys),
      length-append zeros ys,
      length-replicate n,
    ) in
    let missing : 16 - (length (bytes_of xs) + length (bytes_of ys)) ≡ n + n =
      omega (arith, total, length-bytes_of xs, length-bytes_of ys) in
    let same : filled xs ys ≡ bytes_of gs =
      ap (λ m. bytes_of xs ++ (replicate m 0 ++ bytes_of ys)) missing
      ∙ ap (λ z. bytes_of xs ++ (z ++ bytes_of ys)) (sym (bytes_of-replicate n))
      ∙ ap (λ z. bytes_of xs ++ z) (sym (bytes_of-++ zeros ys))
      ∙ sym (bytes_of-++ xs (zeros ++ ys))
      ∙ ap bytes_of (sym e) in
    let (colon, parsed) = gap-Reads xs ys left right (omega (arith, total, two)) in
    (colon, parsed ∙ ap some same)

-- The text of eight groups is read as their bytes.
v6_string-Reads : (gs : List ℕ) → Fit gs → length gs ≡ 8 → Reads (v6_string gs) (bytes_of gs)
unfolding v6_string
v6_string-Reads [] fits eight = absurd (omega (arith, eight))
v6_string-Reads (g ∷ []) fits eight = absurd (omega (arith, eight))
v6_string-Reads (g ∷ x ∷ gs) fits eight =
    let all = g ∷ x ∷ gs in
    let (start, n) = longest_run 0 (0, 0) all in
    let (zeros, amount) = longest_run-HasZeros all in
    let with_gap =
      colon_groups (first_groups start all) ++ (58 ∷ 58 ∷ colon_groups (drop (start + n) all)) in
    elim (Bool-cases (n == 0)) [
      | inl none_there ↦
          subst (λ b. Reads (if b then colon_groups all else with_gap) (bytes_of all))
            (sym none_there) (plain-Reads g x gs fits eight)
      | inr there ↦
          subst (λ b. Reads (if b then colon_groups all else with_gap) (bytes_of all)) (sym there)
            (run-Reads (first_groups start all) (drop (start + n) all) all n zeros
              (elim amount [ inl empty ↦ absurd (ground (arith, empty, there)) | inr two ↦ two ])
              fits eight)
    ]

branches :
    (a b c : Bool) (w x y z : Bytes)
    → a ≡ false
    → b ≡ true
    → c ≡ true
    → (if a then w else if b then (if c then x else y) else z) ≡ x
branches a b c w x y z e f g = rw (e, f, g) refl

ip_string-v6_string : (ip : Ip) → IsV6 ip → ip_string ip ≡ v6_string (groups ip)
unfolding ip_string
ip_string-v6_string [] h = absurd (omega (arith, h.sized))
ip_string-v6_string (c ∷ r) h =
    let ip = c ∷ r in
    branches (is_empty ip) (is_empty (to4 ip)) (length ip == 16) (bytes "<nil>")
      (v6_string (groups ip)) (bytes "?") (dotted (to4 ip)) refl h.not_v4
      (ap (λ n. n == 16) h.sized)

-- An IPv6 address is parsed as it was printed.
pub parse_ip-ip_string : (ip : Ip) → IsV6 ip → parse_ip (ip_string ip) ≡ ip
unfolding parse_ip
parse_ip-ip_string ip h =
    let (same, eight, fits) = bytes_of-groups ip 8 h.sized h.small in
    let (colon, parsed) = v6_string-Reads (groups ip) fits eight in
    ap parse_ip (ip_string-v6_string ip h)
    ∙ ap (λ o. elim o [ none ↦ [] | some a ↦ as16 a ])
        (parse_addr-v6 (v6_string (groups ip)) (bytes_of (groups ip)) colon parsed)
    ∙ same

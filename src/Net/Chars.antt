-- ===== src/Net/Chars.antt =====
-- The characters of printed numbers, addresses and networks.
use wga.Base.{
  ℕ, zero, suc, ◌+◌, ◌/◌, ◌%◌, true, false, Option, none, some, List, [], ◌∷◌, ◌++◌, ltb, Bytes,
  bytes, All, All-append, arith, ◌≢◌, join, is_empty, Bool, length, if◌then◌else◌, ◌==◌, all, not,
  ◌≡◌, refl, drop,
}
use wga.Net.Address.{Ip, IpNet, to4, simple_mask_length}
use wga.Net.Print.{
  decimal_digits, decimal_string, hex_char, hex_digits, dotted, groups, colon_groups, v6_string,
  ip_string, net_string, number_and_mask, longest_run, first_groups,
}

-- A text without a newline
abbrev pub IsLine : Bytes → Type 0
IsLine s = All (λ c. c ≢ 10) s

-- A text that is known
pub fixed_IsLine : (s : Bytes) → all (λ c. not (c == 10)) s ≡ true → IsLine s
fixed_IsLine [] h = tt
fixed_IsLine (c ∷ s) h = ((λ e. ground (arith, h, e)), fixed_IsLine s (ground (arith, h)))

pub IsLine-++ : (s t : Bytes) → IsLine s → IsLine t → IsLine (s ++ t)
IsLine-++ s t p q = All-append (λ c. c ≢ 10) s t p q

pub join-IsLine :
    (sep : Bytes) (parts : List Bytes) → IsLine sep → All IsLine parts → IsLine (join sep parts)
unfolding join
join-IsLine sep [] h hs = tt
join-IsLine sep (p ∷ []) h (k, hs) = k
join-IsLine sep (p ∷ q ∷ ps) h (k, hs) =
    IsLine-++ p _ k (IsLine-++ sep _ h (join-IsLine sep (q ∷ ps) h hs))

decimal_digits-IsLine : (k n : ℕ) → IsLine (decimal_digits k n)
unfolding decimal_digits
decimal_digits-IsLine zero n = tt
decimal_digits-IsLine (suc k) n =
    elim (ltb n 10)
      as (λ b. IsLine (elim b [
        | true ↦ (48 + n) ∷ []
        | false ↦ decimal_digits k (n / 10) ++ (48 + n % 10) ∷ []
      ])) [
        | true ↦ ((λ e. omega (arith, e)), tt)
        | false ↦
            IsLine-++ (decimal_digits k (n / 10)) _ (decimal_digits-IsLine k (n / 10))
              ((λ e. omega (arith, e)), tt)
      ]

pub decimal_string-IsLine : (n : ℕ) → IsLine (decimal_string n)
unfolding decimal_string
decimal_string-IsLine n = decimal_digits-IsLine (suc n) n

hex_char_not_newline : (d : ℕ) → hex_char d ≢ 10
unfolding hex_char
hex_char_not_newline d e = ground (arith, e)

hex_digits-IsLine : (k n : ℕ) → IsLine (hex_digits k n)
unfolding hex_digits
hex_digits-IsLine zero n = tt
hex_digits-IsLine (suc k) n =
    elim (ltb n 16)
      as (λ b. IsLine (elim b [
        | true ↦ hex_char n ∷ []
        | false ↦ hex_digits k (n / 16) ++ hex_char (n % 16) ∷ []
      ])) [
        | true ↦ (hex_char_not_newline n, tt)
        | false ↦
            IsLine-++ (hex_digits k (n / 16)) _ (hex_digits-IsLine k (n / 16))
              (hex_char_not_newline (n % 16), tt)
      ]

dotted-IsLine : (ip : Ip) → IsLine (dotted ip)
unfolding dotted
dotted-IsLine [] = tt
dotted-IsLine (a ∷ []) = decimal_string-IsLine a
dotted-IsLine (a ∷ b ∷ r) =
    IsLine-++ (decimal_string a) _ (decimal_string-IsLine a)
      ((λ e. omega (arith, e)), dotted-IsLine (b ∷ r))

colon_groups-IsLine : (gs : List ℕ) → IsLine (colon_groups gs)
unfolding colon_groups
colon_groups-IsLine [] = tt
colon_groups-IsLine (g ∷ []) = hex_digits-IsLine 4 g
colon_groups-IsLine (g ∷ h ∷ gs) =
    IsLine-++ (hex_digits 4 g) _ (hex_digits-IsLine 4 g)
      ((λ e. omega (arith, e)), colon_groups-IsLine (h ∷ gs))

if-IsLine : (b : Bool) (s t : Bytes) → IsLine s → IsLine t → IsLine (if b then s else t)
if-IsLine true s t h k = h
if-IsLine false s t h k = k

gap-IsLine : (gs hs : List ℕ) → IsLine (colon_groups gs ++ (bytes "::" ++ colon_groups hs))
gap-IsLine gs hs =
    IsLine-++ (colon_groups gs) (bytes "::" ++ colon_groups hs) (colon_groups-IsLine gs) (
      IsLine-++ (bytes "::") (colon_groups hs) (fixed_IsLine (bytes "::") refl)
        (colon_groups-IsLine hs))

v6_string-IsLine : (gs : List ℕ) → IsLine (v6_string gs)
unfolding v6_string
v6_string-IsLine gs =
    let (start, n) = longest_run 0 (0, 0) gs in
    if-IsLine (n == 0) (colon_groups gs)
      (colon_groups (first_groups start gs) ++ (bytes "::" ++ colon_groups (drop (start + n) gs)))
      (colon_groups-IsLine gs) (gap-IsLine (first_groups start gs) (drop (start + n) gs))

pub ip_string-IsLine : (ip : Ip) → IsLine (ip_string ip)
unfolding ip_string
ip_string-IsLine ip =
    if-IsLine (is_empty ip) (bytes "<nil>")
      (if is_empty (to4 ip)
        then (if length ip == 16 then v6_string (groups ip) else bytes "?")
        else dotted (to4 ip))
      (fixed_IsLine (bytes "<nil>") refl)
      (if-IsLine (is_empty (to4 ip)) (if length ip == 16 then v6_string (groups ip) else bytes "?")
        (dotted (to4 ip))
        (if-IsLine (length ip == 16) (v6_string (groups ip)) (bytes "?")
          (v6_string-IsLine (groups ip)) ((λ e. omega (arith, e)), tt))
        (dotted-IsLine (to4 ip)))

sized-IsLine :
    (ip : Ip) (o : Option ℕ)
    → IsLine (elim o [
      | none ↦ ip_string ip ++ bytes "/"
      | some l ↦ ip_string ip ++ b'/' ∷ decimal_string l
    ])
sized-IsLine ip none =
    IsLine-++ (ip_string ip) _ (ip_string-IsLine ip) ((λ e. omega (arith, e)), tt)
sized-IsLine ip (some l) =
    IsLine-++ (ip_string ip) _ (ip_string-IsLine ip)
      ((λ e. omega (arith, e)), decimal_string-IsLine l)

masked-IsLine :
    (o : Option (Ip × Bytes))
    → IsLine (elim o [
      | none ↦ bytes "<nil>"
      | some (ip, m) ↦ elim (simple_mask_length m) [
        | none ↦ ip_string ip ++ bytes "/"
        | some l ↦ ip_string ip ++ b'/' ∷ decimal_string l
      ]
    ])
masked-IsLine none = (fixed_IsLine (bytes "<nil>") refl)
masked-IsLine (some (ip, m)) = sized-IsLine ip (simple_mask_length m)

pub net_string-IsLine : (net : IpNet) → IsLine (net_string net)
unfolding net_string
net_string-IsLine net = masked-IsLine (number_and_mask net)

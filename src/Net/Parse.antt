-- ===== src/Net/Parse.antt =====
-- `net.ParseIP` and `net.ParseCIDR`, on the grammar of `netip.ParseAddr`. A zone is refused by both
-- callers, so it is not read.
use wga.Base.{
  ℕ, zero, suc, ◌+◌, ◌-◌, ◌*◌, ◌/◌, ◌%◌, Bool, true, false, ◌&&◌, ◌||◌, Option, none, some, List,
  [], ◌∷◌, ◌++◌, ◌==◌, ltb, leb, between, if◌then◌else◌, length, take, drop, replicate, is_empty,
  Bytes, split, is_some,
}
use wga.Net.Address.{Ip, IpNet, v4_prefix, cidr_mask, mask_ip}

infixl 5 ◌>>=◌
abbrev pub ◌>>=◌ : {A B : Type 0} → Option A → (A → Option B) → Option B
none >>= f = none
some a >>= f = f a

-- `dtoi`, and nothing after the digits; values from 0xFFFFFF are refused.
decimal_from : ℕ → Bytes → Option ℕ
decimal_from n [] = some n
decimal_from n (c ∷ s) =
    let rest = decimal_from (n * 10 + (c - 48)) s in
    if between 48 57 c && ltb (n * 10 + (c - 48)) 0xFFFFFF then rest else none

unfoldable pub decimal : Bytes → Option ℕ
unfolding decimal_from
decimal [] = none
decimal (c ∷ s) = decimal_from 0 (c ∷ s)

-- A field of an IPv4 address: no leading zero, at most 255.
octet : Bytes → Option ℕ
unfolding decimal
octet s = do
  n ← decimal s
  if leb n 255 && (length s == 1 || (if s_zero s then false else true)) then some n else none
  where
    s_zero : Bytes → Bool
    s_zero [] = false
    s_zero (c ∷ r) = c == 48

octets : List Bytes → Option Bytes
unfolding octet
octets (a ∷ b ∷ c ∷ d ∷ []) = do
  w ← octet a
  x ← octet b
  y ← octet c
  z ← octet d
  some (w ∷ x ∷ y ∷ z ∷ [])
octets _ = none

parse_v4 : Bytes → Option Bytes
unfolding octets split
parse_v4 s = octets (split b'.' s)

unfoldable pub hex_digit : ℕ → Option ℕ
hex_digit c =
    if between b'0' b'9' c
    then some (c - b'0')
    else if between b'a' b'f' c
    then some (c - b'a' + 10)
    else if between b'A' b'F' c
    then some (c - b'A' + 10)
    else none

-- The hex digits at the head, after `n` with the value `v`: how many, their value, and the rest.
unfoldable pub hex_from : ℕ → ℕ → Bytes → ℕ × ℕ × Bytes
unfolding hex_digit
hex_from n v [] = (n, v, [])
hex_from n v (c ∷ s) = elim (hex_digit c) [
  | none ↦ (n, v, c ∷ s)
  | some d ↦ hex_from (n + 1) (v * 16 + d) s
]

-- What follows a group: nothing, a dot, a colon and a group, `::`, or a mistake.
pub data Next : Type 0 where
  ended dotted_tail ended_by_gap wrong : Next
  colon gap : Bytes → Next

unfoldable pub after_colon : Bytes → Next
after_colon [] = wrong
after_colon (c ∷ []) = if c == b':' then ended_by_gap else colon (c ∷ [])
after_colon (c ∷ d ∷ s) = if c == b':' then gap (d ∷ s) else colon (c ∷ d ∷ s)

unfoldable pub next : Bytes → Next
unfolding after_colon
next [] = ended
next (c ∷ s) = if c == b'.' then dotted_tail else if c == b':' then after_colon s else wrong

-- An IPv4 address at the end: its four bytes fit, and without `::` they are the last four.
unfoldable pub tail_fits : ℕ → Option ℕ → Bool
tail_fits n none = n == 12
tail_fits n (some _) = leb (n + 4) 16

-- What follows a group: `ip` has the bytes before it, `ip'` its own, too.
unfoldable pub after_group :
    (Bytes → Option ℕ → Bytes → Option (Bytes × Option ℕ × Bytes))
    → Bytes
    → Bytes
    → Option ℕ
    → Bytes
    → Next
    → Option (Bytes × Option ℕ × Bytes)
unfolding parse_v4 tail_fits
after_group again ip ip' at s ended = some (ip', at, [])
after_group again ip ip' at s dotted_tail =
    if tail_fits (length ip) at then (do v ← parse_v4 s; some (ip ++ v, at, [])) else none
after_group again ip ip' at s ended_by_gap =
    if is_some at then none else some (ip', some (length ip'), [])
after_group again ip ip' at s wrong = none
after_group again ip ip' at s (colon s') = again ip' at s'
after_group again ip ip' none s (gap s') = again ip' (some (length ip')) s'
after_group again ip ip' (some _) s (gap s') = none

-- The loop of `parseIPv6`: `ip` holds the bytes so far, `at` is where `::` stood. A round adds two
-- bytes, so eight rounds are all.
unfoldable pub v6_rounds : ℕ → Bytes → Option ℕ → Bytes → Option (Bytes × Option ℕ × Bytes)
unfolding hex_from next after_group
v6_rounds zero ip at s = some (ip, at, s)
v6_rounds (suc k) ip at s =
    let (off, acc, rest) = hex_from 0 0 s in
    if off == 0 || ltb 4 off
    then none
    else after_group (v6_rounds k) ip (ip ++ (acc / 256) ∷ (acc % 256) ∷ []) at s (next rest)

unfoldable pub v6_finish : Bytes × Option ℕ × Bytes → Option Bytes
v6_finish (ip, none, []) = if length ip == 16 then some ip else none
v6_finish (ip, some g, []) =
    if ltb (length ip) 16
    then some (take g ip ++ (replicate (16 - length ip) 0 ++ drop g ip))
    else none
v6_finish (ip, _, _ ∷ _) = none

unfoldable pub parse_v6 : Bytes → Option Bytes
unfolding v6_rounds v6_finish
parse_v6 (c ∷ d ∷ s) =
    if c == b':' && d == b':'
    then if is_empty s then some (replicate 16 0) else (v6_rounds 8 [] (some 0) s >>= v6_finish)
    else v6_rounds 8 [] none (c ∷ d ∷ s) >>= v6_finish
parse_v6 s = none

-- `netip.Addr`: which family was written
pub data Addr : Type 0 where
  v4 : Bytes → Addr
  v6 : Bytes → Addr

-- The first of `.` and `:` decides the family.
unfoldable pub family : Bytes → Bytes → Option Addr
unfolding parse_v4 parse_v6
family whole [] = none
family whole (c ∷ s) =
    if c == b'.'
    then (do a ← parse_v4 whole; some (v4 a))
    else if c == b':'
    then (do a ← parse_v6 whole; some (v6 a))
    else family whole s

-- `netip.ParseAddr`
unfoldable pub parse_addr : Bytes → Option Addr
unfolding family
parse_addr s = family s s

-- `addr.As16()`
abbrev pub as16 : Addr → Ip
as16 (v4 a) = v4_prefix ++ a
as16 (v6 a) = a

abbrev pub bit_len : Addr → ℕ
bit_len (v4 a) = 32
bit_len (v6 a) = 128

-- `net.ParseIP`; nil is `[]`
unfoldable pub parse_ip : Bytes → Ip
unfolding parse_addr
parse_ip s = elim (parse_addr s) [ none ↦ [] | some a ↦ as16 a ]

-- The text before the first `/` and after it.
cut_slash : Bytes → Bytes → Option (Bytes × Bytes)
cut_slash before [] = none
cut_slash before (c ∷ s) =
    let rest = cut_slash (before ++ c ∷ []) s in if c == b'/' then some (before, s) else rest

-- `net.ParseCIDR`: the address and its network
unfoldable pub parse_cidr : Bytes → Option (Ip × IpNet)
unfolding cut_slash parse_addr decimal cidr_mask mask_ip
parse_cidr s = do
  (host, len) ← cut_slash [] s
  a ← parse_addr host
  n ← decimal len
  if leb n (bit_len a)
      then (let m = cidr_mask n (bit_len a) in
          some (as16 a, record { ip = mask_ip (as16 a) m; mask = m }))
      else none

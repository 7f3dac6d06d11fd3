-- ===== src/Net/Print.antt =====
-- `IP.String` and `IPNet.String`.
use wga.Base.{
  ℕ, zero, suc, ◌+◌, ◌*◌, ◌/◌, ◌%◌, true, false, ◌&&◌, Option, none, some, List, [], ◌∷◌, ◌++◌,
  ◌==◌, ltb, leb, if◌then◌else◌, length, drop, is_empty, Bytes, bytes,
}
use wga.Net.Address.{Ip, IpNet, to4, simple_mask_length}

unfoldable pub decimal_digits : ℕ → ℕ → Bytes
decimal_digits zero n = []
decimal_digits (suc k) n = elim (ltb n 10) [
  | true ↦ (48 + n) ∷ []
  | false ↦ decimal_digits k (n / 10) ++ (48 + n % 10) ∷ []
]

-- `strconv.FormatInt(n, 10)` for n at least 0. A number n has at most n + 1 digits.
unfoldable pub decimal_string : ℕ → Bytes
unfolding decimal_digits
decimal_string n = decimal_digits (suc n) n

unfoldable pub hex_char : ℕ → ℕ
hex_char d = if ltb d 10 then 48 + d else 87 + d

unfoldable pub hex_digits : ℕ → ℕ → Bytes
unfolding hex_char
hex_digits zero n = []
hex_digits (suc k) n = elim (ltb n 16) [
  | true ↦ hex_char n ∷ []
  | false ↦ hex_digits k (n / 16) ++ hex_char (n % 16) ∷ []
]

unfoldable pub dotted : Ip → Bytes
unfolding decimal_string
dotted [] = []
dotted (a ∷ []) = decimal_string a
dotted (a ∷ b ∷ r) = decimal_string a ++ b'.' ∷ dotted (b ∷ r)

unfoldable pub groups : Ip → List ℕ
groups (a ∷ b ∷ r) = (a * 256 + b) ∷ groups r
groups _ = []

-- The zeros at the head.
unfoldable pub zero_run : List ℕ → ℕ
zero_run [] = 0
zero_run (g ∷ gs) = let n = zero_run gs in if g == 0 then n + 1 else 0

-- The first longest run of at least two zero groups: its place and length, `best` so far.
unfoldable pub longest_run : ℕ → ℕ × ℕ → List ℕ → ℕ × ℕ
unfolding zero_run
longest_run i best [] = best
longest_run i best (g ∷ gs) =
    let n = zero_run (g ∷ gs) in
    longest_run (i + 1) (if leb 2 n && ltb best.1 n then (i, n) else best) gs

-- Groups with a colon between them.
unfoldable pub colon_groups : List ℕ → Bytes
unfolding hex_digits
colon_groups [] = []
colon_groups (g ∷ []) = hex_digits 4 g
colon_groups (g ∷ h ∷ gs) = hex_digits 4 g ++ b':' ∷ colon_groups (h ∷ gs)

unfoldable pub first_groups : ℕ → List ℕ → List ℕ
first_groups zero gs = []
first_groups (suc n) [] = []
first_groups (suc n) (g ∷ gs) = g ∷ first_groups n gs

unfoldable pub v6_string : List ℕ → Bytes
unfolding longest_run colon_groups first_groups
v6_string gs =
    let (start, n) = longest_run 0 (0, 0) gs in
    if n == 0
    then colon_groups gs
    else colon_groups (first_groups start gs) ++ (bytes "::" ++ colon_groups (drop (start + n) gs))

-- `ip.String()`; the program prints addresses of 0, 4 or 16 bytes, and `?` stands for any other.
unfoldable pub ip_string : Ip → Bytes
unfolding to4 dotted groups v6_string
ip_string ip =
    if is_empty ip
    then bytes "<nil>"
    else if is_empty (to4 ip)
    then (if length ip == 16 then v6_string (groups ip) else bytes "?")
    else dotted (to4 ip)

-- `networkNumberAndMask`; nil is `none`
unfoldable pub number_and_mask : IpNet → Option (Ip × Bytes)
unfolding to4
number_and_mask n =
    let v4 = to4 n.ip in
    if is_empty v4
    then (if length n.ip == 16 && length n.mask == 16 then some (n.ip, n.mask) else none)
    else if length n.mask == 4
    then some (v4, n.mask)
    else if length n.mask == 16
    then some (v4, drop 12 n.mask)
    else none

-- `n.String()`. A mask that is no prefix does not come from `CIDRMask`; its hex form is left out.
unfoldable pub net_string : IpNet → Bytes
unfolding number_and_mask ip_string simple_mask_length decimal_string
net_string n = elim (number_and_mask n) [
  | none ↦ bytes "<nil>"
  | some (ip, m) ↦ elim (simple_mask_length m) [
    | none ↦ ip_string ip ++ bytes "/"
    | some l ↦ ip_string ip ++ b'/' ∷ decimal_string l
  ]
]

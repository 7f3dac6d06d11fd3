-- ===== src/Net/Tests.antt =====
-- Addresses, networks and their text at concrete inputs.
use wga.Base.{◌≡◌, refl, [], ◌∷◌, ◌++◌, none, some, bytes}
use mathlib.Core.Option
use wga.Net.Address.{v4_prefix, cidr_mask, mask_size}
use wga.Net.Parse.{parse_ip, parse_cidr}
use wga.Net.Print.{ip_string, net_string}

parse_v4 : parse_ip (bytes "10.0.0.255") ≡ v4_prefix ++ (10 ∷ 0 ∷ 0 ∷ 255 ∷ [])
unfolding parse_ip
parse_v4 = refl

parse_bad :
    (parse_ip (bytes "10.0.0.256") ≡ [])
    × (parse_ip (bytes "10.0.01.2") ≡ [])
    × (parse_ip (bytes "10.0.0") ≡ [])
    × (parse_ip (bytes "1::2::3") ≡ [])
    × (parse_ip [] ≡ [])
    × (parse_ip (bytes ":1:2") ≡ [])
    × (parse_ip (bytes "1:2:3:4:5:6:7:8:9") ≡ [])
unfolding parse_ip
parse_bad = (refl, refl, refl, refl, refl, refl, refl)

print_v6 :
    (ip_string (parse_ip (bytes "fd00:0:0:1:0:0:0:ABCD")) ≡ bytes "fd00:0:0:1::abcd")
    × (ip_string (parse_ip (bytes "::")) ≡ bytes "::")
    × (ip_string (parse_ip (bytes "fd00::")) ≡ bytes "fd00::")
    × (ip_string (parse_ip (bytes "::ffff:1.2.3.4")) ≡ bytes "1.2.3.4")
    × (ip_string (parse_ip (bytes "1:2:3:4:5:6:7:8")) ≡ bytes "1:2:3:4:5:6:7:8")
unfolding parse_ip ip_string
print_v6 = (refl, refl, refl, refl, refl)

cidr_text :
    (Option.map (λ c. net_string c.1) (parse_cidr (bytes "10.1.2.3/20"))
      ≡ some (bytes "10.1.0.0/20"))
    × (Option.map (λ c. net_string c.1) (parse_cidr (bytes "fd00::1/64"))
        ≡ some (bytes "fd00::/64"))
    × (parse_cidr (bytes "10.1.2.3/33") ≡ none)
    × (parse_cidr (bytes "10.1.2.3") ≡ none)
unfolding parse_cidr net_string
cidr_text = (refl, refl, refl, refl)

sizes : (mask_size (cidr_mask 20 32) ≡ (20, 32)) × (mask_size (cidr_mask 64 128) ≡ (64, 128))
unfolding cidr_mask mask_size
sizes = (refl, refl)

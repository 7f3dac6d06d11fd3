-- ===== src/Net/Laws.antt =====
-- What the other parts use of addresses.
use wga.Base.{◌≡◌, true, arith, bytes_eq_refl}
use wga.Net.Address.{Ip, ip_equal}

pub ip_equal_refl : (a : Ip) → ip_equal a a ≡ true
unfolding ip_equal
ip_equal_refl a = ground (arith, bytes_eq_refl a)

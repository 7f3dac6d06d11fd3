-- ===== src/Net.antt =====
-- Go's packages `net` and `net/netip`, as far as the program calls them: addresses as byte slices,
-- networks, masks, and their text.
mod Address
mod Parse
mod Print
mod Laws
mod Chars
mod Hex
mod Groups
mod Gaps
mod Runs
mod Pieces
mod RoundTrip
mod Tests
pub use Address.{Ip, IpNet}
unfoldable pub use Address.{
  to4, is_v4, cidr_mask, full_mask, mask_size, ip_equal, mask_ip, simple_mask_length,
}
unfoldable pub use Parse.{parse_ip, parse_cidr, decimal}
unfoldable pub use Print.{ip_string, net_string, decimal_string}
pub use Chars.{
  IsLine, fixed_IsLine, IsLine-++, join-IsLine, decimal_string-IsLine, ip_string-IsLine,
  net_string-IsLine,
}
pub use RoundTrip.{IsV6, parse_ip-ip_string}
pub use Laws.*

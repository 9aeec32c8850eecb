-- ===== src/Net.antt =====
-- The addresses of Go's `net` package, as far as the repository uses it: `ParseIP`, `ParseCIDR` and
-- `IPNet.Contains`. An address is kept as the library compares it, an IPv4-mapped one as IPv4.
pub mod Parse
pub mod HostPort
mod Tests
use nitella.Base.{ℕ, ◌-◌, ◌*◌, ◌/◌, ◌%◌, ◌^◌, Bool, false, ◌==◌, if◌then◌else◌}

pub data Ip : Type 0 where
  v4 : ℕ → Ip
  v6 : ℕ → Ip

-- The network number, and how many bits of it count.
pub record IpNet : Type 0 where
  pub network : Ip
  pub ones : ℕ

-- `IP.To4`
unfoldable pub to4 : Ip → Ip
to4 (v4 n) = v4 n
to4 (v6 n) = if n / 2 ^ 32 == 0xffff then v4 (n % 2 ^ 32) else v6 n

abbrev same_prefix : ℕ → ℕ → ℕ → Bool
same_prefix shift m n = m / 2 ^ shift == n / 2 ^ shift

contains_from : Ip → ℕ → Ip → Bool
contains_from (v4 m) ones (v4 n) = same_prefix (32 - ones) m n
contains_from (v6 m) ones (v6 n) = same_prefix (128 - ones) m n
contains_from _ ones _ = false

-- `IPNet.Contains`
unfoldable pub contains : IpNet → Ip → Bool
unfolding contains_from
contains net ip = contains_from net.network net.ones (to4 ip)

masked_v6 : ℕ → ℕ → IpNet
masked_v6 ones m =
    if m / 2 ^ 32 == 0xffff
    then record { network = v4 (m % 2 ^ 32); ones = ones - 96 }
    else record { network = v6 m; ones = ones }

-- The network of an address and a number of bits, as `ParseCIDR` returns it.
unfoldable pub network_of : Ip → ℕ → IpNet
unfolding masked_v6
network_of (v4 n) ones = record {
  network = v4 (n / 2 ^ (32 - ones) * 2 ^ (32 - ones));
  ones = ones;
}
network_of (v6 n) ones = masked_v6 ones (n / 2 ^ (128 - ones) * 2 ^ (128 - ones))

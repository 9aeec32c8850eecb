-- ===== src/Net/Tests.antt =====
-- Addresses in the forms that the tests of Go give.
use nitella.Base.{◌≡◌, refl, none, some}
use nitella.Net.{v4, v6, to4, network_of}
use nitella.Net.HostPort.{split_host}
use nitella.Net.Parse.{parse_ip, parse_cidr}

loopback : parse_ip "::1" ≡ some (v6 1)
unfolding parse_ip to4
loopback = refl

full_v6 : parse_ip "2001:db8::ff00:42:8329" ≡ some (v6 0x20010db8000000000000ff0000428329)
unfolding parse_ip to4
full_v6 = refl

mapped : parse_ip "::ffff:10.0.0.1" ≡ parse_ip "10.0.0.1"
unfolding parse_ip to4
mapped = refl

leading_zero : parse_ip "10.0.0.01" ≡ none
unfolding parse_ip to4
leading_zero = refl

private_net : parse_cidr "10.1.2.3/8" ≡ some (record { network = v4 0x0a000000; ones = 8 })
unfolding parse_cidr network_of
private_net = refl

split_host_runs :
    (split_host "10.0.0.7:80" ≡ some "10.0.0.7")
    × (split_host "[fe80::1%eth0]:80" ≡ some "fe80::1%eth0")
    × (split_host "::1" ≡ none)
    × (split_host "[::1]" ≡ none)
    × (split_host "pipe" ≡ none)
    × (split_host ":80" ≡ some "")
unfolding split_host
split_host_runs = (refl, refl, refl, refl, refl, refl)

-- ===== src/Tests/Addresses.antt =====
-- The keys of some client addresses.
use workers_auth.Prelude.{◌≡◌, refl}
use workers_auth.Pin.{all_digits, contains}
use workers_auth.Ip.{ip_rate_limit_key}

key_of_ipv4 : ip_rate_limit_key "010.1.2.255" ≡ "10.1.2.255"
unfolding ip_rate_limit_key all_digits contains
key_of_ipv4 = refl

key_of_mapped : ip_rate_limit_key " [::FFFF:203.0.113.7] " ≡ "203.0.113.7"
unfolding ip_rate_limit_key all_digits contains
key_of_mapped = refl

key_of_ipv6 : ip_rate_limit_key "2001:DB8::1%eth0" ≡ "2001:db8:0:0::/64"
unfolding ip_rate_limit_key all_digits contains
key_of_ipv6 = refl

key_of_full : ip_rate_limit_key "1:2:3:4:5:6:7:8" ≡ "1:2:3:4::/64"
unfolding ip_rate_limit_key all_digits contains
key_of_full = refl

key_of_other : ip_rate_limit_key "1:2:::3" ≡ "1:2:::3"
unfolding ip_rate_limit_key all_digits contains
key_of_other = refl

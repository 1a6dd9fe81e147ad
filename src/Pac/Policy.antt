-- ===== src/Pac/Policy.antt =====
-- src/pac/policy.rs: what a script may find out. A duration is a number of nanoseconds, a
-- point in time one before or after the epoch.
use Prim.Native.Nat.{◌^◌}
use proxy_watch.Prelude.{ℕ, ◌*◌, Bool, false, Option, none, some, unwrap_or}
use proxy_watch.Prelude.Integer.{ℤ, pos}
use proxy_watch.Text.Address.{IpAddr, v4}

abbrev pub default_pac_timeout : ℕ
default_pac_timeout = 5 * 10 ^ 9

pub record PacPolicy : Type 0 where
  pub resolve_dns : Bool
  pub allow_internal_addresses : Bool
  pub my_ip_address : Option IpAddr
  pub timeout : Option ℕ
  pub local_utc_offset : ℤ
  -- the nanoseconds after the start of 1970
  pub now : Option ℤ

abbrev pub new : PacPolicy
new = record {
  resolve_dns = false;
  allow_internal_addresses = false;
  my_ip_address = none;
  timeout = some default_pac_timeout;
  local_utc_offset = pos 0;
  now = none;
}

unfoldable pub with_dns_resolution : Bool → PacPolicy → PacPolicy
with_dns_resolution enabled p = record p { resolve_dns = enabled }

unfoldable pub with_internal_addresses : Bool → PacPolicy → PacPolicy
with_internal_addresses allowed p = record p { allow_internal_addresses = allowed }

unfoldable pub with_my_ip_address : IpAddr → PacPolicy → PacPolicy
with_my_ip_address address p = record p { my_ip_address = some address }

unfoldable pub with_timeout : Option ℕ → PacPolicy → PacPolicy
with_timeout timeout p = record p { timeout = timeout }

unfoldable pub with_local_utc_offset : ℤ → PacPolicy → PacPolicy
with_local_utc_offset seconds p = record p { local_utc_offset = seconds }

unfoldable pub with_now : ℤ → PacPolicy → PacPolicy
with_now now p = record p { now = some now }

-- `127.0.0.1` where the policy names no address.
unfoldable pub my_ip_address : PacPolicy → IpAddr
my_ip_address p = unwrap_or p.my_ip_address (v4 0x7f000001)

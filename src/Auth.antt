-- ===== src/Auth.antt =====
-- src/auth.rs: proxy credentials.
use proxy_watch.Prelude.{Bool, true, false, Option, none, some}
use proxy_watch.Text.{Text}

pub data Password : Type 0 where
  present : Text → Password
  absent not_read in_keychain : Password

pub data PasswordState : Type 0 where
  present absent not_read in_keychain : PasswordState

pub record ProxyAuth : Type 0 where
  pub username : Text
  pub password : Password

abbrev optional_password : Option Text → Password
optional_password none = Password.absent
optional_password (some p) = Password.present p

unfoldable pub new : Text → Option Text → ProxyAuth
new username password = record { username = username; password = optional_password password }

unfoldable pub from_username : Text → ProxyAuth
unfolding new
from_username username = new username none

-- A password that was read stays.
abbrev missing_because : Password → Password → Password
missing_because reason (Password.present p) = Password.present p
missing_because reason _ = reason

unfoldable pub mark_missing : Password → ProxyAuth → ProxyAuth
mark_missing reason a = record a { password = missing_because reason a.password }

unfoldable pub password_not_read : ProxyAuth → ProxyAuth
unfolding mark_missing
password_not_read = mark_missing Password.not_read

unfoldable pub password_in_keychain : ProxyAuth → ProxyAuth
unfolding mark_missing
password_in_keychain = mark_missing Password.in_keychain

abbrev password_text : Password → Option Text
password_text (Password.present p) = some p
password_text _ = none

unfoldable pub get_password : ProxyAuth → Option Text
get_password a = password_text a.password

unfoldable pub has_password : ProxyAuth → Bool
has_password a = elim a.password [ Password.present _ ↦ true | _ ↦ false ]

abbrev state_of : Password → PasswordState
state_of (Password.present _) = PasswordState.present
state_of Password.absent = PasswordState.absent
state_of Password.not_read = PasswordState.not_read
state_of Password.in_keychain = PasswordState.in_keychain

unfoldable pub password_state : ProxyAuth → PasswordState
password_state a = state_of a.password

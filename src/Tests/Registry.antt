-- ===== src/Tests/Registry.antt =====
-- The settings of Windows, from made-up keys.
use proxy_watch.Mode.{direct}
use proxy_watch.Prelude.{true, All, ◌&&◌, none, some, ◌≡◌, ◌↔◌, refl, if◌then◌else◌}
use proxy_watch.Prelude.Result.{ok, err}
use proxy_watch.Tests.Data.{toy_crates}
use proxy_watch.Text.{lit, split, text_eq}
use proxy_watch.Watch.Options
use proxy_watch.Windows.{windows_manual, is_server_separator}
use proxy_watch.Windows.Tokens.{windows_manual-direct_iff, is_blank}
use proxy_watch.Windows.Registry.{
  RegKey, Values, Answers, file_not_found, other_code, read_values, mode_from_registry,
  decides_whether_to_proxy, read_config,
}
use proxy_watch.Windows.Registry.Accounts.{Accounts, read_config-Accounts}
use proxy_watch.Windows.Registry.Silence.{names_no_proxy, mode_from_registry-direct_iff}

-- A key that switches its server on.
abbrev switched_on : RegKey
switched_on = record {
  dword_value = λ name. ok (if text_eq name (lit "ProxyEnable") then some 1 else none);
  string_value =
      λ name. ok (if text_eq name (lit "ProxyServer") then some (lit "p:3128") else none);
}

abbrev values : Values
values = record {
  enable = some 1;
  server = some (lit "p:3128");
  overrides = none;
  auto_config_url = none;
  auto_detect = none;
}

mode_from_registry-direct_iff_example :
    (mode_from_registry switched_on ≡ ok (some direct))
    ↔ ((decides_whether_to_proxy (some 1) none none && names_no_proxy values) ≡ true)
unfolding read_values text_eq
mode_from_registry-direct_iff_example = mode_from_registry-direct_iff switched_on values refl

-- The query of the user fails, and the machine has no default.
abbrev answers : Answers
answers = record {
  policy_key = ok none;
  user_key = ok (some switched_on);
  ie_query = err (other_code 5);
  winhttp_query = err file_not_found;
}

read_config-Accounts_example : Accounts true answers (read_config 7 Options.new answers)
read_config-Accounts_example = read_config-Accounts 7 Options.new answers

-- A server string whose only token names a scheme that is not known.
windows_manual-direct_iff_example :
    (windows_manual (lit "gopher=p:70; ") (lit "<local>") ≡ direct)
    ↔ All (λ t. is_blank t ≡ true) (split is_server_separator (lit "gopher=p:70; "))
windows_manual-direct_iff_example = windows_manual-direct_iff (lit "gopher=p:70; ") (lit "<local>")

-- ===== src/Reason.antt =====
-- Why a text is refused: one constructor for each message of the program (util.rs, endpoint.rs,
-- bypass.rs). The wording of a message is left out, and what it is computed from is kept.
use proxy_watch.Prelude.{ℕ}
use proxy_watch.Text.{Text}

pub data Reason : Type 0 where
  -- split_host_port
  unbalanced_bracket text_after_bracket : Reason
  -- the characters of the port, and how many of them are ASCII digits
  invalid_port : ℕ → ℕ → Reason
  -- parse_host
  missing_host : Reason
  invalid_ipv6 invalid_host : Text → Reason
  -- ProxyEndpoint::parse
  empty_address at_after_path not_text empty_port : Reason
  -- HostPattern::parse_in
  has_credentials has_whitespace names_scheme windows_slash windows_leading_dot : Reason
  not_decimal_cidr bad_cidr trailing_dot macos_port bad_bracketed : Reason
  forbidden_char : ℕ → Reason
  idna_glob idna_invalid empty_label subdomain_of_address unreachable_name : Reason
  gnome_literal_star macos_literal_star not_decimal_ipv4 : Reason

-- ===== src/Error.antt =====
-- src/error.rs: the errors, with the redacting constructors. An error of another crate is its text,
-- and a duration a number.
use proxy_watch.Crates.{Url}
use proxy_watch.Diagnostic.{RejectedValue}
use proxy_watch.Prelude.{ℕ}
use proxy_watch.Reason.{Reason}
use proxy_watch.Scheme.{Scheme}
use proxy_watch.Text.{Text}
use proxy_watch.Util.Redact.{redact_offending_token, redact_and_sanitize_untrusted}

pub data Error : Type 0 where
  invalid_proxy_server invalid_bypass_pattern : Text → Reason → Error
  invalid_proxy_url : Text → Text → Error
  unsupported_proxy_scheme : Text → Error
  cgi_http_proxy : Text → Error
  io : Text → Text → Error
  sandboxed : Text → Text → Error
  unsupported : Error
  pac_not_supported : Text → Error
  proxy_entry_unusable : Scheme → RejectedValue → Error
  pac_fetch_required : Url → Error
  pac_evaluation : Text → Error
  pac_timeout : ℕ → Error
  pac_saturated : ℕ → ℕ → Error
  pac_invalid_result : Text → Error
  pac_engine_unavailable : Error

-- `Error::proxy_server`, `Error::bypass`, `Error::pac_invalid_result`
unfoldable pub proxy_server : Text → Reason → Error
proxy_server input reason = invalid_proxy_server (redact_offending_token input) reason

unfoldable pub bypass : Text → Reason → Error
bypass input reason = invalid_bypass_pattern (redact_offending_token input) reason

unfoldable pub invalid_result : Text → Error
invalid_result text = pac_invalid_result (redact_and_sanitize_untrusted text)

-- `Error::invalid_proxy_url`
unfoldable pub invalid_url : Text → Text → Error
invalid_url input source = invalid_proxy_url (redact_offending_token input) source

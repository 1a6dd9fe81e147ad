-- ===== src/Diagnostic.antt =====
-- src/diagnostic.rs: the record of a value that a reader dropped.
use proxy_watch.Prelude.{Option, none}
use proxy_watch.Scheme.{Scheme}
use proxy_watch.Text.{Text}
use proxy_watch.Util.Redact.{redact_offending_token}

pub data RejectionKind : Type 0 where
  invalid_proxy_endpoint invalid_bypass_pattern unknown_proxy_scheme : RejectionKind
  unsupported_mapping : RejectionKind

pub data RejectionSource : Type 0 where
  proxy_server bypass_list : RejectionSource
  environment_variable kioslaverc gsettings system_configuration proxy_info : Text → RejectionSource

pub record RejectedValue : Type 0 where
  pub kind : RejectionKind
  pub source : RejectionSource
  pub redacted_input : Text
  pub affected_scheme : Option Scheme

unfoldable pub new : RejectionKind → RejectionSource → Text → RejectedValue
new kind source input = record {
  kind = kind;
  source = source;
  redacted_input = redact_offending_token input;
  affected_scheme = none;
}

unfoldable pub for_scheme : Option Scheme → RejectedValue → RejectedValue
for_scheme scheme v = record v { affected_scheme = scheme }

-- ===== src/Tests/Data.antt =====
-- The values that the tests share, with a toy host parser in place of the crates.
use proxy_watch.Bypass.Pattern.{HostPattern, suffix, subtract_implicit}
use proxy_watch.Bypass.Rules
use proxy_watch.Bypass.Rules.{BypassRules}
use proxy_watch.Config.{ProxyConfig, gsettings}
use proxy_watch.Config.Env.{ProxyEnv}
use proxy_watch.Crates.{Crates, Host, domain, Url}
use proxy_watch.Diagnostic.{RejectedValue, unknown_proxy_scheme, proxy_server}
use proxy_watch.Endpoint.{ProxyEndpoint, use_endpoint, unusable}
use proxy_watch.Mode.{ProxyMode, manual_mode}
use proxy_watch.Mode.Table.{Slots, no_slots, insert}
use proxy_watch.Prelude.{String, true, false, none, some, [], ◌∷◌, if◌then◌else◌, is_nil}
use proxy_watch.Prelude.Result.{err}
use proxy_watch.Scheme.{Scheme}
use proxy_watch.Text.{lit}
use proxy_watch.Text.Address.{v4}

-- Every text but the empty one is a domain, and no text is a network.
instance abbrev pub toy_crates : Crates
toy_crates = record {
  url_parse = λ t. err (lit "no URL");
  host_parse = λ t. if is_nil t then none else some (domain t);
  net_parse = λ t. none;
  net_new = λ a p. none;
  net_trunc = λ n. v4 0;
  net_contains = λ n i. false;
}

abbrev pub host_at : String → Host
host_at name = domain (lit name)

abbrev pub proxy_at : String → ProxyEndpoint
proxy_at name = record { scheme_hint = none; host = host_at name; port = 3128; auth = none }

abbrev pub lost : RejectedValue
lost = record {
  kind = unknown_proxy_scheme;
  source = proxy_server;
  redacted_input = lit "gopher=old:70";
  affected_scheme = some Scheme.http;
}

abbrev pub corp : HostPattern
corp = suffix (lit "corp") true none

abbrev pub local_rules : BypassRules
local_rules = record Rules.new { patterns = corp ∷ subtract_implicit ∷ corp ∷ [] }

abbrev pub inclusion : BypassRules
inclusion = record local_rules { reversed_exceptions = true }

abbrev pub two_slots : Slots
two_slots =
    insert Scheme.https (use_endpoint (proxy_at "secure"))
      (insert Scheme.http (unusable lost) no_slots)

abbrev pub two_slots_mode : ProxyMode
two_slots_mode = manual_mode two_slots local_rules (lost ∷ [])

abbrev pub request : String → String → Url
request scheme name = record {
  scheme = lit scheme;
  host = some (host_at name);
  port = none;
  port_or_known_default = some 443;
  as_str = lit name;
}

abbrev pub desktop_config : ProxyConfig
desktop_config = record {
  effective = two_slots_mode;
  sources = (gsettings, two_slots_mode) ∷ [];
  fallbacks = [];
  captured_at = 20;
}

abbrev pub proxied_env : ProxyEnv
proxied_env = record {
  per_scheme = insert Scheme.all (use_endpoint (proxy_at "env")) no_slots;
  bypass = Rules.new;
  rejected = [];
  captured_at = 10;
}

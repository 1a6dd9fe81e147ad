-- ===== src/Config.antt =====
-- src/config.rs: the snapshot, and the fold of the process environment into it. src/env.rs: the
-- environment. A time is a number; the current time is an argument.
pub mod Env
pub mod Precedence
pub mod Cgi
use proxy_watch.Config.Env.{ProxyEnv, is_configured, to_mode}
use proxy_watch.Mode.{ProxyMode, direct, is_direct}
use proxy_watch.Prelude.{
  ℕ, Bool, true, false, not, ◌&&◌, ◌||◌, Option, none, some, List, [], ◌∷◌, ◌++◌, if◌then◌else◌,
  min, all, find, first, is_nil, map_option, unwrap_or,
}

pub data ProxyConfigSource : Type 0 where
  registry group_policy win_http_default system_configuration_setup : ProxyConfigSource
  system_configuration_state gsettings kioslaverc kioslaverc_env portal env : ProxyConfigSource
  connectivity_manager cf_network_system_settings : ProxyConfigSource

-- The derived `PartialEq`, by the position of the variant.
abbrev rank : ProxyConfigSource → ℕ
rank registry = 0
rank group_policy = 1
rank win_http_default = 2
rank system_configuration_setup = 3
rank system_configuration_state = 4
rank gsettings = 5
rank kioslaverc = 6
rank kioslaverc_env = 7
rank portal = 8
rank env = 9
rank connectivity_manager = 10
rank cf_network_system_settings = 11

abbrev pub source_eq : ProxyConfigSource → ProxyConfigSource → Bool
source_eq a b = proxy_watch.Prelude.◌==◌ (rank a) (rank b)

abbrev pub Source : Type 0
Source = ProxyConfigSource × ProxyMode

pub record ProxyConfig : Type 0 where
  pub effective : ProxyMode
  pub sources : List Source
  pub fallbacks : List ProxyConfigSource
  pub captured_at : ℕ

unfoldable pub new : ℕ → ProxyMode → List Source → ProxyConfig
new now effective sources = record {
  effective = effective;
  sources = sources;
  fallbacks = [];
  captured_at = now;
}

unfoldable pub with_fallbacks : List ProxyConfigSource → ProxyConfig → ProxyConfig
with_fallbacks fallbacks c = record c { fallbacks = fallbacks }

-- The mode of the first source, or direct.
abbrev pub leading_mode : List Source → ProxyMode
leading_mode [] = direct
leading_mode ((source, mode) ∷ sources) = mode

unfoldable pub from_ordered_sources : ℕ → List Source → ProxyConfig
unfolding new
from_ordered_sources now sources = new now (leading_mode sources) sources

unfoldable pub from_source : ℕ → ProxyConfigSource → ProxyMode → ProxyConfig
unfolding from_ordered_sources
from_source now source mode = from_ordered_sources now ((source, mode) ∷ [])

unfoldable pub direct_config : ℕ → ProxyConfig
unfolding from_ordered_sources
direct_config now = from_ordered_sources now []

unfoldable pub source_mode : ProxyConfigSource → List Source → Option ProxyMode
source_mode s [] = none
source_mode s ((source, mode) ∷ sources) =
    if source_eq source s then some mode else source_mode s sources

pub data EnvPrecedence : Type 0 where
  before_system after_system : EnvPrecedence

abbrev pub only_env : List Source → Bool
only_env = all (λ s. source_eq s.0 env)

-- Whether the environment takes the rank that it is asked for.
unfoldable pub env_wins : ProxyConfig → ProxyEnv → EnvPrecedence → Bool
env_wins c e before_system = is_configured e
env_wins c e after_system = is_configured e && (is_direct c.effective && only_env c.sources)

-- The environment specifies nothing and dropped nothing.
unfoldable pub says_nothing : ProxyEnv → Bool
says_nothing e = not (is_configured e) && is_nil e.rejected && is_nil e.bypass.rejected

fold_env : ProxyConfig → ProxyEnv → Bool → ProxyConfig
fold_env c e true = record c {
  effective = to_mode e;
  sources = (env, to_mode e) ∷ c.sources;
  captured_at = min c.captured_at e.captured_at;
}
fold_env c e false = record c {
  sources = c.sources ++ (env, to_mode e) ∷ [];
  captured_at = min c.captured_at e.captured_at;
}

unfoldable pub with_env : ProxyEnv → EnvPrecedence → ProxyConfig → ProxyConfig
unfolding env_wins says_nothing fold_env
with_env e precedence c = if says_nothing e then c else fold_env c e (env_wins c e precedence)

-- `ProxyEnv::to_config`
unfoldable pub env_config : ℕ → ProxyEnv → ProxyConfig
unfolding from_source
env_config now e = record (from_source now env (to_mode e)) { captured_at = e.captured_at }

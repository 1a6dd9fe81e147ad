-- ===== src/Config/Precedence.antt =====
-- How the environment ranks against the sources of the operating system.
use proxy_watch.Config.{
  ProxyConfig, ProxyConfigSource, env, Source, EnvPrecedence, before_system, after_system,
  leading_mode, with_env, from_ordered_sources, source_mode, source_eq,
}
use proxy_watch.Config.Env.{ProxyEnv, is_configured, to_mode}
use proxy_watch.Mode.{ProxyMode, direct, is_direct}
use proxy_watch.Prelude.{
  ℕ, true, false, List, [], ◌∷◌, ◌++◌, ◌≡◌, ◌≢◌, ◌⊎◌, inl, inr, refl, arith, ◌∙◌,
}

-- The effective mode is that of the first source, or direct.
abbrev pub IsOrdered : ProxyConfig → Type 0
IsOrdered c = c.effective ≡ leading_mode c.sources

pub from_ordered_sources-IsOrdered :
    (now : ℕ) (sources : List Source) → IsOrdered (from_ordered_sources now sources)
unfolding from_ordered_sources
from_ordered_sources-IsOrdered now sources = refl

leading_mode-append :
    (sources : List Source) (s : Source)
    → sources ≢ []
    → leading_mode (sources ++ s ∷ []) ≡ leading_mode sources
leading_mode-append [] s h = absurd (h refl)
leading_mode-append (x ∷ sources) s h = refl

is_direct→eq : (m : ProxyMode) → is_direct m ≡ true → m ≡ direct
unfolding is_direct
is_direct→eq m h = ground arith

module _ (sources : List Source) (s : ProxyConfigSource) (m : ProxyMode)
    (h : source_eq env s ≡ false) where
  source_mode-cons : source_mode s ((env, m) ∷ sources) ≡ source_mode s sources
  unfolding source_mode
  source_mode-cons = ground arith

source_mode-append :
    (sources : List Source) (s : ProxyConfigSource) (m : ProxyMode)
    → source_eq env s ≡ false
    → source_mode s (sources ++ (env, m) ∷ []) ≡ source_mode s sources
unfolding source_mode
source_mode-append [] s m h = ground arith
source_mode-append ((t, n) ∷ sources) s m h = ground (arith, source_mode-append sources s m h)

leading_mode-append_or_empty :
    (sources : List Source) (s : Source)
    → ((sources ≡ []) × (leading_mode sources ≡ direct))
      ⊎ (leading_mode (sources ++ s ∷ []) ≡ leading_mode sources)
leading_mode-append_or_empty [] s = inl (refl, refl)
leading_mode-append_or_empty (x ∷ sources) s = inr refl

with_env-IsOrdered_empty :
    (c : ProxyConfig) (e : ProxyEnv) (p : EnvPrecedence)
    → is_configured e ≡ true
    → c.effective ≡ direct
    → c.sources ≡ []
    → IsOrdered (with_env e p c)
unfolding with_env is_direct
with_env-IsOrdered_empty c e before_system k h n = ground (arith)
with_env-IsOrdered_empty c e after_system k h n = ground (arith)

-- Folding a configured environment into an ordered snapshot, or any environment into an ordered
-- snapshot that has a source, leaves it ordered: the effective mode is that of the leading source.
pub with_env-IsOrdered :
    (c : ProxyConfig) (e : ProxyEnv) (p : EnvPrecedence)
    → IsOrdered c
    → ((is_configured e ≡ true) ⊎ (c.sources ≢ []))
    → IsOrdered (with_env e p c)
unfolding with_env
with_env-IsOrdered c e before_system h (inl k) = ground arith
with_env-IsOrdered c e after_system h (inl k) =
    elim (leading_mode-append_or_empty c.sources (env, to_mode e)) [
      | inl empty ↦ with_env-IsOrdered_empty c e after_system k (h ∙ empty.1) empty.0
      | inr same ↦ ground (arith, same)
    ]
with_env-IsOrdered c e before_system h (inr k) =
    ground (arith, leading_mode-append c.sources (env, to_mode e) k)
with_env-IsOrdered c e after_system h (inr k) =
    ground (arith, leading_mode-append c.sources (env, to_mode e) k)

-- Whatever the ranking, folding keeps every source of the snapshot with its mode, but that asking
-- for the environment itself may find the new entry.
pub with_env-source_mode :
    (c : ProxyConfig) (e : ProxyEnv) (p : EnvPrecedence) (s : ProxyConfigSource)
    → source_eq env s ≡ false
    → source_mode s (with_env e p c).sources ≡ source_mode s c.sources
unfolding with_env
with_env-source_mode c e p s h = ground (
  arith,
  source_mode-append c.sources s (to_mode e) h,
  source_mode-cons c.sources s (to_mode e) h,
)

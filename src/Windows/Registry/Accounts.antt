-- ===== src/Windows/Registry/Accounts.antt =====
-- What the snapshot of the settings of Windows accounts for.
use proxy_watch.Config
use proxy_watch.Config.{
  ProxyConfig, ProxyConfigSource, registry, group_policy, win_http_default, source_eq, Source,
  source_mode, from_ordered_sources, with_fallbacks,
}
use proxy_watch.Crates.{Crates}
use proxy_watch.Error.{Error}
use proxy_watch.Mode.{ProxyMode}
use proxy_watch.Prelude.{ℕ, Bool, true, false, not, ◌&&◌, Option, none, some, ◌≡◌, any, arith}
use proxy_watch.Prelude.Result.{Result, ok, err, is_ok}
use proxy_watch.Watch.Options.{WatchOptions}
use proxy_watch.Windows.Registry.{
  Answers, Failure, other_code, IeProxyConfig, WinHttpDefaultConfig, read_group_policy_mode,
  user_key_mode, ie_mode, winhttp_default_mode, read_config,
}

abbrev pub failed : {A : Type 0} → Result Failure A → Bool
failed (err (other_code code)) = true
failed _ = false

abbrev pub noted : ProxyConfigSource → ProxyConfig → Bool
noted source c = any (λ s. source_eq s source) c.fallbacks

-- The mode of the policy, if it is watched.
abbrev pub policy_answer : Bool → Result Error (Option ProxyMode) → Option ProxyMode
policy_answer true (ok mode) = mode
policy_answer true (err e) = none
policy_answer false _ = none

module _ ⦃crates : Crates⦄ where
  -- The mode of the user: what the query answers, else what the key says.
  abbrev pub user_answer : Answers → Result Failure IeProxyConfig → Result Error ProxyMode
  user_answer answers (ok config) = ie_mode config
  user_answer answers (err _) = user_key_mode answers

  abbrev pub machine_answer : Result Failure WinHttpDefaultConfig → Option ProxyMode
  machine_answer (ok config) = some (winhttp_default_mode config)
  machine_answer (err _) = none

  -- What a snapshot holds, or why there is none.
  abbrev pub Accounts : Bool → Answers → Result Error ProxyConfig → Type 0
  Accounts watched answers (err e) = user_answer answers answers.ie_query ≡ err e
  Accounts watched answers (ok c) =
      (user_answer answers answers.ie_query ≡ ok c.effective)
      × (source_mode registry c.sources ≡ some c.effective)
      × (source_mode group_policy c.sources
          ≡ policy_answer watched (read_group_policy_mode answers))
      × (source_mode win_http_default c.sources ≡ machine_answer answers.winhttp_query)
      × (noted registry c ≡ failed answers.ie_query)
      × (noted group_policy c ≡ (watched && not (is_ok (read_group_policy_mode answers))))
      × (noted win_http_default c ≡ failed answers.winhttp_query)

  -- A snapshot of the settings of Windows fails only with the error of the user's settings. Else it
  -- has the mode of the user, as its effective one and as that of its source; the mode of the
  -- policy, if that is watched, could be read and says something; the mode of the machine, if there
  -- is one; and among its fallbacks exactly the sources that failed for another reason than having
  -- nothing to report.
  pub read_config-Accounts :
      (now : ℕ) (options : WatchOptions) (answers : Answers)
      → Accounts options.watch_group_policy answers (read_config now options answers)
  unfolding read_config Config.new from_ordered_sources with_fallbacks source_mode
  read_config-Accounts now options answers = ground arith

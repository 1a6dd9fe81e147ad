-- ===== src/Bypass/Rules/Verdicts.antt =====
-- Which entry decides a verdict, and what a rejected entry does to it.
use proxy_watch.Bypass.Match.{covers, reduce_mapped}
use proxy_watch.Bypass.Pattern.{HostPattern, host_key, host_ip}
use proxy_watch.Bypass.Rules.{
  BypassRules, Act, skips, subtracts, bypasses, bypass_loopback, walk, act_on, matches_text,
  matches,
}
use proxy_watch.Bypass.Rules.Walk.{forward, overwrite, walk-reverse, forward-last, forward-skips}
use proxy_watch.Crates.{Host, Crates}
use proxy_watch.Diagnostic.{RejectedValue}
use proxy_watch.Prelude.{
  is_nil-concat, ℕ, Bool, true, false, not, ◌&&◌, ◌||◌, Option, List, [], ◌∷◌, ◌++◌, ◌≡◌, ◌≢◌, refl,
  ap, ◌∙◌, reverse, if◌then◌else◌, arith, All, is_nil, map_option,
}
use proxy_watch.Text.{lit, has, without_suffix}

module _ ⦃crates : Crates⦄ (r : BypassRules) (host : Host) (port : Option ℕ) where
  -- What one entry of the list does for this destination.
  abbrev pub act_of : HostPattern → Act
  act_of p =
      act_on (covers r.implicit (host_key host) (host_ip host)) (host_key host)
        (if r.strip_trailing_dot then without_suffix (lit ".") (host_key host) else host_key host)
        (if r.ipv4_mapped_as_ipv4 then map_option reduce_mapped (host_ip host) else host_ip host)
        port r.ipv4_mapped_as_ipv4 p

  -- The switch for simple host names takes the destination before any entry is read.
  abbrev pub switched : Bool
  switched =
      r.exclude_simple_hostnames
      && not (has b'.' (host_key host))
      && (bypass_loopback r || not (covers r.implicit (host_key host) (host_ip host)))

  -- What holds of a destination that no entry names.
  abbrev pub unnamed : Bool
  unnamed = r.reversed_exceptions && is_nil r.rejected

  abbrev pub default_verdict : Bool
  default_verdict = covers r.implicit (host_key host) (host_ip host) || unnamed

  -- The verdict that an act gives.
  abbrev pub settled : Act → Bool
  settled skips = default_verdict
  settled subtracts = unnamed
  settled bypasses = not r.reversed_exceptions

  overwrite-settled :
      (a : Act) (v : Bool)
      → a ≢ skips
      → overwrite act_of unnamed (not r.reversed_exceptions) a v ≡ settled a
  overwrite-settled skips v h = absurd (h refl)
  overwrite-settled subtracts v h = refl
  overwrite-settled bypasses v h = refl

  matches-forward :
      host_key host ≢ []
      → switched ≡ false
      → matches r host port
        ≡ forward act_of unnamed (not r.reversed_exceptions) default_verdict r.patterns
  unfolding matches matches_text
  matches-forward named off =
      ground
        (arith, walk-reverse act_of unnamed (not r.reversed_exceptions) r.patterns default_verdict)

  -- A destination with a name, that the switch does not take, is decided by the last entry that
  -- acts on it: a bypass gives the list's own sense, and the token gives the verdict on unnamed
  -- destinations. The entries behind it that do nothing, and all entries before it, do not count.
  pub matches-last_act :
      (before : List HostPattern) (p : HostPattern) (after : List HostPattern)
      → r.patterns ≡ before ++ p ∷ after
      → host_key host ≢ []
      → switched ≡ false
      → act_of p ≢ skips
      → All (λ q. act_of q ≡ skips) after
      → matches r host port ≡ settled (act_of p)
  matches-last_act before p after e named off acts rest =
      matches-forward named off
      ∙ ap (forward act_of unnamed (not r.reversed_exceptions) default_verdict) e
      ∙ forward-last act_of unnamed (not r.reversed_exceptions) before p after default_verdict rest
      ∙ overwrite-settled (act_of p) _ acts

  -- A destination with a name, that the switch does not take and no entry acts on, goes direct
  -- exactly where the implicit set has it, or the list is an inclusion list with nothing rejected.
  pub matches-no_act :
      host_key host ≢ []
      → switched ≡ false
      → All (λ q. act_of q ≡ skips) r.patterns
      → matches r host port ≡ default_verdict
  matches-no_act named off rest =
      matches-forward named off
      ∙ forward-skips act_of unnamed (not r.reversed_exceptions) r.patterns default_verdict rest

module _ (act : HostPattern → Act) (named : Bool) where
  walk_mono :
      (ps : List HostPattern) (u v u' v' : Bool)
      → (u ≡ true → u' ≡ true)
      → (v ≡ true → v' ≡ true)
      → walk act u named v ps ≡ true
      → walk act u' named v' ps ≡ true
  unfolding walk
  walk_mono [] u v u' v' hu hv h = hv h
  walk_mono (p ∷ ps) u v u' v' hu hv h = ground (arith, hu, walk_mono ps u v u' v' hu hv)

module _ ⦃crates : Crates⦄ where
  -- Recording one more rejected entry never sends a destination direct that was proxied before,
  -- also in an inclusion list, where a rejected entry changes the verdict on unnamed destinations.
  pub matches-rejected :
      (r : BypassRules) (x : RejectedValue) (host : Host) (port : Option ℕ)
      → matches (record r { rejected = r.rejected ++ x ∷ [] }) host port ≡ true
      → matches r host port ≡ true
  unfolding matches matches_text bypass_loopback
  matches-rejected r x host port h = ground (
    arith,
    is_nil-concat r.rejected x,
    walk_mono (act_of r host port) (not r.reversed_exceptions) (reverse r.patterns)
        (r.reversed_exceptions && is_nil (r.rejected ++ x ∷ []))
        (covers r.implicit (host_key host) (host_ip host)
          || r.reversed_exceptions && is_nil (r.rejected ++ x ∷ []))
        (unnamed r host port) (default_verdict r host port),
  )

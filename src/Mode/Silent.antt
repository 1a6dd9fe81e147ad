-- ===== src/Mode/Silent.antt =====
-- src/mode.rs: when a reader's answer is the direct mode.
use proxy_watch.Error.{Error}
use proxy_watch.Mode.{ProxyMode, direct, is_direct}
use proxy_watch.Prelude.{Bool, true, false, ◌≡◌, ◌↔◌, refl, ap, arith, if◌then◌else◌}
use proxy_watch.Prelude.Result.{Result, ok, err}

pub unless-direct :
    (b : Bool) (mode : ProxyMode)
    → is_direct mode ≡ false
    → is_direct (if b then direct else mode) ≡ b
unfolding is_direct
unless-direct true mode h = refl
unless-direct false mode h = h

abbrev pub direct_answer : Result Error ProxyMode → Bool
direct_answer (ok mode) = is_direct mode
direct_answer (err e) = false

pub is_direct_iff : (mode : ProxyMode) → (mode ≡ direct) ↔ (is_direct mode ≡ true)
unfolding is_direct
is_direct_iff mode = (λ h. ap is_direct h, λ h. ground (arith, h))

pub direct_answer_iff : (r : Result Error ProxyMode) → (r ≡ ok direct) ↔ (direct_answer r ≡ true)
unfolding is_direct
direct_answer_iff (ok mode) = (λ h. ap direct_answer h, λ h. ground (arith, h))
direct_answer_iff (err e) = (λ h. absurd (cc h), λ h. absurd (cc h))

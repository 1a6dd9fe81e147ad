-- ===== src/Resolve/Routes.antt =====
-- What `resolve` answers, on every branch.
use proxy_watch.Bypass.Rules.{BypassRules, matches_url}
use proxy_watch.Config.{ProxyConfig}
use proxy_watch.Crates.{Url, Crates}
use proxy_watch.Diagnostic.{RejectedValue}
use proxy_watch.Endpoint.{
  ProxyEndpoint, ProxyEntry, use_endpoint, disabled, unusable, has_request_host,
}
use proxy_watch.Mode.{ProxyMode, direct, manual_mode, pac_mode, pac_inline_mode, wpad_auto_detect}
use proxy_watch.Mode.Lookup.{is_live, entry_for-prefer}
use proxy_watch.Mode.Table.{Slots, get}
use proxy_watch.Prelude.{
  true, false, ◌||◌, Option, none, some, List, [], ◌∷◌, ◌≡◌, ◌⊎◌, inl, inr, refl, arith, Bool-cases,
}
use proxy_watch.Prelude.Result.{ok}
use proxy_watch.Resolve.{
  ProxyStep, direct_step, step_endpoint, from_endpoint, request_scheme, Steps, answer, is_websocket,
  entry_of_url, resolve_mode, resolve, resolve_with_pac_using,
}
use proxy_watch.Scheme.{Scheme}
use proxy_watch.Text.{Text}

from_endpoint-endpoint : (e : ProxyEndpoint) → step_endpoint (from_endpoint e) ≡ some e
unfolding from_endpoint step_endpoint
from_endpoint-endpoint e = ground arith

answer-one_step :
    (o : Option ProxyEntry) (steps : List ProxyStep)
    → answer o ≡ ok steps
    → (s : ProxyStep) × (steps ≡ s ∷ [])
unfolding answer
answer-one_step none steps h = (direct_step, cc)
answer-one_step (some (use_endpoint e)) steps h = (from_endpoint e, cc)
answer-one_step (some disabled) steps h = (direct_step, cc)
answer-one_step (some (unusable v)) steps h = cc

answer-endpoint :
    (o : Option ProxyEntry) (s : ProxyStep) (e : ProxyEndpoint)
    → answer o ≡ ok (s ∷ [])
    → step_endpoint s ≡ some e
    → o ≡ some (use_endpoint e)
unfolding answer
answer-endpoint (some (use_endpoint f)) s e h k = ground (arith, from_endpoint-endpoint f)
answer-endpoint none s e h k = unfold step_endpoint in ground arith
answer-endpoint (some disabled) s e h k = unfold step_endpoint in ground arith
answer-endpoint (some (unusable v)) s e h k = cc

answer-live :
    (o : Option ProxyEntry) → is_live o ≡ true → (steps : List ProxyStep) × (answer o ≡ ok steps)
unfolding answer
answer-live none h = cc
answer-live (some (use_endpoint e)) h = (from_endpoint e ∷ [], refl)
answer-live (some disabled) h = (direct_step ∷ [], refl)
answer-live (some (unusable v)) h = cc

module _ ⦃crates : Crates⦄ where
  resolve_mode-one_step :
      (mode : ProxyMode) (url : Url) (steps : List ProxyStep)
      → resolve_mode mode url ≡ ok steps
      → (s : ProxyStep) × (steps ≡ s ∷ [])
  unfolding resolve_mode
  resolve_mode-one_step direct url steps h = (direct_step, cc)
  resolve_mode-one_step (manual_mode m b r) url steps h = elim (Bool-cases (has_request_host url)) [
    | inl named ↦ elim (Bool-cases (matches_url b url)) [
      | inl hit ↦ (direct_step, ground arith)
      | inr miss ↦ answer-one_step (entry_of_url (manual_mode m b r) url) steps (ground arith)
    ]
    | inr hostless ↦ (direct_step, ground arith)
  ]
  resolve_mode-one_step (pac_mode u r) url steps h = cc
  resolve_mode-one_step (pac_inline_mode t r) url steps h = cc
  resolve_mode-one_step wpad_auto_detect url steps h = cc

  -- When a URL goes to the proxy at an endpoint.
  pub record IsProxied (mode : ProxyMode) (url : Url) (e : ProxyEndpoint) : Type 0 where
    pub slots : Slots
    pub bypass : BypassRules
    pub drops : List RejectedValue
    pub mode_is : mode ≡ manual_mode slots bypass drops
    pub has_host : has_request_host url ≡ true
    pub not_bypassed : matches_url bypass url ≡ false
    pub entry_is : entry_of_url mode url ≡ some (use_endpoint e)

  resolve_mode-endpoint :
      (mode : ProxyMode) (url : Url) (s : ProxyStep) (e : ProxyEndpoint)
      → resolve_mode mode url ≡ ok (s ∷ [])
      → step_endpoint s ≡ some e
      → IsProxied mode url e
  unfolding resolve_mode
  resolve_mode-endpoint direct url s e h k = absurd (unfold step_endpoint in ground arith)
  resolve_mode-endpoint (manual_mode m b r) url s e h k = elim (Bool-cases (has_request_host url)) [
    | inl named ↦ elim (Bool-cases (matches_url b url)) [
      | inl hit ↦ absurd (unfold step_endpoint in ground arith)
      | inr miss ↦ record {
        slots = m;
        bypass = b;
        drops = r;
        mode_is = refl;
        has_host = named;
        not_bypassed = miss;
        entry_is = answer-endpoint _ s e (ground arith) k;
      }
    ]
    | inr hostless ↦ absurd (unfold step_endpoint in ground arith)
  ]
  resolve_mode-endpoint (pac_mode u r) url s e h k = absurd (cc)
  resolve_mode-endpoint (pac_inline_mode t r) url s e h k = absurd (cc)
  resolve_mode-endpoint wpad_auto_detect url s e h k = absurd (cc)

  -- A successful answer of `resolve` is a list of exactly one step.
  pub resolve-one_step :
      (config : ProxyConfig) (url : Url) (steps : List ProxyStep)
      → resolve config url ≡ ok steps
      → (s : ProxyStep) × (steps ≡ s ∷ [])
  unfolding resolve
  resolve-one_step config = resolve_mode-one_step config.effective

  -- A step to a proxy is the endpoint of the entry that the lookup of the URL found, in a manual
  -- mode, for a URL with a host that the bypass rules do not send direct.
  pub resolve-endpoint :
      (config : ProxyConfig) (url : Url) (s : ProxyStep) (e : ProxyEndpoint)
      → resolve config url ≡ ok (s ∷ [])
      → step_endpoint s ≡ some e
      → IsProxied config.effective url e
  unfolding resolve
  resolve-endpoint config = resolve_mode-endpoint config.effective

  -- Losing an entry turns no request into an error that a live entry can still answer: where the
  -- scheme's own slot or the catch-all is live, resolving a request that is no WebSocket succeeds.
  pub resolve-live :
      (m : Slots) (b : BypassRules) (r : List RejectedValue) (url : Url)
      → is_websocket url.scheme ≡ false
      → (is_live (get m (request_scheme url.scheme)) || is_live (get m Scheme.all)) ≡ true
      → (steps : List ProxyStep) × (resolve_mode (manual_mode m b r) url ≡ ok steps)
  unfolding resolve_mode
  resolve-live m b r url w live = elim (Bool-cases (has_request_host url)) [
    | inl named ↦ elim (Bool-cases (matches_url b url)) [
      | inl hit ↦ (direct_step ∷ [], ground arith)
      | inr miss ↦
          let (steps, found) = answer-live (entry_of_url (manual_mode m b r) url) (
            unfold entry_of_url in
            ground (arith, entry_for-prefer m b r (request_scheme url.scheme))) in
          (steps, ground arith)
    ]
    | inr hostless ↦ (direct_step ∷ [], ground arith)
  ]

  -- For direct and manual modes the PAC-aware entry point gives the answer of `resolve`, whatever
  -- script and evaluator it is handed.
  pub resolve_with_pac-resolve :
      (config : ProxyConfig) (url : Url) (script : Option Text) (run : Text → Steps)
      → ((config.effective ≡ direct)
          ⊎ ((m : Slots) × (b : BypassRules) × (r : List RejectedValue) × (config.effective
                ≡ manual_mode m b r)))
      → resolve_with_pac_using config url script run ≡ resolve config url
  unfolding resolve_with_pac_using resolve
  resolve_with_pac-resolve config url script run h = ground arith

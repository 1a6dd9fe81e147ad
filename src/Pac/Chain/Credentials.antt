-- ===== src/Pac/Chain/Credentials.antt =====
-- What a PAC result can put into a step.
use proxy_watch.Crates.{Crates}
use proxy_watch.Endpoint.{ProxyEndpoint, with_scheme_hint, parse_endpoint}
use proxy_watch.Error.{Error, invalid_result}
use proxy_watch.Pac.Chain.{
  Chain, Keyword, direct_word, proxy_word, unknown_word, empty_chain, seen_step, candidate_endpoint,
  candidate_step, word_step, candidate_words, parse_candidate, push, finish, collect, is_full,
  is_result_separator, parse_find_proxy_result, keyword,
}
use proxy_watch.Prelude.{
  ◌≤◌, Option, none, some, List, [], ◌∷◌, ◌++◌, ◌≡◌, refl, subst, arith, All, Option-cases,
  Bool-cases, inl, inr,
}
use proxy_watch.Prelude.Result.{ok, ok_or, Result-cases}
use proxy_watch.Resolve.{ProxyStep, direct_step, step_endpoint, from_endpoint}
use proxy_watch.Scheme.{ProxyScheme, scheme_port}
use proxy_watch.Text.{Text, split, is_ascii_whitespace, non_empty}

-- A step to an endpoint has a port that can be reached and no credentials.
abbrev pub IsClean : ProxyStep → Type 0
IsClean s = (e : ProxyEndpoint) → step_endpoint s ≡ some e → (e.auth ≡ none) × (1 ≤ e.port)

candidate_endpoint-port :
    (scheme : ProxyScheme) (e : ProxyEndpoint) → 1 ≤ (candidate_endpoint scheme e).port
unfolding candidate_endpoint scheme_port with_scheme_hint
candidate_endpoint-port scheme e = ground arith

candidate_endpoint-auth :
    (scheme : ProxyScheme) (e : ProxyEndpoint) → (candidate_endpoint scheme e).auth ≡ none
unfolding candidate_endpoint
candidate_endpoint-auth scheme e = refl

from_endpoint-IsClean : (e : ProxyEndpoint) → e.auth ≡ none → 1 ≤ e.port → IsClean (from_endpoint e)
unfolding from_endpoint step_endpoint
from_endpoint-IsClean e a p f h = ground arith

direct-IsClean : IsClean direct_step
unfolding step_endpoint
direct-IsClean e h = cc h

All-concat :
    (steps : List ProxyStep) (s : ProxyStep)
    → All IsClean steps
    → IsClean s
    → All IsClean (steps ++ s ∷ [])
All-concat [] s hs h = (h, tt)
All-concat (t ∷ steps) s hs h = (hs.0, All-concat steps s hs.1 h)

push-IsClean :
    (s : ProxyStep) (c : Chain) → IsClean s → All IsClean c.steps → All IsClean (push s c).steps
unfolding push
push-IsClean s c h hs = elim (Bool-cases (is_full c)) [
  | inl full ↦ rw full hs
  | inr room ↦ elim (Bool-cases (seen_step s c)) [
    | inl old ↦ rw (room, old) hs
    | inr new ↦ rw (room, new) (All-concat c.steps s hs h)
  ]
]

finish-IsClean :
    (c : Chain) (e : Error) (steps : List ProxyStep)
    → ok_or e (finish c) ≡ ok steps
    → All IsClean c.steps
    → All IsClean steps
unfolding finish
finish-IsClean c e steps h hs = subst (All IsClean) (ground (arith, h)) hs

module _ ⦃crates : Crates⦄ where
  candidate_step-IsClean :
      (scheme : ProxyScheme) (address : Text) (s : ProxyStep)
      → candidate_step scheme address ≡ some s
      → IsClean s
  unfolding candidate_step
  candidate_step-IsClean scheme address s h =
      elim (Result-cases (parse_endpoint address (scheme_port scheme))) [
        | inl (e, read) ↦ subst IsClean (ground (arith, h, read)) (
            from_endpoint-IsClean (candidate_endpoint scheme e) (candidate_endpoint-auth scheme e)
              (candidate_endpoint-port scheme e))
        | inr (fault, unread) ↦ absurd (ground (arith, h, unread))
      ]

  word_step-IsClean :
      (k : Keyword) (o : Option Text) (s : ProxyStep) → word_step k o ≡ some s → IsClean s
  unfolding word_step
  word_step-IsClean direct_word none s h = subst IsClean (cc h) direct-IsClean
  word_step-IsClean (proxy_word scheme) (some address) s h =
      candidate_step-IsClean scheme address s h
  word_step-IsClean direct_word (some a) s h = cc h
  word_step-IsClean unknown_word o s h = cc h
  word_step-IsClean (proxy_word scheme) none s h = cc h

  candidate_words-IsClean :
      (words : List Text) (s : ProxyStep) → candidate_words words ≡ some s → IsClean s
  unfolding candidate_words
  candidate_words-IsClean [] s h = cc h
  candidate_words-IsClean (word ∷ []) s h = word_step-IsClean (keyword word) none s h
  candidate_words-IsClean (word ∷ address ∷ []) s h =
      word_step-IsClean (keyword word) (some address) s h
  candidate_words-IsClean (a ∷ b ∷ c ∷ words) s h = cc h

  parse_candidate-IsClean :
      (candidate : Text) (s : ProxyStep) → parse_candidate candidate ≡ some s → IsClean s
  unfolding parse_candidate
  parse_candidate-IsClean candidate =
      candidate_words-IsClean (non_empty (split is_ascii_whitespace candidate))

  collect-IsClean :
      (candidates : List Text) (c : Chain)
      → All IsClean c.steps
      → All IsClean (collect candidates c).steps
  unfolding collect
  collect-IsClean [] c h = h
  collect-IsClean (candidate ∷ candidates) c h = elim (Option-cases (parse_candidate candidate)) [
    | inl unusable ↦ rw unusable (collect-IsClean candidates c h)
    | inr (s, usable) ↦
        let next = push-IsClean s c (parse_candidate-IsClean candidate s usable) h in
        elim (Bool-cases (is_full (push s c))) [
          | inl full ↦ rw (usable, full) next
          | inr room ↦ rw (usable, room) (collect-IsClean candidates (push s c) next)
        ]
  ]

  -- No step that a PAC result is parsed to carries credentials, and the port of its endpoint is not
  -- zero, whatever the script wrote.
  pub parse_find_proxy_result-IsClean :
      (result : Text) (steps : List ProxyStep)
      → parse_find_proxy_result result ≡ ok steps
      → All IsClean steps
  unfolding parse_find_proxy_result
  parse_find_proxy_result-IsClean result steps h =
      finish-IsClean (collect (split is_result_separator result) empty_chain)
        (invalid_result result) steps h
        (collect-IsClean (split is_result_separator result) empty_chain tt)

-- ===== src/Pac/Chain.antt =====
-- src/pac/result.rs: the bounded list of distinct steps, and the parser of what a PAC script
-- returns. Steps are compared by the decidable equality of their type, as the derived one does.
pub mod Credentials
use mathlib.Core.Bool.{decide}
use native.Mathlib.Decide.{ℕ_discrete}
use proxy_watch.Crates.{Crates}
use proxy_watch.Endpoint.{ProxyEndpoint, with_scheme_hint, parse_endpoint}
use proxy_watch.Error.{invalid_result}
use proxy_watch.Prelude.{
  ℕ, Bool, ◌&&◌, ◌||◌, Option, none, some, List, [], ◌∷◌, ◌++◌, ◌==◌, if◌then◌else◌, any, is_nil,
  is_some, length,
}
use proxy_watch.Prelude.Result.{ok, err, ok_or}
use proxy_watch.Resolve.{ProxyStep, direct_step, Steps, from_endpoint}
use proxy_watch.Scheme.{ProxyScheme, scheme_port}
use proxy_watch.Text.{
  Text, lit, upper, is_whitespace, is_ascii_whitespace, text_eq, split, non_empty,
}

abbrev pub max_chain : ℕ
max_chain = 64

unfoldable pub ProxyStep-discrete : Discrete ProxyStep
ProxyStep-discrete = hlevel ℕ_discrete

unfoldable pub step_eq : ProxyStep → ProxyStep → Bool
unfolding ProxyStep-discrete decide
step_eq a b = decide (ProxyStep-discrete a b)

pub record Chain : Type 0 where
  pub steps : List ProxyStep
  pub seen : List ProxyStep

abbrev pub empty_chain : Chain
empty_chain = record { steps = []; seen = [] }

unfoldable pub is_full : Chain → Bool
is_full c = length c.steps == max_chain

abbrev pub seen_step : ProxyStep → Chain → Bool
seen_step s c = any (step_eq s) c.seen

unfoldable pub push : ProxyStep → Chain → Chain
unfolding is_full
push s c =
    if is_full c
    then c
    else if seen_step s c
    then c
    else record { steps = c.steps ++ s ∷ []; seen = s ∷ c.seen }

unfoldable pub finish : Chain → Option (List ProxyStep)
finish c = if is_nil c.steps then none else some c.steps

abbrev pub is_result_separator : ℕ → Bool
is_result_separator c = c == b';' || c == b'\n' || c == b'\r'

-- What a keyword stands for: a direct step, or a protocol.
pub data Keyword : Type 0 where
  direct_word unknown_word : Keyword
  proxy_word : ProxyScheme → Keyword

unfoldable pub keyword : Text → Keyword
keyword word =
    let k = upper word in
    if text_eq k (lit "DIRECT")
    then direct_word
    else if text_eq k (lit "PROXY") || text_eq k (lit "HTTP")
    then proxy_word ProxyScheme.http
    else if text_eq k (lit "HTTPS")
    then proxy_word ProxyScheme.https
    else if text_eq k (lit "SOCKS") || text_eq k (lit "SOCKS4")
    then proxy_word ProxyScheme.socks4
    else if text_eq k (lit "SOCKS5")
    then proxy_word ProxyScheme.socks5h
    else unknown_word

-- A candidate's endpoint: the keyword's hint, its port for a missing or zero one, no credentials.
unfoldable pub candidate_endpoint : ProxyScheme → ProxyEndpoint → ProxyEndpoint
unfolding with_scheme_hint
candidate_endpoint scheme e =
    let hinted = with_scheme_hint scheme e in
    record hinted {
      port = if hinted.port == 0 then scheme_port scheme else hinted.port;
      auth = none;
    }

abbrev bad_address : Text → Bool
bad_address a = any (λ c. c == b'/' || c == b'?' || c == b'#') a || any is_whitespace a

module _ ⦃crates : Crates⦄ where
  candidate_step : ProxyScheme → Text → Option ProxyStep
  unfolding candidate_endpoint
  candidate_step scheme address =
      if bad_address address then none else elim (parse_endpoint address (scheme_port scheme)) [
        | ok e ↦ some (from_endpoint (candidate_endpoint scheme e))
        | err _ ↦ none
      ]

  word_step : Keyword → Option Text → Option ProxyStep
  unfolding candidate_step
  word_step direct_word none = some direct_step
  word_step (proxy_word scheme) (some address) = candidate_step scheme address
  word_step _ _ = none

  candidate_words : List Text → Option ProxyStep
  unfolding word_step
  candidate_words [] = none
  candidate_words (word ∷ []) = word_step (keyword word) none
  candidate_words (word ∷ address ∷ []) = word_step (keyword word) (some address)
  candidate_words _ = none

  unfoldable pub parse_candidate : Text → Option ProxyStep
  unfolding candidate_words
  parse_candidate candidate = candidate_words (non_empty (split is_ascii_whitespace candidate))

  abbrev push_some : Option ProxyStep → Chain → Chain
  push_some none c = c
  push_some (some s) c = push s c

  -- The loop over the candidates, which stops once the chain is full.
  unfoldable pub collect : List Text → Chain → Chain
  collect [] c = c
  collect (candidate ∷ candidates) c =
      let next = push_some (parse_candidate candidate) c in
      let rest = collect candidates next in
      if is_some (parse_candidate candidate) && is_full next then next else rest

  unfoldable pub parse_find_proxy_result : Text → Steps
  unfolding collect finish
  parse_find_proxy_result result =
      ok_or (invalid_result result)
        (finish (collect (split is_result_separator result) empty_chain))

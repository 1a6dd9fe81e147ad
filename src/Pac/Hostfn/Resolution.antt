-- ===== src/Pac/Hostfn/Resolution.antt =====
-- src/pac/hostfn.rs: what a script can find out by resolving names.
use proxy_watch.Crates.{Crates}
use proxy_watch.Pac.Hostfn.{
  is_internal, literal_ipv4, unbracket_ipv6, v4_answers, resolve_ipv4, system_ipv4,
  resolve_unless_literal, dns_resolve, ask_parent,
}
use proxy_watch.Pac.Policy.{PacPolicy}
use proxy_watch.Prelude.{
  ℕ, Bool, true, false, not, ◌||◌, Option, none, some, List, [], ◌∷◌, ◌≡◌, inl, inr, refl, subst,
  arith, if◌then◌else◌, find, is_nil, is_some, and_then, unwrap_or, Bool-cases,
}
use proxy_watch.Text.{Text, is_whitespace, trim_with}
use proxy_watch.Text.Address.{IpAddr, v4, parse_ipv6}

find-some : (p : ℕ → Bool) (xs : List ℕ) (x : ℕ) → find p xs ≡ some x → p x ≡ true
find-some p [] x h = absurd (cc h)
find-some p (y ∷ ys) x h = elim (Bool-cases (p y)) [
  | inl holds ↦ subst (λ z. p z ≡ true) (ground (arith, h, holds)) holds
  | inr fails ↦ find-some p ys x (ground (arith, h, fails))
]

searched :
    (p : ℕ → Bool) (off : Bool) (found : Option (List IpAddr)) (a : ℕ)
    → (if off then none else and_then found (λ answers. find p (v4_answers answers))) ≡ some a
    → (off ≡ false) × (p a ≡ true)
searched p true found a h = absurd (cc h)
searched p false none a h = absurd (cc h)
searched p false (some answers) a h = (refl, find-some p (v4_answers answers) a h)

switched : (on blank : Bool) → (not on || blank) ≡ false → on ≡ true
switched true blank h = refl
switched false blank h = absurd (cc h)

-- The policy lets the script have the address: resolution is switched on, and the address is not
-- internal unless internal ones are allowed.
abbrev pub Lets : PacPolicy → ℕ → Type 0
Lets policy a =
    (policy.resolve_dns ≡ true)
    × ((policy.allow_internal_addresses || not (is_internal (v4 a))) ≡ true)

system_ipv4-Lets :
    (lookup : Text → Option (List IpAddr)) (host : Text) (policy : PacPolicy) (a : ℕ)
    → system_ipv4 lookup host policy ≡ some a
    → Lets policy a
unfolding system_ipv4
system_ipv4-Lets lookup host policy a h =
    let (on, allowed) =
      searched (λ x. policy.allow_internal_addresses || not (is_internal (v4 x)))
        (not policy.resolve_dns || is_nil host) (lookup host) a h in
    (switched policy.resolve_dns (is_nil host) on, allowed)

-- The policy that a lookup is made under: the parent's in a worker, and elsewhere the one at hand.
abbrev pub governing : Option PacPolicy → PacPolicy → PacPolicy
governing parent policy = unwrap_or parent policy

module _ (above lookup : Text → Option (List IpAddr)) where
  resolve_ipv4-Lets :
      (parent : Option PacPolicy) (host : Text) (policy : PacPolicy) (a : ℕ)
      → resolve_ipv4 (ask_parent above parent) lookup host policy ≡ some a
      → Lets (governing parent policy) a
  unfolding resolve_ipv4 ask_parent
  resolve_ipv4-Lets none host policy a h = system_ipv4-Lets lookup host policy a h
  resolve_ipv4-Lets (some p) host policy a h = system_ipv4-Lets above host p a h

  module _ ⦃crates : Crates⦄ (parent : Option PacPolicy) where
    unless_literal :
        (host : Text) (policy : PacPolicy) (a : ℕ)
        → resolve_unless_literal (ask_parent above parent) lookup host policy none ≡ some a
        → Lets (governing parent policy) a
    unfolding resolve_unless_literal
    unless_literal host policy a h = elim (Bool-cases (is_some (parse_ipv6 host))) [
      | inl v6_text ↦ absurd (cc (rw (resolve_unless_literal, v6_text) at h))
      | inr other ↦ resolve_ipv4-Lets parent host policy a (rw (resolve_unless_literal, other) at h)
    ]

    -- An address that `dnsResolve` answers for a host that is no address itself is one that a policy
    -- lets the script look up: resolution is switched on, and the address is not internal unless
    -- internal ones are allowed. In a worker that policy is the one its parent process evaluates
    -- under, whatever the worker's own, and elsewhere it is the one of the evaluation.
    pub dns_resolve-allowed :
        (host : Text) (policy : PacPolicy) (a : ℕ)
        → dns_resolve (ask_parent above parent) lookup host policy ≡ some a
        → literal_ipv4 (unbracket_ipv6 (trim_with is_whitespace host)) ≡ none
        → ((governing parent policy).resolve_dns ≡ true)
          × (((governing parent policy).allow_internal_addresses || not (is_internal (v4 a)))
              ≡ true)
    unfolding dns_resolve
    dns_resolve-allowed host policy a h literal =
        let name = unbracket_ipv6 (trim_with is_whitespace host) in
        unless_literal name policy a (
          subst
            (λ o. resolve_unless_literal (ask_parent above parent) lookup name policy o ≡ some a)
            literal h)

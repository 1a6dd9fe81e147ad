-- ===== src/Util/HostPort/Bounds.antt =====
-- Every port that is read fits 16 bits.
use proxy_watch.Prelude.{
  ℕ, ◌<◌, ◌++◌, Option, none, some, [], ◌∷◌, ◌≡◌, arith, ◌==◌, Bool-cases, inl, inr, subst,
}
use proxy_watch.Prelude.Result.{Result, ok, ◌>>=◌, >>=-eq-ok}
use proxy_watch.Reason.{Reason}
use proxy_watch.Text.{Text, has, lit, split_once, rsplit_once, starts_with}
use proxy_watch.Text.Number.{parse_uint}
use proxy_watch.Util.HostPort.{
  u16_mod, port_from_digits, parse_port, bracketed_host_port, plain_host_port, split_host_port,
}

-- A port, if there is one, is below 2 ^ 16.
abbrev pub IsPort : Option ℕ → Type 0
IsPort none = Unit
IsPort (some p) = p < u16_mod

parse_uint-lt : (bound : ℕ) (t : Text) (n : ℕ) → parse_uint bound t ≡ some n → n < bound
unfolding parse_uint
parse_uint-lt bound t n h = ground (arith, h)

port_from_digits-lt : (t : Text) (n : ℕ) → port_from_digits t ≡ some n → n < u16_mod
unfolding port_from_digits
port_from_digits-lt t n h = parse_uint-lt u16_mod t n (ground (arith, h))

parse_port-IsPort : (t : Text) (o : Option ℕ) → parse_port t ≡ ok o → IsPort o
unfolding parse_port
parse_port-IsPort t none h = tt
parse_port-IsPort t (some p) h = port_from_digits-lt t p (ground (arith, h))

behind_colon-IsPort :
    (host port_text : Text) (parts : Text × Option ℕ)
    → (parse_port port_text >>= λ p. ok (host, p)) ≡ ok parts
    → IsPort parts.1
behind_colon-IsPort host port_text parts h =
    let r = >>=-eq-ok (parse_port port_text) (λ p. ok (host, p)) h in
    subst IsPort (cc r.2) (parse_port-IsPort port_text r.0 r.1)

portless-IsPort :
    (host : Text) (parts : Text × Option ℕ)
    → ◌≡◌ {A = Result Reason (Text × Option ℕ)} (ok (host, none)) (ok parts)
    → IsPort parts.1
portless-IsPort host parts h = let e : none ≡ parts.1 = cc h in subst IsPort e tt

bracketed_host_port-IsPort :
    (o : Option (Text × Text)) (parts : Text × Option ℕ)
    → bracketed_host_port o ≡ ok parts
    → IsPort parts.1
unfolding bracketed_host_port
bracketed_host_port-IsPort none parts h = absurd (cc h)
bracketed_host_port-IsPort (some (before, [])) parts h =
    portless-IsPort (before ++ b']' ∷ []) parts h
bracketed_host_port-IsPort (some (before, c ∷ rest)) parts h = elim (Bool-cases (c == b':')) [
  | inl colon ↦ behind_colon-IsPort (before ++ b']' ∷ []) rest parts (rw colon at h)
  | inr other ↦ absurd (cc (rw other at h))
]

plain_host_port-IsPort :
    (input : Text) (o : Option (Text × Text)) (parts : Text × Option ℕ)
    → plain_host_port input o ≡ ok parts
    → IsPort parts.1
unfolding plain_host_port
plain_host_port-IsPort input none parts h = portless-IsPort input parts h
plain_host_port-IsPort input (some (host, port)) parts h = elim (Bool-cases (has b':' host)) [
  | inl two ↦ portless-IsPort input parts (rw two at h)
  | inr one ↦ behind_colon-IsPort host port parts (rw one at h)
]

pub split_host_port-IsPort :
    (input : Text) (parts : Text × Option ℕ) → split_host_port input ≡ ok parts → IsPort parts.1
unfolding split_host_port
split_host_port-IsPort input parts h = elim (Bool-cases (starts_with (lit "[") input)) [
  | inl bracketed ↦ bracketed_host_port-IsPort (split_once b']' input) parts (rw bracketed at h)
  | inr plain ↦ plain_host_port-IsPort input (rsplit_once b':' input) parts (rw plain at h)
]

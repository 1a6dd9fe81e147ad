-- ===== src/Android/Selected/Escapes.antt =====
-- The text for a `URI` of Java, and the escapes in it.
use proxy_watch.Android.Selected.{
  is_refused, upper_hex, percent_of, is_hex, starts_hex, java_char, java_rest,
}
use proxy_watch.Prelude.{
  ℕ, zero, suc, ◌<◌, ◌/◌, ◌%◌, Bool, true, false, not, ◌&&◌, ◌||◌, [], ◌∷◌, ◌++◌, ◌==◌, ◌≡◌, refl,
  sym, some, none, Option-cases, arith, ap, ◌∙◌, Bool-cases, inl, inr, leb, all, any, subst,
}
use proxy_watch.Text.{Text, lit}
use proxy_watch.Text.Address.{hex_digit}
use proxy_watch.Util.Percent.{decode_bytes, escape_value}

-- A letter, a digit, or one of the marks that may stand in the path and in the query of a
-- `java.net.URI`, and the question mark between the two.
abbrev is_uri_char : ℕ → Bool
is_uri_char c =
    (leb b'a' c && leb c b'z')
    || (leb b'A' c && leb c b'Z')
    || (leb b'0' c && leb c b'9')
    || any (λ mark. c == mark) (lit "-_.!~*'();/:@&=+$,?")

-- A path with its query as a `java.net.URI` takes it: of such characters, and of escapes.
abbrev pub is_java_uri : Text → Bool
is_java_uri [] = true
is_java_uri (c ∷ behind) = (is_uri_char c || (c == b'%' && starts_hex behind)) && is_java_uri behind

-- What the path and the query of a `Url` hold: visible characters of ASCII, but for the four that
-- are escaped there or that end the query.
abbrev pub is_url_char : ℕ → Bool
is_url_char c = leb 0x21 c && leb c 0x7e && not (any (λ mark. c == mark) (lit "\"<>#"))

-- A test that holds for each number below a bound.
holds_below : (ℕ → Bool) → ℕ → Bool
holds_below test zero = true
holds_below test (suc n) = test n && holds_below test n

holds_below_lem :
    (test : ℕ → Bool) (n : ℕ) → holds_below test n ≡ true → (c : ℕ) → c < n → test c ≡ true
unfolding holds_below
holds_below_lem test zero h c k = absurd (omega (arith, k))
holds_below_lem test (suc n) h c k = elim (Bool-cases (c == n)) [
  | inl last ↦
      let here : n ≡ c = ground (arith, last) in subst (λ m. test m ≡ true) here (ground (arith, h))
  | inr other ↦ holds_below_lem test n (ground (arith, h)) c (ground (arith, k, other))
]

-- A character of a `Url` that is not escaped and is no percent sign is one that a `URI` takes.
abbrev is_settled : ℕ → Bool
is_settled c = not (is_url_char c && not (is_refused c) && not (c == b'%')) || is_uri_char c

url_char_below : (c : ℕ) → is_url_char c ≡ true → c < 0x7f
url_char_below c h = ground arith

all_settled : holds_below is_settled 0x7f ≡ true
unfolding holds_below is_refused
all_settled = refl

kept_char :
    (c : ℕ)
    → is_url_char c ≡ true
    → is_refused c ≡ false
    → (c == b'%') ≡ false
    → is_uri_char c ≡ true
kept_char c h free plain =
    use_settled (holds_below_lem is_settled 0x7f all_settled c (url_char_below c h))
  where
    use_settled : is_settled c ≡ true → is_uri_char c ≡ true
    use_settled k = rw (h, free, plain) at k

hex-kept : (c : ℕ) (behind : Text) → is_hex c ≡ true → java_char c behind ≡ c ∷ []
unfolding java_char is_refused
hex-kept c behind h = ground (arith, h)

starts_hex-kept : (t : Text) → starts_hex t ≡ true → starts_hex (java_rest t) ≡ true
unfolding java_rest
starts_hex-kept (a ∷ b ∷ t) h =
    rw (hex-kept a (b ∷ t) (ground (arith, h)), hex-kept b t (ground (arith, h))) h
starts_hex-kept (a ∷ []) h = cc h
starts_hex-kept [] h = cc h

-- A digit that is written can stand anywhere.
abbrev is_digit_for_uri : ℕ → Bool
is_digit_for_uri n = is_hex (upper_hex n) && is_uri_char (upper_hex n)

all_digits : holds_below is_digit_for_uri 16 ≡ true
unfolding holds_below
all_digits = refl

upper_hex-safe :
    (n : ℕ) → n < 16 → (is_hex (upper_hex n) ≡ true) × (is_uri_char (upper_hex n) ≡ true)
upper_hex-safe n h =
    both_of (is_hex (upper_hex n)) (is_uri_char (upper_hex n))
      (holds_below_lem is_digit_for_uri 16 all_digits n h)
  where
    both_of : (a b : Bool) → (a && b) ≡ true → (a ≡ true) × (b ≡ true)
    both_of true b h = (refl, h)
    both_of false b h = absurd (cc h)

refused_small : (c : ℕ) → is_refused c ≡ true → c < 128
unfolding is_refused
refused_small c h = ground arith

percent_of-uri :
    (c : ℕ) (t : Text)
    → is_refused c ≡ true
    → is_java_uri t ≡ true
    → is_java_uri (percent_of c ++ t) ≡ true
percent_of-uri c t h k =
    let low = refused_small c h in
    let (hex_high, free_high) = upper_hex-safe (c / 16) (omega (arith, low)) in
    let (hex_low, free_low) = upper_hex-safe (c % 16) (omega arith) in
    rw (is_java_uri, free_high, free_low, hex_high, hex_low) k

escape-uri : (t : Text) → is_java_uri t ≡ true → is_java_uri (lit "%25" ++ t) ≡ true
escape-uri t k = k

uri_cons :
    (c : ℕ) (t : Text)
    → (is_uri_char c || (c == b'%' && starts_hex t)) ≡ true
    → is_java_uri t ≡ true
    → is_java_uri (c ∷ t) ≡ true
uri_cons c t h k = rw (h, k) refl

kept-uri :
    (c : ℕ) (behind t : Text)
    → is_url_char c ≡ true
    → is_refused c ≡ false
    → (c == b'%' && not (starts_hex behind)) ≡ false
    → (starts_hex behind ≡ true → starts_hex t ≡ true)
    → is_java_uri t ≡ true
    → is_java_uri (c ∷ t) ≡ true
kept-uri c behind t url free plain starts k = elim (Bool-cases (c == b'%')) [
  | inr other ↦ uri_cons c t (rw (kept_char c url free other) refl) k
  | inl percent ↦ elim (Bool-cases (starts_hex behind)) [
    | inl there ↦ uri_cons c t (rw (percent, starts there) (or_true (is_uri_char c))) k
    | inr nowhere ↦ absurd (cc (rw (percent, nowhere) at plain))
  ]
]
  where
    or_true : (b : Bool) → (b || true) ≡ true
    or_true true = refl
    or_true false = refl

java_char-uri :
    (c : ℕ) (behind t : Text)
    → is_url_char c ≡ true
    → (starts_hex behind ≡ true → starts_hex t ≡ true)
    → is_java_uri t ≡ true
    → is_java_uri (java_char c behind ++ t) ≡ true
unfolding java_char
java_char-uri c behind t url starts k = elim (Bool-cases (is_refused c)) [
  | inl bad ↦ rw bad (percent_of-uri c t bad k)
  | inr free ↦ elim (Bool-cases (c == b'%' && not (starts_hex behind))) [
    | inl lone ↦ rw (free, lone) (escape-uri t k)
    | inr plain ↦ rw (free, plain) (kept-uri c behind t url free plain starts k)
  ]
]

java_rest-uri : (t : Text) → all is_url_char t ≡ true → is_java_uri (java_rest t) ≡ true
unfolding java_rest
java_rest-uri [] h = refl
java_rest-uri (c ∷ behind) h = elim (Bool-cases (is_url_char c)) [
  | inl url ↦
      java_char-uri c behind (java_rest behind) url (starts_hex-kept behind)
        (java_rest-uri behind (rw url at h))
  | inr other ↦ absurd (cc (rw other at h))
]

-- A character that begins no escape is decoded to itself.
plain_decode :
    (a : ℕ) (behind : Text)
    → (a == b'%' && starts_hex behind) ≡ false
    → decode_bytes (a ∷ behind) ≡ a ∷ decode_bytes behind
unfolding decode_bytes
plain_decode a [] h = refl
plain_decode a (b ∷ []) h = refl
plain_decode a (b ∷ c ∷ r) h = ground (arith, h)

hex_digit-upper_hex : (n : ℕ) → n < 16 → hex_digit (upper_hex n) ≡ some n
hex_digit-upper_hex n h = ground arith

-- An escape is decoded to its value.
escape_decode :
    (a b c v : ℕ) (r : Text)
    → escape_value a b c ≡ some v
    → decode_bytes (a ∷ b ∷ c ∷ r) ≡ v ∷ decode_bytes r
unfolding decode_bytes
escape_decode a b c v r h =
    ap (λ o. elim o [ some w ↦ w ∷ decode_bytes r | none ↦ a ∷ decode_bytes (b ∷ c ∷ r) ]) h

escape_value-percent_of :
    (a : ℕ) → a < 128 → escape_value b'%' (upper_hex (a / 16)) (upper_hex (a % 16)) ≡ some a
escape_value-percent_of a h =
    ground (arith, hex_digit-upper_hex (a / 16), hex_digit-upper_hex (a % 16))

percent_of-decode :
    (a : ℕ) (t : Text) → is_refused a ≡ true → decode_bytes (percent_of a ++ t) ≡ a ∷ decode_bytes t
percent_of-decode a t h =
    escape_decode b'%' (upper_hex (a / 16)) (upper_hex (a % 16)) a t
      (escape_value-percent_of a (refused_small a h))

lone_decode : (t : Text) → decode_bytes (lit "%25" ++ t) ≡ b'%' ∷ decode_bytes t
unfolding decode_bytes
lone_decode t = refl

percent_is : (a : ℕ) → (a == b'%') ≡ true → b'%' ≡ a
percent_is a h = ground arith

not_hex :
    (a : ℕ) (behind : Text)
    → (a == b'%' && starts_hex behind) ≡ false
    → (a == b'%') ≡ true
    → starts_hex behind ≡ false
not_hex a behind h k = ground (arith, h, k)

java_char-decode :
    (a : ℕ) (behind t : Text)
    → (a == b'%' && starts_hex behind) ≡ false
    → decode_bytes (java_char a behind ++ t) ≡ a ∷ decode_bytes t
unfolding java_char
java_char-decode a behind t h = elim (Bool-cases (is_refused a)) [
  | inl bad ↦ rw bad (percent_of-decode a t bad)
  | inr free ↦ elim (Bool-cases (a == b'%')) [
    | inl lone ↦
        rw (free, lone, not_hex a behind h lone)
          (lone_decode t ∙ ap (λ n. n ∷ decode_bytes t) (percent_is a lone))
    | inr plain ↦ rw (free, plain) (plain_decode a t (ground (arith, plain)))
  ]
]

escape_value-hex :
    (a b c : ℕ)
    → (a == b'%' && (is_hex b && is_hex c)) ≡ true
    → (v : ℕ) × (escape_value a b c ≡ some v)
escape_value-hex a b c h = elim (Option-cases (escape_value a b c)) [
  | inl missing ↦ absurd (ground (arith, h, missing))
  | inr there ↦ there
]

percent-kept :
    (a : ℕ) (behind : Text) → (a == b'%' && starts_hex behind) ≡ true → java_char a behind ≡ a ∷ []
unfolding java_char is_refused
percent-kept a behind h = ground (arith, h)

java_escape :
    (a b c : ℕ) (r : Text)
    → (a == b'%' && (is_hex b && is_hex c)) ≡ true
    → java_rest (a ∷ b ∷ c ∷ r) ≡ a ∷ b ∷ c ∷ java_rest r
unfolding java_rest
java_escape a b c r h =
    rw
      (
        percent-kept a (b ∷ c ∷ r) h,
        hex-kept b (c ∷ r) (ground (arith, h)),
        hex-kept c r (ground (arith, h)),
      )
      refl

-- Read back, it stands for the same bytes.
java_rest-decode : (t : Text) → decode_bytes (java_rest t) ≡ decode_bytes t
unfolding java_rest
java_rest-decode [] = refl
java_rest-decode (a ∷ []) =
    java_char-decode a [] [] (ground arith) ∙ sym (plain_decode a [] (ground arith))
java_rest-decode (a ∷ b ∷ []) =
    java_char-decode a (b ∷ []) (java_rest (b ∷ [])) (ground arith)
    ∙ ap (λ l. a ∷ l) (java_rest-decode (b ∷ []))
    ∙ sym (plain_decode a (b ∷ []) (ground arith))
java_rest-decode (a ∷ b ∷ c ∷ r) = elim (Bool-cases (a == b'%' && (is_hex b && is_hex c))) [
  | inl escape ↦
      let (v, value) = escape_value-hex a b c escape in
      ap decode_bytes (java_escape a b c r escape)
      ∙ escape_decode a b c v (java_rest r) value
      ∙ ap (λ l. v ∷ l) (java_rest-decode r)
      ∙ sym (escape_decode a b c v r value)
  | inr plain ↦
      java_char-decode a (b ∷ c ∷ r) (java_rest (b ∷ c ∷ r)) plain
      ∙ ap (λ l. a ∷ l) (java_rest-decode (b ∷ c ∷ r))
      ∙ sym (plain_decode a (b ∷ c ∷ r) plain)
]

-- Behind the authority, where the text of the URL holds visible ASCII but no quote, angle bracket or
-- number sign, the text for Java is one that a `URI` takes as a path with a query: every character is
-- a letter, a digit, a mark of its table, or the percent sign of an escape. And it decodes to the same
-- bytes as the text of the URL.
pub java_rest_lem :
    (t : Text)
    → all is_url_char t ≡ true
    → (is_java_uri (java_rest t) ≡ true) × (decode_bytes (java_rest t) ≡ decode_bytes t)
java_rest_lem t h = (java_rest-uri t h, java_rest-decode t)

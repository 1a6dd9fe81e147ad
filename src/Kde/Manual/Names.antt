-- ===== src/Kde/Manual/Names.antt =====
-- src/sys/linux/kioslaverc.rs: which manual settings read as direct.
use proxy_watch.Crates.{Crates}
use proxy_watch.Diagnostic.{RejectedValue, unsupported_mapping, invalid_proxy_endpoint}
use proxy_watch.Endpoint.{ProxyEndpoint, is_disabled, parse_endpoint}
use proxy_watch.Kde.Address.{normalize_address}
use proxy_watch.Kde.Manual.{
  Filling, nothing_filled, is_socks, attributed_scheme, reject, use_slot, completed, all_disabled,
  read_raw, fill, fill_slots, kde_manual, hinted, dropped,
}
use proxy_watch.Kde.Settings.{
  KioslavercSettings, SlotKeys, slots, http_slot, https_slot, ftp_slot, socks_slot, text, has_key,
  needs_expansion,
}
use proxy_watch.Mode.{is_direct, manual, with_rejected}
use proxy_watch.Mode.Silent.{unless-direct}
use proxy_watch.Prelude.{
  Bool, true, false, not, ◌&&◌, ◌||◌, none, List, [], ◌∷◌, ◌++◌, ◌≡◌, refl, ap, ◌∙◌, arith, is_nil,
  is_some, any, inl, inr, Option-cases, Bool-cases,
}
use proxy_watch.Prelude.Result.{Result-cases}
use proxy_watch.Text.{Text}

abbrev pub names : KioslavercSettings → SlotKeys → Bool
names s slot = is_some (text s slot.key)

-- What a slot comes to: nothing there, no value, a drop, or an endpoint.
data Outcome : Type 0 where
  missing blank : Outcome
  lost : RejectedValue → Outcome
  kept : ProxyEndpoint → Outcome

abbrev is_named : Outcome → Bool
is_named missing = false
is_named blank = false
is_named (lost v) = true
is_named (kept e) = true

noted : SlotKeys → Filling → Filling
noted slot f = record f { socks_unusable = f.socks_unusable || is_socks slot }

take_outcome : SlotKeys → Outcome → Filling → Filling
unfolding noted use_slot
take_outcome slot missing f = f
take_outcome slot blank f = record f { blank = f.blank ++ slot.scheme ∷ [] }
take_outcome slot (lost v) f = reject v (noted slot f)
take_outcome slot (kept e) f = use_slot slot e (noted slot f)

has_key-false : (s : KioslavercSettings) (key : Text) → has_key s key ≡ false → text s key ≡ none
unfolding has_key text
has_key-false s key h = ground arith

-- The slots of the four outcomes, in the order of the source.
outcomes : List SlotKeys → Outcome → Outcome → Outcome → Outcome → Filling → Filling
unfolding take_outcome
outcomes (a ∷ b ∷ c ∷ d ∷ []) o p q r f =
    take_outcome d r (take_outcome c q (take_outcome b p (take_outcome a o f)))
outcomes _ o p q r f = f

abbrev reads_off : Filling → Bool
reads_off f = all_disabled (completed f) && is_nil f.rejected

reads_off-outcomes :
    (o p q r : Outcome)
    → reads_off (outcomes slots o p q r nothing_filled)
      ≡ not (is_named o || (is_named p || (is_named q || is_named r)))
unfolding outcomes completed is_disabled
reads_off-outcomes missing p q r = ground arith
reads_off-outcomes blank p q r = ground arith
reads_off-outcomes (lost v) p q r = ground arith
reads_off-outcomes (kept e) p q r = ground arith

module _ ⦃crates : Crates⦄ where
  read_raw-outcome :
      (s : KioslavercSettings) (slot : SlotKeys) (raw : Text)
      → (o : Outcome) × (is_named o ≡ true)
        × ((f : Filling) → read_raw s slot raw (noted slot f) ≡ take_outcome slot o f)
  unfolding read_raw take_outcome
  read_raw-outcome s slot raw = elim (Bool-cases (needs_expansion s slot.key)) [
    | inl h ↦
        (lost (dropped unsupported_mapping slot (attributed_scheme slot) raw), refl, λ f. rw h)
    | inr h ↦ elim (Result-cases (parse_endpoint (normalize_address raw) slot.default_port)) [
      | inl (e, k) ↦ (kept (hinted slot.hint e), refl, λ f. rw h (rw (k, read_raw) refl))
      | inr (e, k) ↦ (
        lost (dropped invalid_proxy_endpoint slot (attributed_scheme slot) raw),
        refl,
        λ f. rw h (rw (k, read_raw) refl),
      )
    ]
  ]

  fill-outcome :
      (s : KioslavercSettings) (slot : SlotKeys)
      → (o : Outcome) × (is_named o ≡ is_some (text s slot.key))
        × ((f : Filling) → fill s slot f ≡ take_outcome slot o f)
  unfolding fill take_outcome
  fill-outcome s slot = elim (Bool-cases (has_key s slot.key)) [
    | inr h ↦ (missing, rw (has_key-false s slot.key h), λ f. rw h)
    | inl h ↦ elim (Option-cases (text s slot.key)) [
      | inl e ↦ (blank, rw e, λ f. rw h (rw (e, fill)))
      | inr (raw, e) ↦
          let (o, named, same) = read_raw-outcome s slot raw in
          (o, rw e named, λ f. rw h (rw (e, fill) (same f)))
    ]
  ]

  -- The slots are filled as their outcomes say.
  fill_slots-outcomes :
      (s : KioslavercSettings) (f : Filling)
      → (o : Outcome) × (p : Outcome) × (q : Outcome) × (r : Outcome) × ((is_named o
            || (is_named p || (is_named q || is_named r)))
          ≡ any (names s) slots)
        × (fill_slots s slots f ≡ outcomes slots o p q r f)
  unfolding fill_slots outcomes
  fill_slots-outcomes s f =
      let (o, named_o, same_o) = fill-outcome s http_slot in
      let (p, named_p, same_p) = fill-outcome s https_slot in
      let (q, named_q, same_q) = fill-outcome s ftp_slot in
      let (r, named_r, same_r) = fill-outcome s socks_slot in
      (
        o,
        p,
        q,
        r,
        rw (named_o, named_p, named_q, named_r) (ground arith),
        same_r _
            ∙ ap (take_outcome socks_slot r) (
                same_q _
                ∙ ap (take_outcome ftp_slot q)
                    (same_p _ ∙ ap (take_outcome https_slot p) (same_o f))),
      )

  pub kde_manual-direct :
      (s : KioslavercSettings) → is_direct (kde_manual s) ≡ not (any (names s) slots)
  unfolding kde_manual is_direct with_rejected manual
  kde_manual-direct s =
      let (o, p, q, r, named, same) = fill_slots-outcomes s nothing_filled in
      unless-direct _ _ refl ∙ ap reads_off same ∙ reads_off-outcomes o p q r ∙ ap not named

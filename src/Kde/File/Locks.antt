-- ===== src/Kde/File/Locks.antt =====
-- src/sys/linux/kde.rs: what an earlier file locks, a file does not change.
use proxy_watch.Kde.File.{
  ApplyOutcome, Scan, start, step_line, scan, set_row, enter, row_of, finish, apply_proxy_settings,
}
use proxy_watch.Kde.Header.{group_header}
use proxy_watch.Kde.Settings.{
  KioslavercSettings, KconfigEntry, frozen, apply, normalize_key, mark_group_immutable, trim_ascii,
}
use proxy_watch.Prelude.{
  Bool, true, false, ◌||◌, Option, none, some, List, [], ◌∷◌, ◌≡◌, refl, ap, sym, ◌∙◌, arith,
  Bool-cases, Option-cases, inl, inr, subst,
}
use proxy_watch.Prelude.Result.{ok}
use proxy_watch.Text.{Text, lines, text_eq, text_eq_iff}

-- A key that a file has locked, by its own flag or with the whole group.
abbrev pub is_locked : KioslavercSettings → Text → Bool
is_locked s k = s.group_immutable || frozen s k

-- The entry of a key stays, and the lock of the group with it.
abbrev Keeps : Text → KioslavercSettings → KioslavercSettings → Type 0
Keeps k s s' = (s'.entries k ≡ s.entries k) × (s'.group_immutable ≡ s.group_immutable)

apply-Keeps :
    (k raw_key : Text) (value : Option Text) (locked : Bool) (s : KioslavercSettings)
    → frozen s k ≡ true
    → Keeps k s (apply raw_key value locked s)
unfolding apply
apply-Keeps k raw_key value locked s h =
    let key = normalize_key raw_key in
    let same : text_eq key k ≡ true → frozen s key ≡ true =
      λ e. ap (λ t. frozen s t) ((text_eq_iff key k).0 e) ∙ h in
    elim (Bool-cases (frozen s key)) [
      | inl e ↦ rw e (refl, refl)
      | inr e ↦ elim (Bool-cases (text_eq key k)) [
        | inl q ↦ absurd (cc (same q, e))
        | inr q ↦ rw e (rw q (refl, refl))
      ]
    ]

set_row-Keeps :
    (k : Text) (row : Text × Option Text) (sc : Scan)
    → frozen sc.settings k ≡ true
    → Keeps k sc.settings (set_row row sc).settings
unfolding set_row
set_row-Keeps k (raw_key, value) sc h =
    ground (arith, apply-Keeps k raw_key value sc.locked sc.settings h)

enter-settings : (h : Option _) (sc : Scan) → (enter h sc).settings ≡ sc.settings
unfolding enter
enter-settings none sc = refl
enter-settings (some h) sc = refl

step_line-Keeps :
    (k t : Text) (was_locked : Bool) (sc : Scan)
    → (was_locked || frozen sc.settings k) ≡ true
    → Keeps k sc.settings (step_line was_locked t sc).settings
unfolding step_line
step_line-Keeps k t was_locked sc h =
    ground (arith, enter-settings (group_header t) sc, set_row-Keeps k (row_of t) sc)

abbrev locks : Option KconfigEntry → Bool
locks none = false
locks (some e) = e.immutable

frozen_lem : (s : KioslavercSettings) (k : Text) → frozen s k ≡ locks (s.entries k)
frozen_lem s k = ground arith

Keeps-frozen : (k : Text) (s s' : KioslavercSettings) → Keeps k s s' → frozen s' k ≡ frozen s k
Keeps-frozen k s s' h = frozen_lem s' k ∙ ap locks h.0 ∙ sym (frozen_lem s k)

scan-Keeps :
    (k : Text) (was_locked : Bool) (ts : List Text) (sc : Scan)
    → (was_locked || frozen sc.settings k) ≡ true
    → Keeps k sc.settings (scan was_locked ts sc).settings
unfolding scan
scan-Keeps k was_locked [] sc h = (refl, refl)
scan-Keeps k was_locked (t ∷ ts) sc h =
    let next = step_line was_locked (trim_ascii t) sc in
    let (entry, group) = step_line-Keeps k (trim_ascii t) was_locked sc h in
    let (entry', group') =
      scan-Keeps k was_locked ts next
        (ap (λ b. was_locked || b) (Keeps-frozen k sc.settings next.settings (entry, group)) ∙ h) in
    (entry' ∙ entry, group' ∙ group)

finish-Keeps :
    (k : Text) (s : KioslavercSettings) (sc : Scan)
    → Keeps k s sc.settings
    → is_locked s k ≡ true
    → ((finish sc).1.entries k ≡ s.entries k) × (is_locked (finish sc).1 k ≡ true)
unfolding finish mark_group_immutable
finish-Keeps k s sc h locked = let same = Keeps-frozen k s sc.settings h in ground arith

module _ (ini_error : Text → Option Text) where
  -- A locked key keeps its entry through a file, and stays locked.
  pub apply_proxy_settings-locked :
      (t path k : Text) (s : KioslavercSettings) {r : ApplyOutcome × KioslavercSettings}
      → is_locked s k ≡ true
      → apply_proxy_settings ini_error t path s ≡ ok r
      → (r.1.entries k ≡ s.entries k) × (is_locked r.1 k ≡ true)
  unfolding apply_proxy_settings
  apply_proxy_settings-locked t path k s {r} locked h = elim (Option-cases (ini_error t)) [
    | inr (reason, e) ↦ absurd (cc (rw (e, apply_proxy_settings) at h))
    | inl e ↦
        let done = scan s.group_immutable (lines t) (start s) in
        let same : finish done ≡ r = ground (arith, rw (e, apply_proxy_settings) at h) in
        subst (λ x. (x.1.entries k ≡ s.entries k) × (is_locked x.1 k ≡ true)) same
          (finish-Keeps k s done (scan-Keeps k s.group_immutable (lines t) (start s) locked) locked)
  ]

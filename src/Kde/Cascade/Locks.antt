-- ===== src/Kde/Cascade/Locks.antt =====
-- src/sys/linux/kde.rs: what a file locks, the more specific files do not change.
use proxy_watch.Files.{FileRead, contents, not_found, failed, join}
use proxy_watch.Kde.Cascade.{KioslavercRead, read_layer, read_layers, add_file}
use proxy_watch.Kde.File.{apply_proxy_settings}
use proxy_watch.Kde.File.Locks.{is_locked, apply_proxy_settings-locked}
use proxy_watch.Kde.Settings.{file_name}
use proxy_watch.Prelude.{Bool, true, false, Option, List, [], ◌∷◌, ◌≡◌, refl, ◌∙◌, subst, inl, inr}
use proxy_watch.Prelude.Result.{ok, Result-cases}
use proxy_watch.Text.{Text}

-- The entry of a locked key is kept, and the lock.
abbrev KeepsLock : Text → KioslavercRead → KioslavercRead → Type 0
KeepsLock k r r' = (r'.settings.entries k ≡ r.settings.entries k) × (is_locked r'.settings k ≡ true)

module _ (ini_error : Text → Option Text) (read_file : Text → FileRead) where
  read_layer-KeepsLock :
      (k path : Text) (file : FileRead) (r r' : KioslavercRead) {last : Bool}
      → is_locked r.settings k ≡ true
      → read_layer ini_error read_file path file r ≡ ok (last, r')
      → KeepsLock k r r'
  unfolding read_layer
  read_layer-KeepsLock k path (contents t) r r' locked h =
      elim (Result-cases (apply_proxy_settings ini_error t path r.settings)) [
        | inl (done, e) ↦
            let same : add_file path done r ≡ r' = cc (rw (e, read_layer) at h) in
            subst (KeepsLock k r) same
              (apply_proxy_settings-locked ini_error t path k r.settings locked e)
        | inr (fault, e) ↦ absurd (cc (rw (e, read_layer) at h))
      ]
  read_layer-KeepsLock k path not_found r r' locked h =
      let same : r ≡ r' = cc h in subst (KeepsLock k r) same (refl, locked)
  read_layer-KeepsLock k path (failed e) r r' locked h = absurd (cc h)

  read_layers-KeepsLock :
      (k : Text) (dirs : List Text) (r r' : KioslavercRead)
      → is_locked r.settings k ≡ true
      → read_layers ini_error read_file dirs r ≡ ok r'
      → KeepsLock k r r'
  unfolding read_layers
  read_layers-KeepsLock k [] r r' locked h =
      let same : r ≡ r' = cc h in subst (KeepsLock k r) same (refl, locked)
  read_layers-KeepsLock k (dir ∷ dirs) r r' locked h =
      let path = join dir file_name in
      elim (Result-cases (read_layer ini_error read_file path (read_file path) r)) [
        | inr (fault, e) ↦ absurd (cc (rw (e, read_layers) at h))
        | inl ((true, next), e) ↦
            let same : next ≡ r' = cc (rw (e, read_layers) at h) in
            subst (KeepsLock k r) same
              (read_layer-KeepsLock k path (read_file path) r next locked e)
        | inl ((false, next), e) ↦
            let (entry, lock) = read_layer-KeepsLock k path (read_file path) r next locked e in
            let (entry', lock') =
              read_layers-KeepsLock k dirs next r' lock (rw (e, read_layers) at h) in
            (entry' ∙ entry, lock')
      ]

  -- The entry of a key that the files read so far have locked, by its own flag or with the whole
  -- group, is kept by the files in all the directories read after them.
  pub read_layers-locked :
      (k : Text) (dirs : List Text) (r r' : KioslavercRead)
      → is_locked r.settings k ≡ true
      → read_layers ini_error read_file dirs r ≡ ok r'
      → r'.settings.entries k ≡ r.settings.entries k
  read_layers-locked k dirs r r' locked h = (read_layers-KeepsLock k dirs r r' locked h).0

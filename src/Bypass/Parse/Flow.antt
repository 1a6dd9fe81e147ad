-- ===== src/Bypass/Parse/Flow.antt =====
-- A step of a function with early returns: it returns, or goes on with a value.
use proxy_watch.Bypass.Pattern.{HostPattern}
use proxy_watch.Error.{Error, bypass}
use proxy_watch.Prelude.{Bool, true, false, Option, some}
use proxy_watch.Prelude.Result.{Result, ok, err}
use proxy_watch.Reason.{Reason}
use proxy_watch.Text.{Text}

abbrev pub Parsed : Type 0
Parsed = Result Error (Option HostPattern)

pub data Flow (A : Type 0) : Type 0 where
  return : Parsed → Flow A
  go : A → Flow A

infixl 5 ◌>>◌ ◌>>=◌
abbrev pub ◌>>◌ : {Next : Type 0} → Flow (Unit {0}) → Flow Next → Flow Next
return verdict >> next = return verdict
go _ >> next = next

abbrev pub ◌>>=◌ : {Got Next : Type 0} → Flow Got → (Got → Flow Next) → Flow Next
return verdict >>= next = return verdict
go got >>= next = next got

-- `if test { return Err(Error::bypass(entry, reason)) }`
abbrev pub refuse_if : Bool → Text → Reason → Flow (Unit {0})
refuse_if true entry reason = return (err (bypass entry reason))
refuse_if false entry reason = go tt

abbrev pub return_if : Bool → Parsed → Flow (Unit {0})
return_if true r = return r
return_if false r = go tt

abbrev pub found : HostPattern → Parsed
found p = ok (some p)

-- A step that cannot return goes on with the value, or refuses the entry.
abbrev pub or_refuse : {A : Type 0} → Text → Result Reason A → Flow A
or_refuse entry (ok a) = go a
or_refuse entry (err reason) = return (err (bypass entry reason))

abbrev pub result : Flow Parsed → Parsed
result (return r) = r
result (go r) = r

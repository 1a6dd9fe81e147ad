-- ===== src/Dict/Values/Flags.antt =====
-- src/sys/proxy_dict.rs: a flag that can be read is not reported.
use proxy_watch.Dict.Values.{
  ProxyDict, DictValue, number, text_value, list_value, unreadable, flag, flag_of, flag_is_unusable,
  unusable_flag,
}
use proxy_watch.Prelude.{
  Bool, none, some, ◌≡◌, refl, subst, inl, inr, Option-cases, arith, and_then,
}
use proxy_watch.Text.{Text}

unusable_flag-some : (v : DictValue) (on : Bool) → flag_of v ≡ some on → unusable_flag v ≡ none
unfolding flag_of unusable_flag
unusable_flag-some (number value) on h = refl
unusable_flag-some (text_value t) on h = ground (arith, h)
unusable_flag-some (list_value items n) on h = absurd (cc h)
unusable_flag-some unreadable on h = absurd (cc h)

pub flag_is_unusable-some :
    (d : ProxyDict) (key : Text) (on : Bool) → flag d key ≡ some on → flag_is_unusable d key ≡ none
unfolding flag flag_is_unusable
flag_is_unusable-some d key on h = elim (Option-cases (d.entries key)) [
  | inl e ↦ rw e refl
  | inr (v, e) ↦
      let here : flag_of v ≡ some on = subst (λ o. and_then o flag_of ≡ some on) e h in
      rw e (unusable_flag-some v on here)
]

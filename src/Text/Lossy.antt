-- ===== src/Text/Lossy.antt =====
-- `String::from_utf8_lossy`: each longest beginning of a character that is cut off becomes U+FFFD.
use Prim.Native.Nat.{ℕ, zero, suc, ◌+◌, ◌-◌, ◌*◌}
use mathlib.Core.List.{List, [], ◌∷◌, ◌++◌}
use proxy_watch.Prelude.{ltb, ◌==◌, if◌then◌else◌}
use proxy_watch.Text.Chars.{Text, between}

-- How many bytes a character still lacks, the range of the next one, and the bits read so far.
pub record Pending : Type 0 where
  pub missing : ℕ
  pub low : ℕ
  pub high : ℕ
  pub bits : ℕ

abbrev pub complete : Pending
complete = record { missing = 0; low = 0; high = 0; bits = 0 }

abbrev wants : ℕ → ℕ → ℕ → ℕ → Pending
wants missing low high bits = record { missing = missing; low = low; high = high; bits = bits }

abbrev replacement : ℕ
replacement = 0xfffd

-- A byte that begins a character: what is read at once, and what is still to come.
begin : ℕ → Text × Pending
begin a =
    if ltb a 128
    then (a ∷ [], complete)
    else if between 0xc2 0xdf a
    then ([], wants 1 128 191 (a - 192))
    else if a == 0xe0
    then ([], wants 2 160 191 0)
    else if a == 0xed
    then ([], wants 2 128 159 13)
    else if between 0xe1 0xef a
    then ([], wants 2 128 191 (a - 224))
    else if a == 0xf0
    then ([], wants 3 144 191 0)
    else if between 0xf1 0xf3 a
    then ([], wants 3 128 191 (a - 240))
    else if a == 0xf4
    then ([], wants 3 128 143 4)
    else (replacement ∷ [], complete)

-- A byte behind the beginning of a character.
continue : ℕ → Pending → ℕ → Text × Pending
unfolding begin
continue zero p a = begin a
continue (suc zero) p a =
    if between p.low p.high a
    then ((p.bits * 64 + (a - 128)) ∷ [], complete)
    else (replacement ∷ (begin a).0, (begin a).1)
continue (suc (suc n)) p a =
    if between p.low p.high a
    then ([], wants (suc n) 128 191 (p.bits * 64 + (a - 128)))
    else (replacement ∷ (begin a).0, (begin a).1)

unfoldable pub from_utf8_lossy_at : Pending → List ℕ → Text
unfolding continue
from_utf8_lossy_at p [] = if p.missing == 0 then [] else replacement ∷ []
from_utf8_lossy_at p (a ∷ bytes) =
    let r = continue p.missing p a in r.0 ++ from_utf8_lossy_at r.1 bytes

abbrev pub from_utf8_lossy : List ℕ → Text
from_utf8_lossy bytes = from_utf8_lossy_at complete bytes

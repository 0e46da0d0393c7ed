-- ===== src/Prelude/Int.antt =====
-- Signed integers over the native numbers, as far as return codes and counters need them.
use Prim.Native.Nat.{ℕ, suc, ◌+◌, ◌-◌}
use mathlib.Core.Bool.{Bool, true, false}
use operating_system_project.Prelude.Tests.{leb, if◌then◌else◌}

-- `negsuc n` is -(n + 1).
pub data ℤ : Type 0 where
  pos : ℕ → ℤ
  negsuc : ℕ → ℤ

abbrev pub pos_part : ℤ → ℕ
pos_part (pos n) = n
pos_part (negsuc n) = 0

abbrev pub neg_part : ℤ → ℕ
neg_part (pos n) = 0
neg_part (negsuc n) = suc n

abbrev pub is_negative : ℤ → Bool
is_negative (pos n) = false
is_negative (negsuc n) = true

-- x + 1 and x - 1
abbrev pub inc_ℤ : ℤ → ℤ
inc_ℤ (pos n) = pos (n + 1)
inc_ℤ (negsuc n) = if leb n 0 then pos 0 else negsuc (n - 1)

abbrev pub dec_ℤ : ℤ → ℤ
dec_ℤ (pos n) = if leb n 0 then negsuc 0 else pos (n - 1)
dec_ℤ (negsuc n) = negsuc (n + 1)

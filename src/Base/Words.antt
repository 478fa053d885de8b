-- ===== src/Base/Words.antt =====
-- 32-bit clocks: millis() wraps, and differences are taken modulo 2^32.
use Prim.Native.Nat.{ℕ, ◌+◌, ◌-◌, ◌%◌, ◌^◌, ◌<◌}
use mathlib.Core.Path.{◌≡◌}
use native.Mathlib.Omega.{arith}

-- `now - since` on uint32_t.
abbrev pub elapsed : ℕ → ℕ → ℕ
elapsed now since = (now + 2 ^ 32 - since) % 2 ^ 32

-- Also across a wrap of the clock the difference is the time that has passed.
pub elapsed_lem :
    (since passed : ℕ)
    → since < 2 ^ 32
    → passed < 2 ^ 32
    → elapsed ((since + passed) % 2 ^ 32) since ≡ passed
elapsed_lem since passed h k = omega arith

-- ===== src/Prelude/Words.antt =====
-- Go's fixed-width integers as bit patterns: a `uint64` or `int64` is a number below 2 ^ 64, and the
-- wrap-around is written out. An `int64` is compared through its bias.
use Prim.Native.Nat.{ℕ, ◌+◌, ◌-◌, ◌*◌, ◌/◌, ◌%◌, ◌^◌}
use mathlib.Core.Bool.{Bool}
use gmiter.Prelude.Tests.{ltb, if◌then◌else◌}

abbrev pub mod64 : ℕ
mod64 = 2 ^ 64

abbrev pub half64 : ℕ
half64 = 2 ^ 63

abbrev pub mod32 : ℕ
mod32 = 2 ^ 32

abbrev pub add64 : ℕ → ℕ → ℕ
add64 a b = (a + b) % mod64

abbrev pub sub64 : ℕ → ℕ → ℕ
sub64 a b = (a + mod64 - b) % mod64

abbrev pub mul64 : ℕ → ℕ → ℕ
mul64 a b = (a * b) % mod64

-- `-a` of an int64.
abbrev pub neg64 : ℕ → ℕ
neg64 a = (mod64 - a) % mod64

abbrev pub bias64 : ℕ → ℕ
bias64 a = (a + half64) % mod64

-- `a < b` of two int64.
abbrev pub slt64 : ℕ → ℕ → Bool
slt64 a b = ltb (bias64 a) (bias64 b)

abbrev pub half32 : ℕ
half32 = 2 ^ 31

-- `a < b` of two int32.
abbrev pub slt32 : ℕ → ℕ → Bool
slt32 a b = ltb ((a + half32) % mod32) ((b + half32) % mod32)

-- The magnitude of an int64.
abbrev pub abs64 : ℕ → ℕ
abs64 a = if ltb a half64 then a else neg64 a

-- `a / b` of two int64, towards 0; b is not 0.
abbrev pub sdiv64 : ℕ → ℕ → ℕ
sdiv64 a b =
    let q = abs64 a / abs64 b in
    if ltb a half64
    then (if ltb b half64 then q else neg64 q)
    else if ltb b half64
    then neg64 q
    else q % mod64

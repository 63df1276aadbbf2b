-- ===== src/Prelude/Clock.antt =====
-- Clock readings, `time.time()`, in whole microseconds.
use Prim.Native.Nat.{ℕ}

abbrev pub Time : Type 0
Time = ℕ

abbrev pub second : ℕ
second = 1_000_000

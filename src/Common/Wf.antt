-- ===== src/Common/Wf.antt =====
-- Recursion on a number that falls.
use Prim.Native.Nat.{ℕ, zero, suc, ◌<◌}
use mathlib.Core.WellFounded.{Acc, WellFounded}
use native.Mathlib.Omega.{arith}

acc_under : (k n : ℕ) → n < k → Acc ◌<◌ n
acc_under zero n h = absurd (omega arith)
acc_under (suc k) n h = Acc.intro n (λ m m<n. acc_under k m (omega arith))

unfoldable pub lt_wf : WellFounded ◌<◌
unfolding acc_under
lt_wf = record { apply = λ n. acc_under (suc n) n (omega arith) }

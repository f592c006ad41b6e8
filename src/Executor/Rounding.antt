-- ===== src/Executor/Rounding.antt =====
-- round_down of schedulers/triton/lib/graph_executor.cc.
use native.Mathlib.Nat.{mul-mod_left, div-mul-le_self, mod-lt, div-add-mod}
use gr4_torchdsp.Prelude.{ℕ, ◌+◌, ◌*◌, ◌/◌, ◌%◌, ◌≤◌, ◌<◌, ◌≡◌, arith}
use gr4_torchdsp.Outcome.{ok}
use gr4_torchdsp.Executor.Ports.{round_down}

-- With a non-zero multiple, `round_down n multiple` returns the largest multiple that is at most
-- `n`: it divides evenly, it is at most `n`, and one more multiple would exceed `n`.
pub round_down-largest :
    (n multiple : ℕ)
    → 0 < multiple
    → (r : ℕ) × (round_down n multiple ≡ ok r) × (r % multiple ≡ 0) × (r ≤ n) × (n < r + multiple)
unfolding round_down
round_down-largest n multiple h = (
  (n / multiple) * multiple,
  ground arith,
  mul-mod_left (n / multiple) multiple,
  div-mul-le_self n multiple,
  grind (arith, mod-lt, div-add-mod),
)

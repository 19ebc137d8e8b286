-- ===== src/Base/Decimal.antt =====
-- Integers and their decimal text, as strconv.Itoa and strconv.FormatInt write it.
use Prim.Native.Nat.{ℕ, zero, suc, ◌+◌, ◌/◌, ◌%◌}
use mathlib.Core.List.{[], ◌∷◌}
use otel_k8s_graph.Base.Tests.{Text, ltb, if◌then◌else◌}

-- `negsuc n` is -(n + 1).
pub data ℤ : Type 0 where
  pos : ℕ → ℤ
  negsuc : ℕ → ℤ

-- The digits of `n` in front of `done`; a number has at most as many digits as its fuel.
unfoldable pub digits : ℕ → ℕ → Text → Text
digits zero n done = done
digits (suc fuel) n done =
    let now = (b'0' + n % 10) ∷ done in
    let rest = digits fuel (n / 10) now in if ltb n 10 then now else rest

unfoldable pub decimal : ℕ → Text
unfolding digits
decimal n = digits (suc n) n []

unfoldable pub itoa : ℤ → Text
unfolding decimal
itoa (pos n) = decimal n
itoa (negsuc n) = b'-' ∷ decimal (suc n)

-- ===== src/Base/Table.antt =====
-- Tests of a property at each number of a range.
use Prim.Native.Nat.{ℕ, zero, suc, ◌+◌, ◌<◌, ◌≤◌}
use mathlib.Core.Path.{◌≡◌}
use mathlib.Core.Logic.{inl, inr}
use mathlib.Core.Bool.{Bool, true, false}
use native.Mathlib.Omega.{arith}
use libedio.Base.Tests.{ltb, Bool-cases, ltb→lt, ltb→le}

-- whether the test passes at the `count` numbers from `first` on; it stops at the first that fails
unfoldable pub passes_from : (ℕ → Bool) → ℕ → ℕ → Bool
passes_from test first zero = true
passes_from test first (suc count) = elim (test first) [
  | true ↦ passes_from test (suc first) count
  | false ↦ false
]

-- A number of a range that passes is passed.
pub passes_from-elem :
    (test : ℕ → Bool) (first count k : ℕ)
    → first ≤ k
    → k < first + count
    → passes_from test first count ≡ true
    → test k ≡ true
unfolding passes_from
passes_from-elem test first zero k low high passed = absurd (omega arith)
passes_from-elem test first (suc count) k low high passed = elim (Bool-cases (test first)) [
  | inr fails ↦ ground (arith, fails, passed)
  | inl holds ↦
      let later : passes_from test (suc first) count ≡ true = rw (holds, passes_from) at passed in
      elim (Bool-cases (ltb first k)) [
        | inl above ↦
            passes_from-elem test (suc first) count k (omega (arith, ltb→lt _ _ above))
              (omega arith) later
        | inr same ↦ let is_first : k ≡ first = omega (arith, ltb→le _ _ same) in rw is_first holds
      ]
]

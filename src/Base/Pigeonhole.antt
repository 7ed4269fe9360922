-- ===== src/Base/Pigeonhole.antt =====
-- A dictionary whose keys are numbers of a range has no more entries than the range.
use Prim.Native.Nat.{ℕ, zero, suc, ◌+◌, ◌≤◌, ◌<◌}
use mathlib.Core.Path.{subst}
use mathlib.Core.Logic.{inl, inr}
use mathlib.Core.List.{[], ◌∷◌}
use native.Mathlib.Omega.{arith}
use rudp_agent_stack.Base.Tests.{Option-cases, nat_eq}
use rudp_agent_stack.Base.Lists.{length}
use rudp_agent_stack.Base.Dict.{
  Dict, lookup, remove, IsDistinct, Entries, remove-IsDistinct, remove_absent, length-remove,
}

module _ {ℓ} {V : Type ℓ} where
  abbrev pub KeysIn : ℕ → ℕ → Dict ℕ V → Type 0
  KeysIn lo hi = Entries (λ k _. (lo ≤ k) × (k < hi))

  remove_last : (lo hi : ℕ) (d : Dict ℕ V) → KeysIn lo (suc hi) d → KeysIn lo hi (remove hi d)
  unfolding remove
  remove_last lo hi [] h = tt
  remove_last lo hi ((k, v) ∷ d) h = ground (arith, remove_last lo hi d h.1)

  pub length-le_of_KeysIn :
      (n lo hi : ℕ) (d : Dict ℕ V) → hi ≤ lo + n → IsDistinct d → KeysIn lo hi d → length d ≤ n
  length-le_of_KeysIn zero lo hi [] b u h = omega arith
  length-le_of_KeysIn zero lo hi ((k, v) ∷ d) b u h = absurd (omega arith)
  length-le_of_KeysIn (suc n) lo zero [] b u h = omega arith
  length-le_of_KeysIn (suc n) lo zero ((k, v) ∷ d) b u h = absurd (omega arith)
  length-le_of_KeysIn (suc n) lo (suc hi) d b u h = elim (Option-cases (lookup hi d)) [
    | inl absent ↦
        let below : KeysIn lo hi d =
          subst (KeysIn lo hi) (remove_absent hi d absent) (remove_last lo hi d h) in
        omega (arith, length-le_of_KeysIn n lo hi d (omega arith) u below)
    | inr (v, present) ↦ omega (
      arith,
      length-remove hi v d u present,
      length-le_of_KeysIn n lo hi (remove hi d) (omega arith) (remove-IsDistinct hi d u)
          (remove_last lo hi d h),
    )
  ]

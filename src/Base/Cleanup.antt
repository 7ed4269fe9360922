-- ===== src/Base/Cleanup.antt =====
-- The two passes that remove entries from a dictionary: the keys are listed first, then deleted.
use mathlib.Core.Path.{◌≡◌, refl, ap, ◌∙◌}
use mathlib.Core.Bool.{Bool, true, false, not}
use mathlib.Core.Option.{Option, none, some}
use mathlib.Core.Logic.{inl, inr}
use mathlib.Core.List.{List, [], ◌∷◌}
use native.Mathlib.Omega.{arith}
use rudp_agent_stack.Base.Tests.{if◌then◌else◌, Eq, Bool-cases}
use rudp_agent_stack.Base.Dict.{Dict, lookup, remove, IsDistinct, filter_option, lookup-remove}

abbrev pub listed {ℓ} : {K : Type ℓ} → ⦃e : Eq K⦄ → K → List K → Bool
listed k [] = false
listed ⦃e = e⦄ k (j ∷ ks) = if e.beq j k then true else listed k ks

abbrev holds {κ} : {V : Type κ} → (V → Bool) → Option V → Bool
holds p none = false
holds p (some v) = p v

keep_rest {κ} :
    {V : Type κ} (p : V → Bool) (o : Option V)
    → (if holds p o then none else o) ≡ filter_option (λ v. not (p v)) o
keep_rest p none = refl
keep_rest p (some v) = elim (Bool-cases (p v)) [ inl h ↦ rw h refl | inr h ↦ rw h refl ]

module _ {ℓ κ} {K : Type ℓ} {V : Type κ} ⦃e : Eq K⦄ where
  -- [k for k, v in d.items() if p(v)]
  unfoldable pub keys_if : (V → Bool) → Dict K V → List K
  keys_if p [] = []
  keys_if p ((k, v) ∷ d) = let rest = keys_if p d in if p v then k ∷ rest else rest

  -- for k in ks: del d[k]
  unfoldable pub remove_keys : List K → Dict K V → Dict K V
  remove_keys [] d = d
  remove_keys (k ∷ ks) d = remove_keys ks (remove k d)

  lookup-remove_keys :
      (k : K) (ks : List K) (d : Dict K V)
      → lookup k (remove_keys ks d) ≡ (if listed k ks then none else lookup k d)
  unfolding remove_keys
  lookup-remove_keys k [] d = refl
  lookup-remove_keys k (j ∷ ks) d =
      lookup-remove_keys k ks (remove j d) ∙ ground (arith, lookup-remove j k d)

  listed-keys_if :
      (p : V → Bool) (k : K) (d : Dict K V)
      → IsDistinct d
      → listed k (keys_if p d) ≡ holds p (lookup k d)
  unfolding lookup keys_if
  listed-keys_if p k [] h = refl
  listed-keys_if p k ((j, v) ∷ d) h = ground (arith, listed-keys_if p k d h.1, h.0, e.beq_iff j k)

  -- What is left are the entries that the test does not hold of.
  pub lookup-remove_keys-keys_if :
      (p : V → Bool) (k : K) (d : Dict K V)
      → IsDistinct d
      → lookup k (remove_keys (keys_if p d) d) ≡ filter_option (λ v. not (p v)) (lookup k d)
  lookup-remove_keys-keys_if p k d h =
      lookup-remove_keys k (keys_if p d) d
      ∙ ap (λ b. if b then none else lookup k d) (listed-keys_if p k d h)
      ∙ keep_rest p (lookup k d)

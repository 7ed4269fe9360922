-- ===== src/Base/Dict.antt =====
-- Python's `dict` as an association list in insertion order.
use Prim.Native.Nat.{suc, ◌+◌, ◌≤◌}
use mathlib.Core.Path.{◌≡◌, refl, sym, subst, subst₂}
use mathlib.Core.Bool.{Bool, true, false}
use mathlib.Core.Option.{Option, none, some}
use mathlib.Core.List.{List, [], ◌∷◌}
use native.Mathlib.Omega.{arith}
use rudp_agent_stack.Base.Tests.{if◌then◌else◌, Eq, Bool-cases}
use rudp_agent_stack.Base.Lists.{length}
use mathlib.Core.Logic.{inl, inr}

abbrev pub Dict {ℓ κ} : Type ℓ → Type κ → Type (ℓ ⊔ κ)
Dict K V = List (K × V)

abbrev pub is_some {ℓ} : {A : Type ℓ} → Option A → Bool
is_some none = false
is_some (some _) = true

abbrev pub filter_option {ℓ} : {V : Type ℓ} → (V → Bool) → Option V → Option V
filter_option p none = none
filter_option p (some v) = if p v then some v else none

module _ {ℓ κ} {K : Type ℓ} {V : Type κ} ⦃e : Eq K⦄ where
  -- d.get(k)
  unfoldable pub lookup : K → Dict K V → Option V
  lookup k [] = none
  lookup k ((j, v) ∷ d) = if e.beq j k then some v else lookup k d

  -- k in d
  abbrev pub contains : K → Dict K V → Bool
  contains k d = is_some (lookup k d)

  -- d[k] = v: in place where the key is there, at the end where it is new
  unfoldable pub insert : K → V → Dict K V → Dict K V
  insert k v [] = (k, v) ∷ []
  insert k v ((j, w) ∷ d) = if e.beq j k then (j, v) ∷ d else (j, w) ∷ insert k v d

  -- del d[k], d.pop(k)
  unfoldable pub remove : K → Dict K V → Dict K V
  remove k [] = []
  remove k ((j, v) ∷ d) = let rest = remove k d in if e.beq j k then rest else (j, v) ∷ rest

  -- {k: v for k, v in d.items() if keep(v)}
  unfoldable pub keep_if : (V → Bool) → Dict K V → Dict K V
  keep_if p [] = []
  keep_if p ((j, v) ∷ d) = let rest = keep_if p d in if p v then (j, v) ∷ rest else rest

  -- No key twice, as in every `dict`.
  abbrev pub IsDistinct : Dict K V → Type κ
  IsDistinct [] = Unit
  IsDistinct ((j, v) ∷ d) = (lookup j d ≡ none) × IsDistinct d

  pub lookup-insert :
      (k j : K) (v : V) (d : Dict K V)
      → lookup j (insert k v d) ≡ (if e.beq k j then some v else lookup j d)
  unfolding lookup insert
  lookup-insert k j v [] = refl
  lookup-insert k j v ((i, w) ∷ d) =
      ground (arith, e.beq_iff k j, e.beq_iff i k, e.beq_iff i j, lookup-insert k j v d)

  pub lookup-remove :
      (k j : K) (d : Dict K V) → lookup j (remove k d) ≡ (if e.beq k j then none else lookup j d)
  unfolding lookup remove
  lookup-remove k j [] = ground arith
  lookup-remove k j ((i, w) ∷ d) =
      ground (arith, e.beq_iff k j, e.beq_iff i k, e.beq_iff i j, lookup-remove k j d)

  pub lookup-insert_self : (k : K) (v : V) (d : Dict K V) → lookup k (insert k v d) ≡ some v
  lookup-insert_self k v d = ground (arith, lookup-insert k k v d, e.beq_iff k k)

  pub insert-IsDistinct : (k : K) (v : V) (d : Dict K V) → IsDistinct d → IsDistinct (insert k v d)
  unfolding lookup insert
  insert-IsDistinct k v [] h = (refl, tt)
  insert-IsDistinct k v ((j, w) ∷ d) h =
      ground
        (arith, lookup-insert k j v d, e.beq_iff k j, e.beq_iff j k, insert-IsDistinct k v d h.1)

  pub remove-IsDistinct : (k : K) (d : Dict K V) → IsDistinct d → IsDistinct (remove k d)
  unfolding lookup remove
  remove-IsDistinct k [] h = tt
  remove-IsDistinct k ((j, w) ∷ d) h =
      ground (arith, lookup-remove k j d, e.beq_iff k j, e.beq_iff j k, remove-IsDistinct k d h.1)

  pub lookup-keep_if-none :
      (p : V → Bool) (k : K) (d : Dict K V) → lookup k d ≡ none → lookup k (keep_if p d) ≡ none
  unfolding lookup keep_if
  lookup-keep_if-none p k [] h = refl
  lookup-keep_if-none p k ((j, w) ∷ d) h = ground (arith, lookup-keep_if-none p k d)

  pub lookup-keep_if :
      (p : V → Bool) (k : K) (d : Dict K V)
      → IsDistinct d
      → lookup k (keep_if p d) ≡ filter_option p (lookup k d)
  unfolding lookup keep_if
  lookup-keep_if p k [] h = refl
  lookup-keep_if p k ((j, w) ∷ d) h =
      ground (arith, lookup-keep_if p k d h.1, lookup-keep_if-none p k d, e.beq_iff j k, h.0)

  pub keep_if-IsDistinct : (p : V → Bool) (d : Dict K V) → IsDistinct d → IsDistinct (keep_if p d)
  unfolding lookup keep_if
  keep_if-IsDistinct p [] h = tt
  keep_if-IsDistinct p ((j, w) ∷ d) h =
      ground (arith, lookup-keep_if-none p j d, keep_if-IsDistinct p d h.1)

  pub remove_absent : (k : K) (d : Dict K V) → lookup k d ≡ none → remove k d ≡ d
  unfolding lookup remove
  remove_absent k [] h = refl
  remove_absent k ((j, w) ∷ d) h = ground (arith, remove_absent k d)

  pub length-insert : (k : K) (v : V) (d : Dict K V) → length (insert k v d) ≤ length d + 1
  unfolding insert
  length-insert k v [] = omega arith
  length-insert k v ((j, w) ∷ d) = ground (arith, length-insert k v d)

  pub length-remove :
      (k : K) (v : V) (d : Dict K V)
      → IsDistinct d
      → lookup k d ≡ some v
      → suc (length (remove k d)) ≡ length d
  unfolding lookup remove
  length-remove k v [] h m = ground arith
  length-remove k v ((j, w) ∷ d) h m =
      ground (arith, length-remove k v d h.1, remove_absent k d, e.beq_iff j k, h.0)

module _ {ℓ κ μ} {K : Type ℓ} {V : Type κ} (P : K → V → Type μ) where
  abbrev pub Entries : Dict K V → Type μ
  Entries [] = Unit
  Entries ((k, v) ∷ d) = P k v × Entries d

module _ {ℓ κ μ} {K : Type ℓ} {V : Type κ} ⦃e : Eq K⦄ (P : K → V → Type μ) where
  pub Entries-lookup : (k : K) (v : V) (d : Dict K V) → Entries P d → lookup k d ≡ some v → P k v
  unfolding lookup
  Entries-lookup k v [] h m = ground arith
  Entries-lookup k v ((j, w) ∷ d) h m = elim (Bool-cases (e.beq j k)) [
    | inl same ↦ let value : w ≡ v = ground arith in subst₂ P ((e.beq_iff j k).0 same) value h.0
    | inr other ↦ Entries-lookup k v d h.1 (ground arith)
  ]

  pub Entries-insert :
      (k : K) (v : V) (d : Dict K V) → P k v → Entries P d → Entries P (insert k v d)
  unfolding insert
  Entries-insert k v [] p h = (p, tt)
  Entries-insert k v ((j, w) ∷ d) p h = elim (Bool-cases (e.beq j k)) [
    | inl same ↦ rw same (subst (λ i. P i v) (sym ((e.beq_iff j k).0 same)) p, h.1)
    | inr other ↦ rw other (h.0, Entries-insert k v d p h.1)
  ]

  pub Entries-remove : (k : K) (d : Dict K V) → Entries P d → Entries P (remove k d)
  unfolding remove
  Entries-remove k [] h = tt
  Entries-remove k ((j, w) ∷ d) h = elim (Bool-cases (e.beq j k)) [
    | inl same ↦ rw same (Entries-remove k d h.1)
    | inr other ↦ rw other (h.0, Entries-remove k d h.1)
  ]

pub Entries-imp {ℓ κ μ ν} :
    {K : Type ℓ} {V : Type κ} (P : K → V → Type μ) (Q : K → V → Type ν) (d : Dict K V)
    → ((k : K) (v : V) → P k v → Q k v)
    → Entries P d
    → Entries Q d
Entries-imp P Q [] imp h = tt
Entries-imp P Q ((k, v) ∷ d) imp h = (imp k v h.0, Entries-imp P Q d imp h.1)

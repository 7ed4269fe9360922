-- ===== src/Agent/Action.antt =====
-- A call of a handler or of a tool: it changes the state, and returns or raises. What it changed stays
-- changed where it raises.
use rudp_agent_stack.Base.{Bool, if◌then◌else◌, Result, ok, err}
use rudp_agent_stack.Agent.Paths.{Error}

abbrev pub Action {ℓ κ} : Type ℓ → Type κ → Type (ℓ ⊔ κ)
Action S A = S → S × Result Error A

module _ {ℓ κ} {S : Type ℓ} {A : Type κ} where
  abbrev pub pure : A → Action S A
  pure a s = (s, ok a)

  abbrev pub raise : Error → Action S A
  raise e s = (s, err e)

  abbrev pub from_result : Result Error A → Action S A
  from_result r s = (s, r)

abbrev pub continue {ℓ κ μ} :
    {S : Type ℓ} {A : Type κ} {B : Type μ}
    → (A → Action S B)
    → S × Result Error A
    → S × Result Error B
continue k (s, ok a) = k a s
continue k (s, err e) = (s, err e)

-- Not an `abbrev`: the rules of `Frame` are found by its shape.
infixl 5 ◌>>=◌ ◌>>◌
unfoldable pub ◌>>=◌ {ℓ κ μ} :
    {S : Type ℓ} {A : Type κ} {B : Type μ} → Action S A → (A → Action S B) → Action S B
(m >>= k) s = continue k (m s)

abbrev pub ◌>>◌ {ℓ κ μ} :
    {S : Type ℓ} {A : Type κ} {B : Type μ} → Action S A → Action S B → Action S B
m >> k = m >>= λ _. k

-- if test: raise e
abbrev pub raise_if {ℓ} : {S : Type ℓ} → Bool → Error → Action S (Unit {0})
raise_if test e s = (s, if test then err e else ok tt)

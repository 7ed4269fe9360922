-- ===== src/Agent/Frame.antt =====
-- Calls that leave a part of the state alone. The part is what a `view` shows.
use rudp_agent_stack.Base.{◌≡◌, refl, ap, arith, ◌∙◌, ok, err, Result}
use rudp_agent_stack.Agent.Paths.{Error}
use rudp_agent_stack.Agent.Action.{Action, from_result, ◌>>=◌, continue}

-- A call that returned came through both of its parts.
pub >>=-eq-ok :
    {S A B : Type 0} (m : Action S A) (k : A → Action S B) (s s' : S) (b : B)
    → (m >>= k) s ≡ (s', ok b)
    → (t : S) × (a : A) × (m s ≡ (t, ok a)) × (k a t ≡ (s', ok b))
unfolding ◌>>=◌
>>=-eq-ok {S} {A} {B} m k s s' b h = go (m s) refl h
  where
    go :
        (r : S × Result Error A)
        → m s ≡ r
        → continue k r ≡ (s', ok b)
        → (t : S) × (a : A) × (m s ≡ (t, ok a)) × (k a t ≡ (s', ok b))
    go (t, ok a) e h = (t, a, e, h)
    go (t, err x) e h = absurd (ground (arith, ap (λ p. p.1) h))

module _ {S X : Type 0} (view : S → X) where
  abbrev pub Keeps {κ} : {A : Type κ} → Action S A → Type 0
  Keeps m = (s : S) → view (m s).0 ≡ view s

  continue-view {κ μ} :
      {A : Type κ} {B : Type μ} (k : A → Action S B) (r : S × Result Error A)
      → ((a : A) → r.1 ≡ ok a → view (k a r.0).0 ≡ view r.0)
      → view (continue k r).0 ≡ view r.0
  continue-view k (s, ok a) h = h a refl
  continue-view k (s, err e) h = refl

  -- The second part may use what the first one returned.
  pub Keeps-bind_ok {κ μ} :
      {A : Type κ} {B : Type μ} (m : Action S A) (k : A → Action S B)
      → Keeps m
      → ((s : S) (a : A) → (m s).1 ≡ ok a → view (k a (m s).0).0 ≡ view (m s).0)
      → Keeps (m >>= k)
  unfolding ◌>>=◌
  Keeps-bind_ok m k h then_ s = continue-view k (m s) (then_ s) ∙ h s

  pub Keeps-bind {κ μ} :
      {A : Type κ} {B : Type μ} (m : Action S A) (k : A → Action S B)
      → Keeps m
      → ((a : A) → Keeps (k a))
      → Keeps (m >>= k)
  Keeps-bind m k h then_ = Keeps-bind_ok m k h (λ s a e. then_ a (m s).0)

  -- Reading the state, or a result that does not depend on it.
  pub Keeps-ask {κ μ} :
      {A : Type κ} {B : Type μ} (r : S → Result Error A) (k : A → Action S B)
      → ((a : A) → Keeps (k a))
      → Keeps ((λ s. (s, r s)) >>= k)
  Keeps-ask r k then_ = Keeps-bind (λ s. (s, r s)) k (λ s. refl) then_

  pub Keeps-ask_ok {κ μ} :
      {A : Type κ} {B : Type μ} (r : Result Error A) (k : A → Action S B)
      → ((a : A) → r ≡ ok a → Keeps (k a))
      → Keeps (from_result r >>= k)
  Keeps-ask_ok r k then_ = Keeps-bind_ok (from_result r) k (λ s. refl) (λ s a e. then_ a e s)

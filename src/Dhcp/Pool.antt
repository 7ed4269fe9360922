-- ===== src/Dhcp/Pool.antt =====
-- The search for a free address.
use rudp_agent_stack.Base.{
  ℕ, zero, suc, ◌+◌, ◌≤◌, ◌<◌, ◌≡◌, String, true, false, none, some, arith, ltb, inl, inr,
  Bool-cases, nat_eq, string_eq, subst,
}
use rudp_agent_stack.Base.Dict.{contains}
use rudp_agent_stack.Dhcp.{Set, int_to_ip, first_free}

-- An address of the `count` ones from `start` on.
abbrev pub InPool : ℕ → ℕ → String → Type 0
InPool count start ip = (i : ℕ) × (start ≤ i) × (i < start + count) × (int_to_ip i ≡ ip)

pub first_free-some :
    (count start : ℕ) (taken : Set) (ip : String)
    → first_free count start taken ≡ some ip
    → (contains ip taken ≡ false) × InPool count start ip
unfolding first_free
first_free-some zero start taken ip h = absurd (ground arith)
first_free-some (suc count) start taken ip h =
    elim (Bool-cases (contains (int_to_ip start) taken)) [
      | inl used ↦
          let (free, (i, low, high, e)) =
            first_free-some count (start + 1) taken ip (rw used at h) in
          (free, (i, omega arith, omega arith, e))
      | inr free ↦
          let e : int_to_ip start ≡ ip = ground (arith, rw free at h) in
          (subst (λ a. contains a taken ≡ false) e free, (start, omega arith, omega arith, e))
    ]

pub first_free-none :
    (count start : ℕ) (taken : Set)
    → first_free count start taken ≡ none
    → (i : ℕ) → start ≤ i
    → i < start + count
    → contains (int_to_ip i) taken ≡ true
unfolding first_free
first_free-none zero start taken h i low high = absurd (omega arith)
first_free-none (suc count) start taken h i low high =
    elim (Bool-cases (contains (int_to_ip start) taken)) [
      | inl used ↦ elim (Bool-cases (ltb start i)) [
        | inl above ↦
            first_free-none count (start + 1) taken (rw used at h) i (ground arith) (omega arith)
        | inr here ↦
            let e : start ≡ i = ground arith in
            subst (λ a. contains (int_to_ip a) taken ≡ true) e used
      ]
      | inr free ↦ absurd (ground (arith, rw free at h))
    ]

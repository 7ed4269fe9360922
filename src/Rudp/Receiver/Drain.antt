-- ===== src/Rudp/Receiver/Drain.antt =====
-- The drain loop: a rule for its invariants, and that it ends with no contiguous segment left.
use rudp_agent_stack.Base.{
  ℕ, zero, suc, ◌≤◌, ◌≡◌, refl, inl, inr, none, some, [], ◌∷◌, arith, length, Option-cases, nat_eq,
}
use rudp_agent_stack.Base.Dict.{Dict, lookup, remove, IsDistinct, length-remove, remove-IsDistinct}
use rudp_agent_stack.Rudp.Packet.{RudpPacket}
use rudp_agent_stack.Rudp.Receiver.{Receiver, accept, drain}

-- One round of the loop.
abbrev pub round : RudpPacket → Receiver → Receiver
round segment r = accept segment (record r { ooo_buffer = remove r.expected_seq r.ooo_buffer })

drain-none :
    (fuel : ℕ) (r : Receiver) → lookup r.expected_seq r.ooo_buffer ≡ none → drain (suc fuel) r ≡ r
unfolding drain
drain-none fuel r e = ground arith

drain-some :
    (fuel : ℕ) (r : Receiver) (segment : RudpPacket)
    → lookup r.expected_seq r.ooo_buffer ≡ some segment
    → drain (suc fuel) r ≡ drain fuel (round segment r)
unfolding drain
drain-some fuel r segment e = ground arith

pub drain_inv {ℓ} :
    (P : Receiver → Type ℓ)
    → ((r : Receiver) (segment : RudpPacket)
        → lookup r.expected_seq r.ooo_buffer ≡ some segment
        → P r
        → P (round segment r))
    → (fuel : ℕ) (r : Receiver) → P r
    → P (drain fuel r)
drain_inv P keep zero r h = unfold drain in h
drain_inv P keep (suc fuel) r h = elim (Option-cases (lookup r.expected_seq r.ooo_buffer)) [
  | inl absent ↦ rw (drain-none fuel r absent) h
  | inr (segment, present) ↦
      rw (drain-some fuel r segment present)
        (drain_inv P keep fuel (round segment r) (keep r segment present h))
]

lookup_empty : (k : ℕ) (d : Dict ℕ RudpPacket) → length d ≤ 0 → lookup k d ≡ none
unfolding lookup
lookup_empty k [] h = refl
lookup_empty k (x ∷ d) h = absurd (omega arith)

-- The buffered segments are fuel enough: no segment that could be delivered stays behind.
pub drain_done :
    (fuel : ℕ) (r : Receiver)
    → length r.ooo_buffer ≤ fuel
    → IsDistinct r.ooo_buffer
    → lookup (drain fuel r).expected_seq (drain fuel r).ooo_buffer ≡ none
drain_done zero r h d = unfold drain in lookup_empty r.expected_seq r.ooo_buffer h
drain_done (suc fuel) r h d = elim (Option-cases (lookup r.expected_seq r.ooo_buffer)) [
  | inl absent ↦ rw (drain-none fuel r absent) absent
  | inr (segment, present) ↦ rw (drain-some fuel r segment present) (
      drain_done fuel (round segment r)
        (unfold accept in
          omega (arith, length-remove r.expected_seq segment r.ooo_buffer d present))
        (unfold accept in remove-IsDistinct r.expected_seq r.ooo_buffer d))
]

-- ===== src/Rudp/Receiver/Window.antt =====
-- The receive window: where the buffered segments lie, and what is advertised for them.
use rudp_agent_stack.Base.{
  ℕ, ◌+◌, ◌≤◌, ◌<◌, ◌≡◌, refl, inl, inr, none, [], ◌∷◌, arith, length, Option-cases, nat_eq, ◌==◌,
  ltb, leb, Bool-cases, not, ◌&&◌, ltb→lt, ◌⊎◌, ==_iff,
}
use rudp_agent_stack.Base.Dict.{
  Dict, lookup, remove, IsDistinct, remove-IsDistinct, insert-IsDistinct, Entries-insert,
}
use rudp_agent_stack.Base.Pigeonhole.{KeysIn, length-le_of_KeysIn}
use rudp_agent_stack.Constants.{max_rwnd}
use rudp_agent_stack.Rudp.Packet.{RudpPacket}
use rudp_agent_stack.Rudp.Receiver.{
  Receiver, Stats, high_threshold, low_threshold, FcState, normal, throttle, accept, drain,
  in_order, buffer, route, flow_control, fc_step, process_segment, answer,
}
use rudp_agent_stack.Rudp.Receiver.Drain.{round, drain_inv, drain_done}

-- Between two segments: no segment is buffered twice, each lies in the window, and none is the next
-- one to deliver.
pub record IsOrdered (r : Receiver) : Type 0 where
  pub distinct : IsDistinct r.ooo_buffer
  pub inside : KeysIn (r.expected_seq + 1) (r.expected_seq + max_rwnd) r.ooo_buffer

-- In the drain loop the next segment may be there.
record IsDraining (r : Receiver) : Type 0 where
  distinct : IsDistinct r.ooo_buffer
  inside : KeysIn r.expected_seq (r.expected_seq + max_rwnd) r.ooo_buffer

KeysIn-remove_first :
    (lo hi : ℕ) (d : Dict ℕ RudpPacket) → KeysIn lo hi d → KeysIn (lo + 1) (hi + 1) (remove lo d)
unfolding remove
KeysIn-remove_first lo hi [] h = tt
KeysIn-remove_first lo hi ((k, v) ∷ d) h = ground (arith, KeysIn-remove_first lo hi d h.1)

KeysIn-absent :
    (lo hi : ℕ) (d : Dict ℕ RudpPacket) → KeysIn lo hi d → lookup lo d ≡ none → KeysIn (lo + 1) hi d
unfolding lookup
KeysIn-absent lo hi [] h e = tt
KeysIn-absent lo hi ((k, v) ∷ d) h e = ground (arith, KeysIn-absent lo hi d h.1)

KeysIn-wider :
    (lo hi lo' hi' : ℕ) (d : Dict ℕ RudpPacket)
    → lo' ≤ lo
    → hi ≤ hi'
    → KeysIn lo hi d
    → KeysIn lo' hi' d
KeysIn-wider lo hi lo' hi' [] a b h = tt
KeysIn-wider lo hi lo' hi' ((k, v) ∷ d) a b h = (omega arith, KeysIn-wider lo hi lo' hi' d a b h.1)

round-IsDraining :
    (r : Receiver) (segment : RudpPacket) → IsDraining r → IsDraining (round segment r)
unfolding accept
round-IsDraining r segment h = record {
  distinct = remove-IsDistinct r.expected_seq r.ooo_buffer h.distinct;
  inside =
      KeysIn-wider (r.expected_seq + 1) (r.expected_seq + max_rwnd + 1) _ _
        (remove r.expected_seq r.ooo_buffer) (omega arith) (omega arith)
        (KeysIn-remove_first r.expected_seq (r.expected_seq + max_rwnd) r.ooo_buffer h.inside);
}

accept-IsDraining :
    (r : Receiver) (segment : RudpPacket) → IsOrdered r → IsDraining (accept segment r)
unfolding accept
accept-IsDraining r segment h = record {
  distinct = h.distinct;
  inside =
      KeysIn-wider (r.expected_seq + 1) (r.expected_seq + max_rwnd) _ _ r.ooo_buffer (omega arith)
        (omega arith) h.inside;
}

in_order-IsOrdered :
    (r : Receiver) (segment : RudpPacket) → IsOrdered r → IsOrdered (in_order segment r)
unfolding in_order
in_order-IsOrdered r segment h =
    let start = accept-IsDraining r segment h in
    let fuel = length r.ooo_buffer in
    let after : IsDraining (drain fuel (accept segment r)) =
      drain_inv IsDraining (λ s seg _ k. round-IsDraining s seg k) fuel (accept segment r) start in
    record {
      distinct = after.distinct;
      inside =
          KeysIn-absent _ _ _ after.inside
            (drain_done fuel (accept segment r) (unfold accept in omega arith) start.distinct);
    }

buffer-IsOrdered :
    (r : Receiver) (segment : RudpPacket)
    → r.expected_seq < segment.seq_num
    → segment.seq_num < r.expected_seq + max_rwnd
    → IsOrdered r
    → IsOrdered (buffer segment r)
unfolding buffer
buffer-IsOrdered r segment lo hi h = elim (Option-cases (lookup segment.seq_num r.ooo_buffer)) [
  | inl absent ↦ rw absent (record {
    distinct = insert-IsDistinct segment.seq_num segment r.ooo_buffer h.distinct;
    inside =
        Entries-insert (λ k _. (r.expected_seq + 1 ≤ k) × (k < r.expected_seq + max_rwnd))
          segment.seq_num segment r.ooo_buffer (omega arith) h.inside;
  })
  | inr (old, present) ↦ rw present h
]

-- The branches of `route`, as a rule.
pub route_rule {ℓ} :
    (P : Receiver → Type ℓ) (segment : RudpPacket) (r : Receiver)
    → ((s : Stats)
        → (segment.seq_num < r.expected_seq) ⊎ (r.expected_seq + max_rwnd ≤ segment.seq_num)
        → P (record r { stats = s }))
    → (segment.seq_num ≡ r.expected_seq → P (in_order segment r))
    → (r.expected_seq < segment.seq_num
        → segment.seq_num < r.expected_seq + max_rwnd
        → P (buffer segment r))
    → P (route segment r)
unfolding route
route_rule P segment r ignored next later = elim (Bool-cases (ltb segment.seq_num r.expected_seq)) [
  | inl old ↦ rw old (ignored _ (inl (ltb→lt _ _ old)))
  | inr fresh ↦
      rw fresh
        (elim (Bool-cases (
          not (
            leb r.expected_seq segment.seq_num
            && ltb segment.seq_num (r.expected_seq + max_rwnd)))) [
              | inl outside ↦ rw outside (ignored _ (inr (ground arith)))
              | inr within ↦ rw within (elim (Bool-cases (segment.seq_num == r.expected_seq)) [
                | inl same ↦ rw same (next ((==_iff _ _).0 same))
                | inr other ↦ rw other (later (ground arith) (ground arith))
              ])
            ])
]

pub route-IsOrdered :
    (r : Receiver) (segment : RudpPacket) → IsOrdered r → IsOrdered (route segment r)
route-IsOrdered r segment h =
    route_rule IsOrdered segment r (λ s _. record { distinct = h.distinct; inside = h.inside })
      (λ _. in_order-IsOrdered r segment h) (λ lo hi. buffer-IsOrdered r segment lo hi h)

-- Flow control touches its own state alone.
pub flow_control_rule {ℓ} :
    (P : Receiver → Type ℓ) (r : Receiver)
    → ((f : FcState) (s : Stats) → P (record r { fc_state = f; stats = s }))
    → P (flow_control r)
unfolding flow_control fc_step
flow_control_rule P r h = go r.fc_state
  where
    go : (f : FcState) → P (fc_step f (length r.ooo_buffer) r)
    go normal = elim (Bool-cases (leb high_threshold (length r.ooo_buffer))) [
      | inl e ↦ rw e (h _ _)
      | inr e ↦ rw e (h r.fc_state r.stats)
    ]
    go throttle = elim (Bool-cases (leb (length r.ooo_buffer) low_threshold)) [
      | inl e ↦ rw e (h _ _)
      | inr e ↦ rw e (h r.fc_state r.stats)
    ]

-- If the buffered segments stand under distinct numbers inside the window above `expected_seq`, then
-- they do so after any segment, whatever it carries.
pub process_segment-IsOrdered :
    (r : Receiver) (segment : RudpPacket) → IsOrdered r → IsOrdered (process_segment segment r).0
unfolding process_segment
process_segment-IsOrdered r segment h = flow_control_rule IsOrdered (route segment r) (λ f s.
    let k = route-IsOrdered r segment h in record { distinct = k.distinct; inside = k.inside })

-- For a receiver whose buffer is in order, the answer to any segment acknowledges `expected_seq` and
-- advertises the room that is left of the 64 places, which is never zero.
pub rwnd_bounds :
    (r : Receiver) (segment : RudpPacket)
    → IsOrdered r
    → let (r', ack) = process_segment segment r in
      (ack.ack_num ≡ r'.expected_seq)
      × (1 ≤ ack.rwnd)
      × (ack.rwnd + length r'.ooo_buffer ≡ max_rwnd)
unfolding process_segment answer
rwnd_bounds r segment h =
    let r' = (process_segment segment r).0 in
    let k = process_segment-IsOrdered r segment h in
    let room =
      length-le_of_KeysIn 63 (r'.expected_seq + 1) (r'.expected_seq + max_rwnd) r'.ooo_buffer
        (omega arith) k.distinct k.inside in
    (
      refl,
      unfold process_segment in omega (arith, room),
      unfold process_segment in omega (arith, room),
    )

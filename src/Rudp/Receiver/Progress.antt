-- ===== src/Rudp/Receiver/Progress.antt =====
-- No segment of the window is lost by the receiver: once a window's segments have all arrived, in any
-- order, they have all been passed on.
use native.Mathlib.Decide.{dec_le}
use rudp_agent_stack.Base.{
  ℕ, ◌+◌, ◌≤◌, ◌<◌, ◌≡◌, ◌⊎◌, subst, inl, inr, List, [], ◌∷◌, arith, length, true, Option-cases,
  nat_eq, All,
}
use rudp_agent_stack.Base.Dict.{lookup, contains, lookup-insert, lookup-remove, Entries-lookup}
use rudp_agent_stack.Constants.{max_rwnd}
use rudp_agent_stack.Rudp.Packet.{RudpPacket}
use rudp_agent_stack.Rudp.Receiver.{
  Receiver, accept, in_order, buffer, route, process_segment, process_all,
}
use rudp_agent_stack.Rudp.Receiver.Drain.{round, drain_inv}
use rudp_agent_stack.Rudp.Receiver.Window.{
  route_rule, flow_control_rule, IsOrdered, process_segment-IsOrdered,
}

-- A sequence number whose segment the receiver has passed on or holds.
abbrev pub Has : ℕ → Receiver → Type 0
Has s r = (s < r.expected_seq) ⊎ (contains s r.ooo_buffer ≡ true)

record Keeps (s low : ℕ) (r : Receiver) : Type 0 where
  has : Has s r
  grown : low ≤ r.expected_seq

round-Has : (s : ℕ) (r : Receiver) (segment : RudpPacket) → Has s r → Has s (round segment r)
unfolding accept
round-Has s r segment h = ground (arith, lookup-remove r.expected_seq s r.ooo_buffer)

accept-Has : (s : ℕ) (r : Receiver) (segment : RudpPacket) → Has s r → Has s (accept segment r)
unfolding accept
accept-Has s r segment h = ground arith

in_order-Keeps :
    (s : ℕ) (r : Receiver) (segment : RudpPacket)
    → Has s (accept segment r)
    → Keeps s r.expected_seq (in_order segment r)
unfolding in_order
in_order-Keeps s r segment h =
    drain_inv (Keeps s r.expected_seq)
      (λ q seg _ k. record {
        has = round-Has s q seg k.has;
        grown = unfold accept in omega (arith, k.grown);
      })
      (length r.ooo_buffer) (accept segment r)
      (record { has = h; grown = unfold accept in omega arith })

buffer-Has : (s : ℕ) (r : Receiver) (segment : RudpPacket) → Has s r → Has s (buffer segment r)
unfolding buffer
buffer-Has s r segment h = ground (arith, lookup-insert segment.seq_num s segment r.ooo_buffer)

buffer-Has_self : (r : Receiver) (segment : RudpPacket) → Has segment.seq_num (buffer segment r)
unfolding buffer
buffer-Has_self r segment =
    ground (arith, lookup-insert segment.seq_num segment.seq_num segment r.ooo_buffer)

buffer_expected :
    (r : Receiver) (segment : RudpPacket) → (buffer segment r).expected_seq ≡ r.expected_seq
unfolding buffer
buffer_expected r segment = ground arith

-- What the receiver has, it keeps.
process_segment-Keeps :
    (s : ℕ) (r : Receiver) (segment : RudpPacket)
    → Has s r
    → Keeps s r.expected_seq (process_segment segment r).0
unfolding process_segment
process_segment-Keeps s r segment h =
    flow_control_rule (Keeps s r.expected_seq) (route segment r) λ f st.
      let k =
        route_rule (Keeps s r.expected_seq) segment r
          (λ _ _. record { has = h; grown = omega arith })
          (λ _. in_order-Keeps s r segment (accept-Has s r segment h))
          (λ _ _. record {
            has = buffer-Has s r segment h;
            grown = omega (arith, buffer_expected r segment);
          }) in
      record { has = k.has; grown = k.grown }

-- `expected_seq` never goes back.
pub process_segment_grows :
    (r : Receiver) (segment : RudpPacket)
    → r.expected_seq ≤ (process_segment segment r).0.expected_seq
unfolding process_segment
process_segment_grows r segment =
    let P : Receiver → Type 0 = λ q. r.expected_seq ≤ q.expected_seq in
    flow_control_rule P (route segment r) λ f st.
      route_rule P segment r (λ _ _. omega arith)
        (λ _.
          unfold in_order in
          drain_inv P (λ q g _ k. unfold accept in omega arith) (length r.ooo_buffer)
            (accept segment r) (unfold accept in omega arith))
        (λ _ _. omega (arith, buffer_expected r segment))

pub process_all_grows :
    (segments : List RudpPacket) (r : Receiver)
    → r.expected_seq ≤ (process_all segments r).expected_seq
unfolding process_all
process_all_grows [] r = omega arith
process_all_grows (segment ∷ rest) r =
    omega
      (arith, process_segment_grows r segment, process_all_grows rest (process_segment segment r).0)

in_order-Has_self :
    (r : Receiver) (segment : RudpPacket)
    → segment.seq_num ≡ r.expected_seq
    → Has segment.seq_num (in_order segment r)
in_order-Has_self r segment e =
    (in_order-Keeps segment.seq_num r segment (inl (unfold accept in omega arith))).has

-- A segment of the window is kept when it arrives, or had been passed on before.
process_segment-Has :
    (r : Receiver) (segment : RudpPacket)
    → segment.seq_num < r.expected_seq + max_rwnd
    → Has segment.seq_num (process_segment segment r).0
unfolding process_segment
process_segment-Has r segment inside =
    flow_control_rule (Has segment.seq_num) (route segment r) λ f st.
      route_rule (Has segment.seq_num) segment r (λ _ where_. inl (omega arith))
        (in_order-Has_self r segment) (λ _ _. buffer-Has_self r segment)

-- Some segment of the list has the sequence number.
abbrev pub Arrives : ℕ → List RudpPacket → Type 0
Arrives s [] = ⊥
Arrives s (segment ∷ rest) = (segment.seq_num ≡ s) ⊎ Arrives s rest

process_all-Has :
    (s : ℕ) (segments : List RudpPacket) (r : Receiver) → Has s r → Has s (process_all segments r)
unfolding process_all
process_all-Has s [] r h = h
process_all-Has s (segment ∷ rest) r h =
    process_all-Has s rest (process_segment segment r).0 (process_segment-Keeps s r segment h).has

abbrev pub Below : ℕ → List RudpPacket → Type 0
Below bound = All (λ segment. segment.seq_num < bound)

process_all-Arrives :
    (s : ℕ) (segments : List RudpPacket) (bound : ℕ) (r : Receiver)
    → bound ≤ r.expected_seq + max_rwnd
    → Below bound segments
    → Arrives s segments
    → Has s (process_all segments r)
unfolding process_all
process_all-Arrives s [] bound r room below here = absurd here
process_all-Arrives s (segment ∷ rest) bound r room below (inl e) = process_all-Has s rest _ (
    subst (λ n. Has n (process_segment segment r).0) e
      (process_segment-Has r segment (omega arith)))
process_all-Arrives s (segment ∷ rest) bound r room below (inr later) =
    process_all-Arrives s rest bound (process_segment segment r).0
      (omega (arith, process_segment_grows r segment)) below.1 later

pub process_all-IsOrdered :
    (segments : List RudpPacket) (r : Receiver) → IsOrdered r → IsOrdered (process_all segments r)
unfolding process_all
process_all-IsOrdered [] r h = h
process_all-IsOrdered (segment ∷ rest) r h =
    process_all-IsOrdered rest _ (process_segment-IsOrdered r segment h)

not_held : (r : Receiver) → IsOrdered r → contains r.expected_seq r.ooo_buffer ≡ true → ⊥
not_held r h e = elim (Option-cases (lookup r.expected_seq r.ooo_buffer)) [
  | inl absent ↦ absurd (ground arith)
  | inr (segment, present) ↦ absurd (
      omega (
        arith,
        Entries-lookup (λ k _. (r.expected_seq + 1 ≤ k) × (k < r.expected_seq + max_rwnd))
            r.expected_seq segment r.ooo_buffer h.inside present,
      ))
]

-- A receiver whose buffer is in order is handed segments in whatever order and however often, none of
-- them beyond its window. If every number from `expected_seq` to below `n` is among them, then
-- `expected_seq` ends up at `n` or more: nothing that has arrived is held back.
pub process_all_complete :
    (segments : List RudpPacket) (r : Receiver) (n : ℕ)
    → IsOrdered r
    → Below (r.expected_seq + max_rwnd) segments
    → ((s : ℕ) → r.expected_seq ≤ s → s < n → Arrives s segments)
    → n ≤ (process_all segments r).expected_seq
process_all_complete segments r n ordered below arrive =
    let r' = process_all segments r in
    elim (dec_le n r'.expected_seq) [
      | yes reached ↦ reached
      | no short ↦
          let has : Has r'.expected_seq r' =
            process_all-Arrives r'.expected_seq segments (r.expected_seq + max_rwnd) r (omega arith)
              below (arrive r'.expected_seq (process_all_grows segments r) (omega arith)) in
          absurd (elim has [
            | inl less ↦ omega arith
            | inr held ↦ not_held r' (process_all-IsOrdered segments r ordered) held
          ])
    ]

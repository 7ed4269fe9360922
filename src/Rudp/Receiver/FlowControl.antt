-- ===== src/Rudp/Receiver/FlowControl.antt =====
-- The hysteresis of the flow control state.
use rudp_agent_stack.Base.{ℕ, ◌≡◌, refl, subst, arith, length, leb, if◌then◌else◌}
use rudp_agent_stack.Rudp.Packet.{RudpPacket}
use rudp_agent_stack.Rudp.Receiver.{
  Receiver, FcState, normal, throttle, fc_step, flow_control, process_segment, route, buffer,
  in_order, accept,
}
use rudp_agent_stack.Rudp.Receiver.Drain.{drain_inv}
use rudp_agent_stack.Rudp.Receiver.Window.{route_rule}

same_buffer : (r : Receiver) → (flow_control r).ooo_buffer ≡ r.ooo_buffer
unfolding flow_control
same_buffer r = fc_step_buffer r.fc_state
  where
    fc_step_buffer : (f : FcState) → (fc_step f (length r.ooo_buffer) r).ooo_buffer ≡ r.ooo_buffer
    fc_step_buffer f = unfold fc_step in ground arith

hysteresis :
    (f : FcState) (used : ℕ) (r : Receiver)
    → r.fc_state ≡ f
    → (fc_step f used r).fc_state
      ≡ (if leb 52 used then throttle else if leb used 13 then normal else f)
unfolding fc_step
hysteresis normal used r e = ground arith
hysteresis throttle used r e = ground arith

route_fc : (segment : RudpPacket) (r : Receiver) → (route segment r).fc_state ≡ r.fc_state
unfolding buffer in_order accept
route_fc segment r =
    route_rule Same segment r (λ s _. refl)
      (λ _. drain_inv Same (λ q g _ h. h) (length r.ooo_buffer) (accept segment r) refl)
      (λ _ _. ground arith)
  where
    Same : Receiver → Type 0
    Same q = q.fc_state ≡ r.fc_state

flow_control_fc :
    (q : Receiver)
    → (flow_control q).fc_state ≡ (
        if leb 52 (length (flow_control q).ooo_buffer)
        then throttle
        else if leb (length (flow_control q).ooo_buffer) 13
        then normal
        else q.fc_state)
flow_control_fc q =
    rw (same_buffer q) (unfold flow_control in hysteresis q.fc_state (length q.ooo_buffer) q refl)

-- After every segment the receiver throttles if 52 segments or more are buffered, is normal if 13 or
-- less are, and in between stays as it was.
pub fc_state_hysteresis :
    (segment : RudpPacket) (r : Receiver)
    → let r' = (process_segment segment r).0 in
      r'.fc_state ≡ (
        if leb 52 (length r'.ooo_buffer)
        then throttle
        else if leb (length r'.ooo_buffer) 13
        then normal
        else r.fc_state)
unfolding process_segment
fc_state_hysteresis segment r =
    let q = flow_control (route segment r) in
    subst
      (λ f. q.fc_state ≡ (
        if leb 52 (length q.ooo_buffer)
        then throttle
        else if leb (length q.ooo_buffer) 13
        then normal
        else f))
      (route_fc segment r) (flow_control_fc (route segment r))

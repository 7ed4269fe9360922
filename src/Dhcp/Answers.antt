-- ===== src/Dhcp/Answers.antt =====
-- The books of the pool after any calls.
use rudp_agent_stack.Base.{
  ℕ, ◌+◌, ◌-◌, ◌≡◌, refl, String, false, ◌&&◌, Option, none, some, List, [], ◌∷◌, ok, err, ◌>>=◌,
  arith, inl, inr, Bool-cases, nat_eq, string_eq, ◌==◌,
}
use rudp_agent_stack.Base.Dict.{lookup, contains}
use rudp_agent_stack.Exceptions.{Py}
use rudp_agent_stack.Rudp.Float.{Float}
use rudp_agent_stack.Dhcp.{
  Lease, IpManager, selecting, is_bound, init, ip_to_int, first_free, get_next_available_ip,
  reoffer, expiry, allocate_new, offer, handle_discover, answer_request, handle_request,
  cleanup_expired_leases, not_equal,
}
use rudp_agent_stack.Dhcp.Pool.{first_free-some}
use rudp_agent_stack.Dhcp.Leases.{
  IsConsistent, init-IsConsistent, renew-IsConsistent, grant-IsConsistent,
  cleanup_expired_leases-IsConsistent,
}

module _ (f : Float) where
  open f use {F}

  -- What the search says of the address that it finds.
  search_free :
      (m : IpManager f) (ip : String)
      → get_next_available_ip f m ≡ ok (some ip)
      → contains ip m.allocated_ips ≡ false
  unfolding get_next_available_ip
  search_free m ip h = go (ip_to_int m.start_ip) (ip_to_int m.end_ip) h
    where
      go :
          (a b : Py ℕ)
          → (do start ← a; end ← b; ok (first_free (end + 1 - start) start m.allocated_ips))
            ≡ ok (some ip)
          → contains ip m.allocated_ips ≡ false
      go (err e) b h = absurd (ground arith)
      go (ok a) (err e) h = absurd (ground arith)
      go (ok a) (ok b) h = (first_free-some (b + 1 - a) a m.allocated_ips ip (ground arith)).0

  reoffer_ip : (xid : ℕ) (later : F) (lease : Lease f) → (reoffer f xid later lease).ip ≡ lease.ip
  reoffer_ip xid later lease = ground arith

  allocate_new-IsConsistent :
      (mac : String) (xid : ℕ) (later : F) (r : Py (Option String)) (m : IpManager f)
      → get_next_available_ip f m ≡ r
      → lookup mac m.leased_ips ≡ none
      → IsConsistent f m
      → IsConsistent f (allocate_new f mac xid later r m).0
  allocate_new-IsConsistent mac xid later (err e) m found absent h = h
  allocate_new-IsConsistent mac xid later (ok none) m found absent h = h
  allocate_new-IsConsistent mac xid later (ok (some ip)) m found absent h =
      grant-IsConsistent f mac
        (record { ip = ip; xid = xid; expires_at = expiry f later; state = selecting }) m absent
        (search_free m ip found) h

  offer-IsConsistent :
      (mac : String) (xid : ℕ) (later : F) (o : Option (Lease f)) (m : IpManager f)
      → lookup mac m.leased_ips ≡ o
      → IsConsistent f m
      → IsConsistent f (offer f mac xid later o m).0
  unfolding offer
  offer-IsConsistent mac xid later (some lease) m e h =
      renew-IsConsistent f mac lease (reoffer f xid later lease) m e (reoffer_ip xid later lease) h
  offer-IsConsistent mac xid later none m e h =
      allocate_new-IsConsistent mac xid later (get_next_available_ip f m) m refl e h

  answer_request-IsConsistent :
      (mac : String) (xid : ℕ) (ip : String) (later : F) (o : Option (Lease f)) (m : IpManager f)
      → lookup mac m.leased_ips ≡ o
      → IsConsistent f m
      → IsConsistent f (answer_request f mac xid ip later o m).0
  unfolding answer_request
  answer_request-IsConsistent mac xid ip later none m e h = h
  answer_request-IsConsistent mac xid ip later (some lease) m e h =
      elim (Bool-cases (not_equal lease.ip ip)) [
        | inl wrong ↦ rw wrong h
        | inr right ↦ rw right (elim (Bool-cases ((lease.xid == xid) && is_bound lease.state)) [
          | inl again ↦ rw again (renew-IsConsistent f mac lease _ m e refl h)
          | inr first ↦ rw first (elim (Bool-cases (is_bound lease.state)) [
            | inl other ↦ rw other h
            | inr offered ↦ rw offered (renew-IsConsistent f mac lease _ m e refl h)
          ])
        ])
      ]

  -- What clients and the clock do.
  pub data Call : Type 0 where
    discover : String → ℕ → F → F → Call
    request : String → ℕ → String → F → F → Call
    cleanup : F → Call

  pub perform : Call → IpManager f → IpManager f
  perform (discover mac xid now later) m = (handle_discover f mac xid now later m).0
  perform (request mac xid ip now later) m = (handle_request f mac xid ip now later m).0
  perform (cleanup now) m = cleanup_expired_leases f now m

  unfoldable pub perform_all : List Call → IpManager f → IpManager f
  unfolding perform
  perform_all [] m = m
  perform_all (c ∷ rest) m = perform_all rest (perform c m)

  pub perform-IsConsistent :
      (c : Call) (m : IpManager f) → IsConsistent f m → IsConsistent f (perform c m)
  unfolding perform handle_discover handle_request
  perform-IsConsistent (discover mac xid now later) m h =
      offer-IsConsistent mac xid later _ _ refl (cleanup_expired_leases-IsConsistent f now m h)
  perform-IsConsistent (request mac xid ip now later) m h =
      answer_request-IsConsistent mac xid ip later _ _ refl
        (cleanup_expired_leases-IsConsistent f now m h)
  perform-IsConsistent (cleanup now) m h = cleanup_expired_leases-IsConsistent f now m h

  perform_all-keeps :
      (calls : List Call) (m : IpManager f)
      → IsConsistent f m
      → IsConsistent f (perform_all calls m)
  unfolding perform_all
  perform_all-keeps [] m h = h
  perform_all-keeps (c ∷ rest) m h = perform_all-keeps rest _ (perform-IsConsistent c m h)

  -- Whatever DISCOVERs, REQUESTs and cleanups a new pool goes through: each client has at most one
  -- lease, its address is allocated, no two clients have the same address, and every address that is
  -- allocated belongs to some client's lease.
  pub perform_all-IsConsistent :
      (calls : List Call) (start end : String)
      → IsConsistent f (perform_all calls (init f start end))
  perform_all-IsConsistent calls start end =
      perform_all-keeps calls _ (init-IsConsistent f start end)

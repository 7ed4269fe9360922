-- ===== src/Dhcp/Handshake.antt =====
-- What a client is told, against the lease that it has afterwards.
use rudp_agent_stack.Base.{
  ℕ, ◌≡◌, refl, ◌∙◌, subst, String, true, false, ◌&&◌, Option, none, some, ok, err, arith, inl, inr,
  Bool-cases, nat_eq, string_eq, ◌==◌,
}
use rudp_agent_stack.Base.Dict.{lookup, insert, IsDistinct, lookup-insert_self}
use rudp_agent_stack.Exceptions.{Py}
use rudp_agent_stack.Rudp.Float.{Float}
use rudp_agent_stack.Constants.{dhcp_default_lease_time}
use rudp_agent_stack.Dhcp.{
  Lease, IpManager, selecting, bound, is_bound, get_next_available_ip, reoffer, expiry,
  allocate_new, offer, handle_discover, answer_request, handle_request, cleanup_expired_leases,
  renewed, not_equal,
}
use rudp_agent_stack.Dhcp.Expiry.{lookup-cleanup_expired_leases}

module _ (f : Float) where
  open f use {F, lt}

  -- The client holds this address under this transaction, for an hour from `later` on.
  pub record Holds (mac : String) (xid : ℕ) (ip : String) (later : F) (m : IpManager f)
      : Type 0 where
    pub lease : Lease f
    pub found : lookup mac m.leased_ips ≡ some lease
    pub same_ip : lease.ip ≡ ip
    pub same_xid : lease.xid ≡ xid
    pub fresh : lease.expires_at ≡ expiry f later

  reoffer-Holds :
      (mac : String) (xid : ℕ) (later : F) (lease : Lease f) (m : IpManager f)
      → Holds mac xid lease.ip later
          (record m { leased_ips = insert mac (reoffer f xid later lease) m.leased_ips })
  reoffer-Holds mac xid later lease m = record {
    lease = reoffer f xid later lease;
    found = lookup-insert_self mac (reoffer f xid later lease) m.leased_ips;
    same_ip = ground arith;
    same_xid = ground arith;
    fresh = elim (Bool-cases (lease.xid == xid)) [ inl e ↦ rw e refl | inr e ↦ rw e refl ];
  }

  allocate_new-Holds :
      (mac : String) (xid : ℕ) (later : F) (r : Py (Option String)) (m : IpManager f) (ip : String)
      (t : ℕ)
      → (allocate_new f mac xid later r m).1 ≡ ok (some ip, t)
      → (t ≡ dhcp_default_lease_time) × Holds mac xid ip later (allocate_new f mac xid later r m).0
  allocate_new-Holds mac xid later (err e) m ip t h = absurd (ground arith)
  allocate_new-Holds mac xid later (ok none) m ip t h = absurd (ground arith)
  allocate_new-Holds mac xid later (ok (some new)) m ip t h = (
    ground arith,
    record {
      lease = record { ip = new; xid = xid; expires_at = expiry f later; state = selecting };
      found = lookup-insert_self mac _ m.leased_ips;
      same_ip = ground arith;
      same_xid = refl;
      fresh = refl;
    },
  )

  offer-Holds :
      (mac : String) (xid : ℕ) (later : F) (o : Option (Lease f)) (m : IpManager f) (ip : String)
      (t : ℕ)
      → (offer f mac xid later o m).1 ≡ ok (some ip, t)
      → (t ≡ dhcp_default_lease_time) × Holds mac xid ip later (offer f mac xid later o m).0
  unfolding offer
  offer-Holds mac xid later none m ip t h =
      allocate_new-Holds mac xid later (get_next_available_ip f m) m ip t h
  offer-Holds mac xid later (some lease) m ip t h =
      let e : lease.ip ≡ ip = ground arith in
      (
        ground arith,
        subst
            (λ i.
              Holds mac xid i later
                (record m { leased_ips = insert mac (reoffer f xid later lease) m.leased_ips }))
            e (reoffer-Holds mac xid later lease m),
      )

  -- When a DISCOVER is answered with an address, it comes with the default lease time, and the client
  -- holds that address under the transaction of the DISCOVER until that time is over.
  pub handle_discover-Holds :
      (mac : String) (xid : ℕ) (now later : F) (m : IpManager f) (ip : String) (t : ℕ)
      → (handle_discover f mac xid now later m).1 ≡ ok (some ip, t)
      → (t ≡ dhcp_default_lease_time)
        × Holds mac xid ip later (handle_discover f mac xid now later m).0
  unfolding handle_discover
  handle_discover-Holds mac xid now later m ip t h =
      let m' = cleanup_expired_leases f now m in
      offer-Holds mac xid later (lookup mac m'.leased_ips) m' ip t h

  answer_request_ack :
      (mac : String) (xid : ℕ) (ip : String) (later : F) (lease : Lease f) (m : IpManager f)
      → lease.ip ≡ ip
      → lease.xid ≡ xid
      → (answer_request f mac xid ip later (some lease) m).1 ≡ true
  unfolding answer_request
  answer_request_ack mac xid ip later lease m same_ip same_xid =
      ground (arith, string_eq.beq_iff lease.ip ip)

  -- A client that holds an address gets an ACK for a REQUEST of it under the same transaction, as long as
  -- the lease has not expired.
  pub handle_request_ack :
      (mac : String) (xid : ℕ) (ip : String) (before now later : F) (m : IpManager f)
      → IsDistinct m.leased_ips
      → Holds mac xid ip before m
      → lt (expiry f before) now ≡ false
      → (handle_request f mac xid ip now later m).1 ≡ true
  unfolding handle_request
  handle_request_ack mac xid ip before now later m distinct h alive =
      let l = h.lease in
      let kept : lookup mac (cleanup_expired_leases f now m).leased_ips ≡ some l =
        lookup-cleanup_expired_leases f now mac m distinct ∙ rw (h.found, h.fresh, alive) refl in
      rw kept (
        answer_request_ack mac xid ip later l (cleanup_expired_leases f now m) h.same_ip h.same_xid)

  renewed-Holds :
      (mac : String) (xid : ℕ) (ip : String) (later : F) (lease : Lease f) (m : IpManager f)
      → lease.ip ≡ ip
      → lease.xid ≡ xid
      → Holds mac xid ip later (renewed f mac later lease m)
  renewed-Holds mac xid ip later lease m same e = record {
    lease = record lease { expires_at = expiry f later };
    found = lookup-insert_self mac _ m.leased_ips;
    same_ip = same;
    same_xid = e;
    fresh = refl;
  }

  answer_request-Holds :
      (mac : String) (xid : ℕ) (ip : String) (later : F) (o : Option (Lease f)) (m : IpManager f)
      → (answer_request f mac xid ip later o m).1 ≡ true
      → Holds mac xid ip later (answer_request f mac xid ip later o m).0
  unfolding answer_request
  answer_request-Holds mac xid ip later none m h = absurd (ground arith)
  answer_request-Holds mac xid ip later (some lease) m h =
      elim (Bool-cases (not_equal lease.ip ip)) [
        | inl wrong ↦ absurd (ground (arith, rw wrong at h))
        | inr right ↦
            let same : lease.ip ≡ ip = ground (arith, string_eq.beq_iff lease.ip ip) in
            rw right (elim (Bool-cases ((lease.xid == xid) && is_bound lease.state)) [
              | inl again ↦ rw again (renewed-Holds mac xid ip later lease m same (ground arith))
              | inr first ↦ rw first (elim (Bool-cases (is_bound lease.state)) [
                | inl other ↦ absurd (ground (arith, rw (right, first, other) at h))
                | inr offered ↦ rw offered (
                    renewed-Holds mac xid ip later (record lease { xid = xid; state = bound }) m
                      same refl)
              ])
            ])
      ]

  -- When a REQUEST is answered with an ACK, the client holds the address that it asked for, under the
  -- transaction of the REQUEST and with the lease time renewed.
  pub handle_request-Holds :
      (mac : String) (xid : ℕ) (ip : String) (now later : F) (m : IpManager f)
      → (handle_request f mac xid ip now later m).1 ≡ true
      → Holds mac xid ip later (handle_request f mac xid ip now later m).0
  unfolding handle_request
  handle_request-Holds mac xid ip now later m h =
      let m' = cleanup_expired_leases f now m in
      answer_request-Holds mac xid ip later (lookup mac m'.leased_ips) m' h

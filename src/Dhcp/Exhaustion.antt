-- ===== src/Dhcp/Exhaustion.antt =====
-- A client is turned away only when the whole pool is leased.
use rudp_agent_stack.Base.{
  ℕ, ◌+◌, ◌-◌, ◌≤◌, ◌≡◌, refl, ◌∙◌, String, true, Option, none, some, List, [], ◌∷◌, ok, err, arith,
  string_eq,
}
use rudp_agent_stack.Base.Dict.{lookup, contains}
use rudp_agent_stack.Exceptions.{Py}
use rudp_agent_stack.Rudp.Float.{Float}
use rudp_agent_stack.Dhcp.{
  Lease, IpManager, ip_to_int, int_to_ip, first_free, get_next_available_ip, allocate_new, offer,
  handle_discover, release, release_all, expired_macs, cleanup_expired_leases,
}
use rudp_agent_stack.Dhcp.Pool.{first_free-none}
use rudp_agent_stack.Dhcp.Leases.{IsConsistent, cleanup_expired_leases-IsConsistent}

module _ (f : Float) where
  open f use {F}

  release_bounds :
      (mac : String) (o : Option (Lease f)) (m : IpManager f)
      → ((release f mac o m).start_ip ≡ m.start_ip) × ((release f mac o m).end_ip ≡ m.end_ip)
  unfolding release
  release_bounds mac none m = (refl, refl)
  release_bounds mac (some lease) m = (refl, refl)

  release_all_bounds :
      (macs : List String) (m : IpManager f)
      → ((release_all f macs m).start_ip ≡ m.start_ip) × ((release_all f macs m).end_ip ≡ m.end_ip)
  unfolding release_all
  release_all_bounds [] m = (refl, refl)
  release_all_bounds (mac ∷ rest) m =
      let once = release_bounds mac (lookup mac m.leased_ips) m in
      let more = release_all_bounds rest (release f mac (lookup mac m.leased_ips) m) in
      (more.0 ∙ once.0, more.1 ∙ once.1)

  search_none :
      (m : IpManager f) (a b : ℕ)
      → ip_to_int m.start_ip ≡ ok a
      → ip_to_int m.end_ip ≡ ok b
      → get_next_available_ip f m ≡ ok none
      → (i : ℕ) → a ≤ i
      → i ≤ b
      → contains (int_to_ip i) m.allocated_ips ≡ true
  unfolding get_next_available_ip
  search_none m a b start end h i low high =
      let found : first_free (b + 1 - a) a m.allocated_ips ≡ none =
        ground (arith, rw (start, end) at h) in
      first_free-none (b + 1 - a) a m.allocated_ips found i low (omega arith)

  turned_away :
      (mac : String) (xid : ℕ) (later : F) (t : ℕ) (r : Py (Option String)) (m : IpManager f)
      → (allocate_new f mac xid later r m).1 ≡ ok (none, t)
      → (r ≡ ok none) × ((allocate_new f mac xid later r m).0 ≡ m)
  turned_away mac xid later t (err e) m h = absurd (ground arith)
  turned_away mac xid later t (ok none) m h = (refl, refl)
  turned_away mac xid later t (ok (some ip)) m h = absurd (ground arith)

  offer-none :
      (mac : String) (xid : ℕ) (later : F) (t : ℕ) (o : Option (Lease f)) (m : IpManager f)
      → (offer f mac xid later o m).1 ≡ ok (none, t)
      → (get_next_available_ip f m ≡ ok none) × ((offer f mac xid later o m).0 ≡ m)
  unfolding offer
  offer-none mac xid later t (some lease) m h = absurd (ground arith)
  offer-none mac xid later t none m h = turned_away mac xid later t (get_next_available_ip f m) m h

  -- When a DISCOVER to a pool whose books are right is answered without an address, each address between
  -- the two bounds is leased to some client.
  pub handle_discover_exhausted :
      (mac : String) (xid : ℕ) (now later : F) (m : IpManager f) (t a b i : ℕ)
      → IsConsistent f m
      → ip_to_int m.start_ip ≡ ok a
      → ip_to_int m.end_ip ≡ ok b
      → (handle_discover f mac xid now later m).1 ≡ ok (none, t)
      → a ≤ i
      → i ≤ b
      → let m' = (handle_discover f mac xid now later m).0 in
        (holder : String) × (l : Lease f) × (lookup holder m'.leased_ips ≡ some l)
        × (l.ip ≡ int_to_ip i)
  unfolding handle_discover
  handle_discover_exhausted mac xid now later m t a b i h start end refused low high =
      let m' = cleanup_expired_leases f now m in
      let bounds : (m'.start_ip ≡ m.start_ip) × (m'.end_ip ≡ m.end_ip) =
        unfold cleanup_expired_leases in release_all_bounds (expired_macs f now m.leased_ips) m in
      let (found, same) = offer-none mac xid later t (lookup mac m'.leased_ips) m' refused in
      let taken = search_none m' a b (rw bounds.0 start) (rw bounds.1 end) found i low high in
      rw same ((cleanup_expired_leases-IsConsistent f now m h).used (int_to_ip i) taken)

-- ===== src/Dhcp/Expiry.antt =====
-- The cleanup removes exactly the leases that have expired.
use rudp_agent_stack.Base.{
  ◌≡◌, refl, ap, ◌∙◌, String, Bool, true, false, not, Option, none, some, List, [], ◌∷◌, arith, inl,
  inr, Bool-cases, if◌then◌else◌, string_eq,
}
use rudp_agent_stack.Base.Dict.{Dict, lookup, IsDistinct, lookup-remove, filter_option}
use rudp_agent_stack.Rudp.Float.{Float}
use rudp_agent_stack.Dhcp.{
  Lease, IpManager, is_expired, expired_macs, release, release_all, cleanup_expired_leases,
}

abbrev listed : String → List String → Bool
listed k [] = false
listed k (mac ∷ rest) = if string_eq.beq mac k then true else listed k rest

module _ (f : Float) where
  open f use {F}

  abbrev has_expired : F → Option (Lease f) → Bool
  has_expired now none = false
  has_expired now (some lease) = is_expired f now lease

  lookup-release :
      (k mac : String) (o : Option (Lease f)) (m : IpManager f)
      → lookup mac m.leased_ips ≡ o
      → lookup k (release f mac o m).leased_ips
        ≡ (if string_eq.beq mac k then none else lookup k m.leased_ips)
  unfolding release
  lookup-release k mac none m e = ground (arith, string_eq.beq_iff mac k)
  lookup-release k mac (some lease) m e = lookup-remove mac k m.leased_ips

  lookup-release_all :
      (k : String) (macs : List String) (m : IpManager f)
      → lookup k (release_all f macs m).leased_ips
        ≡ (if listed k macs then none else lookup k m.leased_ips)
  unfolding release_all
  lookup-release_all k [] m = refl
  lookup-release_all k (mac ∷ rest) m =
      lookup-release_all k rest _
      ∙ ground (arith, lookup-release k mac (lookup mac m.leased_ips) m refl)

  listed-expired_macs :
      (now : F) (k : String) (d : Dict String (Lease f))
      → IsDistinct d
      → listed k (expired_macs f now d) ≡ has_expired now (lookup k d)
  unfolding lookup expired_macs
  listed-expired_macs now k [] h = refl
  listed-expired_macs now k ((mac, lease) ∷ d) h =
      ground (arith, listed-expired_macs now k d h.1, h.0, string_eq.beq_iff mac k)

  keep_unexpired :
      (now : F) (o : Option (Lease f))
      → (if has_expired now o then none else o) ≡ filter_option (λ l. not (is_expired f now l)) o
  keep_unexpired now none = refl
  keep_unexpired now (some lease) = elim (Bool-cases (is_expired f now lease)) [
    | inl e ↦ rw e refl
    | inr e ↦ rw e refl
  ]

  -- When no client has two leases, the cleanup leaves each client its lease if that has not expired yet,
  -- and no lease otherwise.
  pub lookup-cleanup_expired_leases :
      (now : F) (mac : String) (m : IpManager f)
      → IsDistinct m.leased_ips
      → lookup mac (cleanup_expired_leases f now m).leased_ips
        ≡ filter_option (λ l. not (is_expired f now l)) (lookup mac m.leased_ips)
  unfolding cleanup_expired_leases
  lookup-cleanup_expired_leases now mac m h =
      lookup-release_all mac (expired_macs f now m.leased_ips) m
      ∙ ap (λ b. if b then none else lookup mac m.leased_ips)
          (listed-expired_macs now mac m.leased_ips h)
      ∙ keep_unexpired now (lookup mac m.leased_ips)

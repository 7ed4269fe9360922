-- ===== src/Dhcp/Leases.antt =====
-- No address is leased twice, and none is lost: the books of the pool survive every call.
use rudp_agent_stack.Base.{
  ◌⊎◌, ◌≡◌, refl, sym, ap, ◌∙◌, subst, String, true, false, Option, none, some, List, [], ◌∷◌,
  arith, inl, inr, Bool-cases, nat_eq, string_eq,
}
use rudp_agent_stack.Base.Dict.{
  Dict, lookup, contains, insert, remove, IsDistinct, lookup-insert, lookup-remove,
  insert-IsDistinct, remove-IsDistinct,
}
use rudp_agent_stack.Rudp.Float.{Float}
use rudp_agent_stack.Dhcp.{
  Lease, IpManager, init, Set, release, release_all, expired_macs, cleanup_expired_leases,
}

module _ (f : Float) where
  open f use {F}

  -- Every lease's address is allocated, no two clients have the same one, and every allocated address is
  -- some client's.
  pub record IsConsistent (m : IpManager f) : Type 0 where
    pub distinct : IsDistinct m.leased_ips
    pub held :
        (mac : String) (l : Lease f)
        → lookup mac m.leased_ips ≡ some l
        → contains l.ip m.allocated_ips ≡ true
    pub unique :
        (a b : String) (k l : Lease f)
        → lookup a m.leased_ips ≡ some k
        → lookup b m.leased_ips ≡ some l
        → k.ip ≡ l.ip
        → a ≡ b
    pub used :
        (ip : String)
        → contains ip m.allocated_ips ≡ true
        → (mac : String) × (l : Lease f) × (lookup mac m.leased_ips ≡ some l) × (l.ip ≡ ip)

  pub init-IsConsistent : (start end : String) → IsConsistent (init f start end)
  unfolding lookup
  init-IsConsistent start end = record {
    distinct = tt;
    held = λ mac l h. absurd (ground arith);
    unique = λ a b k l h. absurd (ground arith);
    used = λ ip h. absurd (ground arith);
  }

  still_leased :
      (mac a : String) (k : Lease f) (d : Dict String (Lease f))
      → lookup a (remove mac d) ≡ some k
      → (string_eq.beq mac a ≡ false) × (lookup a d ≡ some k)
  still_leased mac a k d h = ground (arith, lookup-remove mac a d)

  still_allocated :
      (ip a : String) (d : Set)
      → contains a (remove ip d) ≡ true
      → (string_eq.beq ip a ≡ false) × (contains a d ≡ true)
  still_allocated ip a d h = ground (arith, lookup-remove ip a d)

  release-IsConsistent :
      (mac : String) (o : Option (Lease f)) (m : IpManager f)
      → lookup mac m.leased_ips ≡ o
      → IsConsistent m
      → IsConsistent (release f mac o m)
  unfolding release
  release-IsConsistent mac none m e h = h
  release-IsConsistent mac (some lease) m e h = record {
    distinct = remove-IsDistinct mac m.leased_ips h.distinct;
    held = λ a k here.
        let (other, before) = still_leased mac a k m.leased_ips here in
        ground (
          arith,
          lookup-remove lease.ip k.ip m.allocated_ips,
          h.held a k before,
          h.unique mac a lease k e before,
          (string_eq.beq_iff lease.ip k.ip),
          (string_eq.beq_iff mac a),
        );
    unique = λ a b k l ha hb.
        h.unique a b k l (still_leased mac a k m.leased_ips ha).1
          (still_leased mac b l m.leased_ips hb).1;
    used = λ ip here.
        let (other, before) = still_allocated lease.ip ip m.allocated_ips here in
        let (a, l, found, same) = h.used ip before in
        elim (Bool-cases (string_eq.beq mac a)) [
          | inl mine ↦
              let leased : some l ≡ some lease =
                sym found
                ∙ ap (λ b. lookup b m.leased_ips) (sym ((string_eq.beq_iff mac a).0 mine))
                ∙ e in
              absurd (ground (arith, string_eq.beq_iff lease.ip ip))
          | inr not_mine ↦ (a, l, ground (arith, lookup-remove mac a m.leased_ips), same)
        ];
  }

  release_all-IsConsistent :
      (macs : List String) (m : IpManager f) → IsConsistent m → IsConsistent (release_all f macs m)
  unfolding release_all
  release_all-IsConsistent [] m h = h
  release_all-IsConsistent (mac ∷ rest) m h =
      release_all-IsConsistent rest _ (release-IsConsistent mac (lookup mac m.leased_ips) m refl h)

  pub cleanup_expired_leases-IsConsistent :
      (now : F) (m : IpManager f) → IsConsistent m → IsConsistent (cleanup_expired_leases f now m)
  unfolding cleanup_expired_leases
  cleanup_expired_leases-IsConsistent now m h =
      release_all-IsConsistent (expired_macs f now m.leased_ips) m h

  -- The entry that a dictionary has after an insertion is the new one or an old one.
  inserted :
      (mac a : String) (l k : Lease f) (d : Dict String (Lease f))
      → lookup a (insert mac l d) ≡ some k
      → ((mac ≡ a) × (l ≡ k)) ⊎ ((string_eq.beq mac a ≡ false) × (lookup a d ≡ some k))
  inserted mac a l k d h = elim (Bool-cases (string_eq.beq mac a)) [
    | inl same ↦ inl ((string_eq.beq_iff mac a).0 same, ground (arith, lookup-insert mac a l d))
    | inr other ↦ inr (other, ground (arith, lookup-insert mac a l d))
  ]

  pub renew-IsConsistent :
      (mac : String) (old lease : Lease f) (m : IpManager f)
      → lookup mac m.leased_ips ≡ some old
      → lease.ip ≡ old.ip
      → IsConsistent m
      → IsConsistent (record m { leased_ips = insert mac lease m.leased_ips })
  renew-IsConsistent mac old lease m e same h =
      let before : (a : String) (k : Lease f)
          → lookup a (insert mac lease m.leased_ips) ≡ some k
          → (l : Lease f) × (lookup a m.leased_ips ≡ some l) × (l.ip ≡ k.ip) =
        λ a k here. elim (inserted mac a lease k m.leased_ips here) [
          | inl (mine, new) ↦ (
            old,
            subst (λ b. lookup b m.leased_ips ≡ some old) mine e,
            sym same ∙ ap (λ (l : Lease f). l.ip) new,
          )
          | inr (_, there) ↦ (k, there, refl)
        ] in
      record {
        distinct = insert-IsDistinct mac lease m.leased_ips h.distinct;
        held = λ a k here.
            let (l, there, ip) = before a k here in
            subst (λ i. contains i m.allocated_ips ≡ true) ip (h.held a l there);
        unique = λ a b k l ha hb e'.
            let (k', ka, ki) = before a k ha in
            let (l', lb, li) = before b l hb in h.unique a b k' l' ka lb (ki ∙ e' ∙ sym li);
        used = λ ip here.
            let (a, l, found, own) = h.used ip here in
            elim (Bool-cases (string_eq.beq mac a)) [
              | inl mine ↦
                  let there : some old ≡ some l =
                    sym e
                    ∙ ap (λ b. lookup b m.leased_ips) ((string_eq.beq_iff mac a).0 mine)
                    ∙ found in
                  (
                    mac,
                    lease,
                    ground (
                      arith,
                      lookup-insert mac mac lease m.leased_ips,
                      string_eq.beq_iff mac mac,
                    ),
                    same ∙ ground arith,
                  )
              | inr other ↦ (a, l, ground (arith, lookup-insert mac a lease m.leased_ips), own)
            ];
      }

  pub grant-IsConsistent :
      (mac : String) (lease : Lease f) (m : IpManager f)
      → lookup mac m.leased_ips ≡ none
      → contains lease.ip m.allocated_ips ≡ false
      → IsConsistent m
      → IsConsistent (record m {
        allocated_ips = insert lease.ip tt m.allocated_ips;
        leased_ips = insert mac lease m.leased_ips;
      })
  grant-IsConsistent mac lease m e free h = record {
    distinct = insert-IsDistinct mac lease m.leased_ips h.distinct;
    held = λ a k here. elim (inserted mac a lease k m.leased_ips here) [
      | inl (mine, new) ↦ ground (
        arith,
        lookup-insert lease.ip k.ip tt m.allocated_ips,
        string_eq.beq_iff lease.ip k.ip,
        ap (λ (l : Lease f). l.ip) new,
      )
      | inr (_, there) ↦
          ground (arith, lookup-insert lease.ip k.ip tt m.allocated_ips, h.held a k there)
    ];
    unique = λ a b k l ha hb same. elim (inserted mac a lease k m.leased_ips ha) [
      | inl (mine, new) ↦ elim (inserted mac b lease l m.leased_ips hb) [
        | inl (mine', new') ↦ sym mine ∙ mine'
        | inr (_, there) ↦ absurd (
            ground (
              arith,
              h.held b l there,
              subst (λ i. contains i m.allocated_ips ≡ false)
                  (ap (λ (l : Lease f). l.ip) new ∙ same) free,
            ))
      ]
      | inr (_, here) ↦ elim (inserted mac b lease l m.leased_ips hb) [
        | inl (mine', new') ↦ absurd (
            ground (
              arith,
              h.held a k here,
              subst (λ i. contains i m.allocated_ips ≡ false)
                  (ap (λ (l : Lease f). l.ip) new' ∙ sym same) free,
            ))
        | inr (_, there) ↦ h.unique a b k l here there same
      ]
    ];
    used = λ ip here. elim (Bool-cases (string_eq.beq lease.ip ip)) [
      | inl new ↦ (
        mac,
        lease,
        ground (arith, lookup-insert mac mac lease m.leased_ips, string_eq.beq_iff mac mac),
        (string_eq.beq_iff lease.ip ip).0 new,
      )
      | inr old ↦
          let (a, l, found, own) =
            h.used ip (ground (arith, lookup-insert lease.ip ip tt m.allocated_ips)) in
          elim (Bool-cases (string_eq.beq mac a)) [
            | inl mine ↦ absurd (ground (arith, string_eq.beq_iff mac a, e, found))
            | inr other ↦ (a, l, ground (arith, lookup-insert mac a lease m.leased_ips), own)
          ]
    ];
  }

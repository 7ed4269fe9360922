-- ===== src/Dns/Expiry.antt =====
-- What the DNS cache answers, against the history of its calls.
use rudp_agent_stack.Base.{
  ℕ, String, ◌≡◌, refl, sym, ap, ◌∙◌, true, not, Option, none, some, List, [], ◌∷◌, if◌then◌else◌,
  inl, inr, Bool-cases, All, string_eq,
}
use rudp_agent_stack.Base.Dict.{lookup, filter_option, lookup-insert, lookup-remove}
use rudp_agent_stack.Rudp.Float.{Float}
use rudp_agent_stack.Dns.{CacheRecord, DnsCache, set, new_cache, has_expired, found_record, get_ip}

module _ (f : Float) where
  open f use {F, of_nat, add, lt, le}

  -- The order law of the clock: what lies before a time lies before each later one.
  abbrev pub KeepsOrder : Type 0
  KeepsOrder = (x t now : F) → lt x t ≡ true → le t now ≡ true → lt x now ≡ true

  pub data Query : Type 0 where
    get_at : String → F → Query
    set_at : String → String → ℕ → F → Query

  abbrev pub time_of : Query → F
  time_of (get_at name now) = now
  time_of (set_at name ip_ ttl now) = now

  pub answer : Query → DnsCache f → DnsCache f
  answer (get_at name now) c = (get_ip f name now c).0
  answer (set_at name ip_ ttl now) c = set f name ip_ ttl now c

  unfoldable pub answer_all : List Query → DnsCache f → DnsCache f
  unfolding answer
  answer_all [] c = c
  answer_all (q ∷ rest) c = answer_all rest (answer q c)

  -- The record that was set last for a name, `before` being the one of earlier.
  abbrev pub latest : String → Option (CacheRecord f) → Query → Option (CacheRecord f)
  latest name before (get_at n t) = before
  latest name before (set_at n ip_ ttl t) =
      if string_eq.beq n name
      then some (record { ip = ip_; expires_at = add t (of_nat ttl) })
      else before

  abbrev pub last_set : String → Option (CacheRecord f) → List Query → Option (CacheRecord f)
  last_set name before [] = before
  last_set name before (q ∷ rest) = last_set name (latest name before q) rest

  abbrev pub unexpired : F → Option (CacheRecord f) → Option (CacheRecord f)
  unexpired now = filter_option (λ r. not (has_expired f now r))

  abbrev pub ip_of : Option (CacheRecord f) → Option String
  ip_of none = none
  ip_of (some r) = some r.ip

  get-unexpired :
      (name n : String) (t now : F) (order : KeepsOrder) (o : Option (CacheRecord f))
      (c : DnsCache f)
      → lookup n c.cache ≡ o
      → le t now ≡ true
      → unexpired now (lookup name (found_record f n t o c).0.cache)
        ≡ unexpired now (lookup name c.cache)
  get-unexpired name n t now order none c e earlier = refl
  get-unexpired name n t now order (some r) c e earlier = elim (Bool-cases (has_expired f t r)) [
    | inr kept ↦ rw kept refl
    | inl old ↦ rw old (
        ap (unexpired now) (lookup-remove n name c.cache)
        ∙ elim (Bool-cases (string_eq.beq n name)) [
          | inl mine ↦
              let there : lookup name c.cache ≡ some r =
                ap (λ j. lookup j c.cache) (sym ((string_eq.beq_iff n name).0 mine)) ∙ e in
              rw (mine, there, order r.expires_at t now old earlier) refl
          | inr other ↦ rw other refl
        ])
  ]

  answer-unexpired :
      (name : String) (now : F) (order : KeepsOrder) (q : Query) (past : Option (CacheRecord f))
      (c : DnsCache f)
      → le (time_of q) now ≡ true
      → unexpired now (lookup name c.cache) ≡ unexpired now past
      → unexpired now (lookup name (answer q c).cache) ≡ unexpired now (latest name past q)
  unfolding answer get_ip set
  answer-unexpired name now order (get_at n t) past c earlier h =
      get-unexpired name n t now order (lookup n c.cache) c refl earlier ∙ h
  answer-unexpired name now order (set_at n ip_ ttl t) past c earlier h =
      ap (unexpired now) (lookup-insert n name _ c.cache)
      ∙ elim (Bool-cases (string_eq.beq n name)) [
        | inl mine ↦ rw mine refl
        | inr other ↦ rw other h
      ]

  answer_all-unexpired :
      (name : String) (now : F) (order : KeepsOrder) (qs : List Query)
      (past : Option (CacheRecord f)) (c : DnsCache f)
      → All (λ q. le (time_of q) now ≡ true) qs
      → unexpired now (lookup name c.cache) ≡ unexpired now past
      → unexpired now (lookup name (answer_all qs c).cache) ≡ unexpired now (last_set name past qs)
  unfolding answer_all
  answer_all-unexpired name now order [] past c earlier h = h
  answer_all-unexpired name now order (q ∷ rest) past c earlier h =
      answer_all-unexpired name now order rest _ _ earlier.1
        (answer-unexpired name now order q past c earlier.0 h)

  found_ip :
      (name : String) (now : F) (o : Option (CacheRecord f)) (c : DnsCache f)
      → (found_record f name now o c).1 ≡ ip_of (unexpired now o)
  found_ip name now none c = refl
  found_ip name now (some r) c = elim (Bool-cases (has_expired f now r)) [
    | inl e ↦ rw e refl
    | inr e ↦ rw e refl
  ]

  lookup-new_cache :
      (start : F) (name : String)
      → lookup name (new_cache f start).cache
        ≡ latest name none (set_at "agent.local" "127.0.0.1" 300 start)
  unfolding new_cache set lookup
  lookup-new_cache start name = lookup-insert "agent.local" name _ []

  -- Whatever lookups and settings the cache of a server goes through from its start up to a time, a
  -- lookup at that time gives the address that was set last for the name if that has not expired, and
  -- nothing otherwise; before any setting the agent's name has the address of the start. The clock is
  -- such that what lies before a time lies before each later one.
  pub get_ip-answer_all :
      (order : KeepsOrder) (start : F) (qs : List Query) (name : String) (now : F)
      → All (λ q. le (time_of q) now ≡ true) qs
      → (get_ip f name now (answer_all qs (new_cache f start))).1
        ≡ ip_of
            (unexpired now (last_set name none (set_at "agent.local" "127.0.0.1" 300 start ∷ qs)))
  unfolding get_ip
  get_ip-answer_all order start qs name now earlier =
      let c = answer_all qs (new_cache f start) in
      found_ip name now (lookup name c.cache) c
      ∙ ap ip_of (
          answer_all-unexpired name now order qs
            (latest name none (set_at "agent.local" "127.0.0.1" 300 start)) (new_cache f start)
            earlier (ap (unexpired now) (lookup-new_cache start name)))

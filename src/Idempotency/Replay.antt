-- ===== src/Idempotency/Replay.antt =====
-- What the cache replays, against the history of the calls.
use rudp_agent_stack.Base.{
  ◌≡◌, refl, sym, ap, ◌∙◌, true, false, not, Option, none, some, List, [], ◌∷◌, if◌then◌else◌, inl,
  inr, Bool-cases, All,
}
use rudp_agent_stack.Base.Cleanup.{keys_if, remove_keys, lookup-remove_keys-keys_if}
use rudp_agent_stack.Base.Dict.{
  Dict, lookup, remove, IsDistinct, filter_option, lookup-insert, lookup-remove, insert-IsDistinct,
  remove-IsDistinct,
}
use rudp_agent_stack.Bytes.{Bytes}
use rudp_agent_stack.Rudp.Float.{Float}
use rudp_agent_stack.Idempotency.{
  Key, key_eq, CachedResponse, IdempotencyCache, is_fresh, is_stale, found_response, get_response,
  store_response, cleanup,
}

module _ (f : Float) where
  open f use {F, of_nat, sub, lt, le}

  -- Time goes on: an answer that has expired at one time has expired at a later one.
  pub record KeepsTime : Type 0 where
    pub not_fresh :
        (t now : F) (entry : CachedResponse f)
        → le t now ≡ true
        → is_fresh f t entry ≡ false
        → is_fresh f now entry ≡ false
    pub stale :
        (t now : F) (entry : CachedResponse f)
        → le t now ≡ true
        → is_stale f t entry ≡ true
        → is_fresh f now entry ≡ false

  pub data Call : Type 0 where
    get : Key → F → Call
    store : Key → Bytes → F → Call
    clean : F → Call

  abbrev pub time_of : Call → F
  time_of (get key now) = now
  time_of (store key data_ now) = now
  time_of (clean now) = now

  pub perform : Call → IdempotencyCache f → IdempotencyCache f
  perform (get key now) c = (get_response f key now c).0
  perform (store key data_ now) c = store_response f key data_ now c
  perform (clean now) c = cleanup f now c

  unfoldable pub perform_all : List Call → IdempotencyCache f → IdempotencyCache f
  unfolding perform
  perform_all [] c = c
  perform_all (call ∷ rest) c = perform_all rest (perform call c)

  -- The answer that was stored last for a key, `before` being the one stored earlier.
  abbrev pub stored : Key → Option (CachedResponse f) → Call → Option (CachedResponse f)
  stored key before (store k data_ now) =
      if key_eq.beq k key then some (record { response_data = data_; timestamp = now }) else before
  stored key before (get k now) = before
  stored key before (clean now) = before

  abbrev pub last_stored : Key → Option (CachedResponse f) → List Call → Option (CachedResponse f)
  last_stored key before [] = before
  last_stored key before (call ∷ rest) = last_stored key (stored key before call) rest

  abbrev pub live : F → Option (CachedResponse f) → Option (CachedResponse f)
  live now = filter_option (is_fresh f now)

  abbrev pub data_of : Option (CachedResponse f) → Option Bytes
  data_of none = none
  data_of (some entry) = some entry.response_data

  record Agrees (key : Key) (now : F) (past : Option (CachedResponse f)) (c : IdempotencyCache f)
      : Type 0 where
    distinct : IsDistinct c.cache
    same : live now (lookup key c.cache) ≡ live now past

  live_twice :
      (t now : F) (laws : KeepsTime) (o : Option (CachedResponse f))
      → le t now ≡ true
      → live now (filter_option (λ e. not (is_stale f t e)) o) ≡ live now o
  live_twice t now laws none past = refl
  live_twice t now laws (some entry) past = elim (Bool-cases (is_stale f t entry)) [
    | inl old ↦ rw (old, laws.stale t now entry past old) refl
    | inr new ↦ rw new refl
  ]

  get-Agrees :
      (key k : Key) (t now : F) (laws : KeepsTime) (past : Option (CachedResponse f))
      (o : Option (CachedResponse f)) (c : IdempotencyCache f)
      → lookup k c.cache ≡ o
      → le t now ≡ true
      → Agrees key now past c
      → Agrees key now past (found_response f k t o c).0
  get-Agrees key k t now laws past none c e earlier h = h
  get-Agrees key k t now laws past (some entry) c e earlier h =
      elim (Bool-cases (is_fresh f t entry)) [
        | inl fresh ↦ rw fresh h
        | inr expired ↦ rw expired (record {
          distinct = remove-IsDistinct k c.cache h.distinct;
          same =
              ap (live now) (lookup-remove k key c.cache) ∙ elim (Bool-cases (key_eq.beq k key)) [
                | inl mine ↦
                    let there : lookup key c.cache ≡ some entry =
                      ap (λ j. lookup j c.cache) (sym ((key_eq.beq_iff k key).0 mine)) ∙ e in
                    rw mine (
                      sym (
                        sym h.same
                        ∙ ap (live now) there
                        ∙ rw (laws.not_fresh t now entry earlier expired) refl))
                | inr other ↦ rw other h.same
              ];
        })
      ]

  remove_keys-IsDistinct :
      (ks : List Key) (d : Dict Key (CachedResponse f))
      → IsDistinct d
      → IsDistinct (remove_keys ks d)
  unfolding remove_keys
  remove_keys-IsDistinct [] d h = h
  remove_keys-IsDistinct (k ∷ ks) d h =
      remove_keys-IsDistinct ks (remove k d) (remove-IsDistinct k d h)

  perform-Agrees :
      (key : Key) (now : F) (laws : KeepsTime) (call : Call) (past : Option (CachedResponse f))
      (c : IdempotencyCache f)
      → le (time_of call) now ≡ true
      → Agrees key now past c
      → Agrees key now (stored key past call) (perform call c)
  unfolding perform get_response store_response cleanup
  perform-Agrees key now laws (get k t) past c earlier h =
      get-Agrees key k t now laws past (lookup k c.cache) c refl earlier h
  perform-Agrees key now laws (store k data_ t) past c earlier h =
      let entry : CachedResponse f = record { response_data = data_; timestamp = t } in
      record {
        distinct = insert-IsDistinct k entry c.cache h.distinct;
        same =
            ap (live now) (lookup-insert k key entry c.cache)
            ∙ elim (Bool-cases (key_eq.beq k key)) [
              | inl mine ↦ rw mine refl
              | inr other ↦ rw other h.same
            ];
      }
  perform-Agrees key now laws (clean t) past c earlier h = record {
    distinct = remove_keys-IsDistinct (keys_if (is_stale f t) c.cache) c.cache h.distinct;
    same =
        ap (live now) (lookup-remove_keys-keys_if (is_stale f t) key c.cache h.distinct)
        ∙ live_twice t now laws (lookup key c.cache) earlier
        ∙ h.same;
  }

  perform_all-Agrees :
      (key : Key) (now : F) (laws : KeepsTime) (calls : List Call)
      (past : Option (CachedResponse f)) (c : IdempotencyCache f)
      → All (λ call. le (time_of call) now ≡ true) calls
      → Agrees key now past c
      → Agrees key now (last_stored key past calls) (perform_all calls c)
  unfolding perform_all
  perform_all-Agrees key now laws [] past c earlier h = h
  perform_all-Agrees key now laws (call ∷ rest) past c earlier h =
      perform_all-Agrees key now laws rest _ _ earlier.1
        (perform-Agrees key now laws call past c earlier.0 h)

  found_data :
      (key : Key) (now : F) (o : Option (CachedResponse f)) (c : IdempotencyCache f)
      → (found_response f key now o c).1 ≡ data_of (live now o)
  found_data key now none c = refl
  found_data key now (some entry) c = elim (Bool-cases (is_fresh f now entry)) [
    | inl e ↦ rw e refl
    | inr e ↦ rw e refl
  ]

  -- Whatever lookups, stores and cleanups a new cache goes through up to a time, a lookup at that time
  -- gives the answer that was stored last for the key if it has not expired, and nothing otherwise. The
  -- clock is such that what has expired stays expired.
  pub get_response-perform_all :
      (laws : KeepsTime) (calls : List Call) (key : Key) (now : F)
      → All (λ call. le (time_of call) now ≡ true) calls
      → (get_response f key now (perform_all calls (record { cache = [] }))).1
        ≡ data_of (live now (last_stored key none calls))
  unfolding get_response
  get_response-perform_all laws calls key now earlier =
      let c = perform_all calls (record { cache = [] }) in
      let h =
        perform_all-Agrees key now laws calls none (record { cache = [] }) earlier
          (record { distinct = tt; same = unfold lookup in refl }) in
      found_data key now (lookup key c.cache) c ∙ ap data_of h.same

-- ===== src/Idempotency.antt =====
-- server/agent/idempotency.py: the answers that are replayed to repeated requests.
pub mod Replay
mod Tests
use rudp_agent_stack.Base.{
  ℕ, ◌≡◌, ◌↔◌, ap, ap₂, String, Bool, true, false, ◌&&◌, Option, none, some, List, [], ◌∷◌, ◌==◌,
  if◌then◌else◌, nat_eq, string_eq, Eq, arith, ==_iff,
}
use rudp_agent_stack.Base.Cleanup.{keys_if, remove_keys}
use rudp_agent_stack.Base.Dict.{Dict, lookup, insert, remove}
use rudp_agent_stack.Bytes.{Bytes}
use rudp_agent_stack.Rudp.Float.{Float}

-- (client_id, request_id, opcode)
abbrev pub Key : Type 0
Key = String × (ℕ × ℕ)

abbrev pub same_key : Key → Key → Bool
same_key (c, (r, o)) (c', (r', o')) = string_eq.beq c c' && ((r == r') && (o == o'))

pub same_key_iff : (a b : Key) → (same_key a b ≡ true) ↔ (a ≡ b)
same_key_iff (c, (r, o)) (c', (r', o')) = ground (arith, string_eq.beq_iff c c')

instance abbrev pub key_eq : Eq Key
key_eq = record { beq = same_key; beq_iff = same_key_iff }

-- IDEMPOTENCY_TTL, in seconds
abbrev pub idempotency_ttl : ℕ
idempotency_ttl = 120

module _ (f : Float) where
  open f use {F, of_nat, sub, lt, le}

  pub record CachedResponse : Type 0 where
    pub response_data : Bytes
    pub timestamp : F

  pub record IdempotencyCache : Type 0 where
    pub cache : Dict Key CachedResponse

  abbrev pub is_fresh : F → CachedResponse → Bool
  is_fresh now entry = lt (sub now entry.timestamp) (of_nat idempotency_ttl)

  abbrev pub found_response :
      Key → F → Option CachedResponse → IdempotencyCache → IdempotencyCache × Option Bytes
  found_response key now none c = (c, none)
  found_response key now (some entry) c =
      if is_fresh now entry
      then (c, some entry.response_data)
      else (record { cache = remove key c.cache }, none)

  unfoldable pub get_response : Key → F → IdempotencyCache → IdempotencyCache × Option Bytes
  get_response key now c = found_response key now (lookup key c.cache) c

  unfoldable pub store_response : Key → Bytes → F → IdempotencyCache → IdempotencyCache
  store_response key data_ now c = record {
    cache = insert key (record { response_data = data_; timestamp = now }) c.cache;
  }

  abbrev pub is_stale : F → CachedResponse → Bool
  is_stale now entry = le (of_nat idempotency_ttl) (sub now entry.timestamp)

  unfoldable pub cleanup : F → IdempotencyCache → IdempotencyCache
  cleanup now c = record { cache = remove_keys (keys_if (is_stale now) c.cache) c.cache }

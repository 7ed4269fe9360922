-- ===== src/Dns.antt =====
-- server/dns/dns_cache.py: the addresses that the DNS server answers with.
pub mod Expiry
pub mod Http
pub mod Server
pub mod Resolve
pub mod Resolution
mod Tests
mod ResolveTests
use rudp_agent_stack.Base.{ℕ, String, Bool, Option, none, some, List, [], if◌then◌else◌, string_eq}
use rudp_agent_stack.Base.Dict.{Dict, lookup, insert, remove}
use rudp_agent_stack.Rudp.Float.{Float}

module _ (f : Float) where
  open f use {F, of_nat, add, lt}

  -- (ip, expires_at)
  pub record CacheRecord : Type 0 where
    pub ip : String
    pub expires_at : F

  pub record DnsCache : Type 0 where
    pub cache : Dict String CacheRecord

  unfoldable pub set : String → String → ℕ → F → DnsCache → DnsCache
  set name ip_ ttl now c = record {
    cache = insert name (record { ip = ip_; expires_at = add now (of_nat ttl) }) c.cache;
  }

  -- The cache of a server that starts at a time, with the record of the agent.
  unfoldable pub new_cache : F → DnsCache
  new_cache now = set "agent.local" "127.0.0.1" 300 now (record { cache = [] })

  abbrev pub has_expired : F → CacheRecord → Bool
  has_expired now r = lt r.expires_at now

  abbrev pub found_record : String → F → Option CacheRecord → DnsCache → DnsCache × Option String
  found_record name now none c = (c, none)
  found_record name now (some r) c =
      if has_expired now r then (record { cache = remove name c.cache }, none) else (c, some r.ip)

  unfoldable pub get_ip : String → F → DnsCache → DnsCache × Option String
  get_ip name now c = found_record name now (lookup name c.cache) c

-- ===== src/Dhcp.antt =====
-- server/dhcp/ip_manager.py: the pool of addresses of the DHCP server. A method that reads the clock
-- takes what the clock says: `now` where the expired leases are removed, `later` where a lease is
-- renewed behind that.
pub mod Pool
pub mod Leases
pub mod Expiry
pub mod Answers
pub mod Handshake
pub mod Exhaustion
pub mod Packet
pub mod Server
pub mod Granted
pub mod Client
pub mod Acquire
pub mod Agreement
pub mod Sending
mod Tests
mod AcquireTests
use Prim.Native.Char.{Char, code}
use Prim.Native.String
use rudp_agent_stack.Base.{
  ℕ, zero, suc, ◌+◌, ◌-◌, ◌*◌, ◌/◌, ◌%◌, String, Bool, true, false, ◌&&◌, not, Option, none, some,
  List, [], ◌∷◌, ok, err, ◌>>=◌, ltb, leb, ◌==◌, if◌then◌else◌, nat_eq, string_eq, Eq,
}
use rudp_agent_stack.Base.Dict.{Dict, lookup, contains, insert, remove}
use rudp_agent_stack.Constants.{dhcp_default_lease_time}
use rudp_agent_stack.Exceptions.{Py, value_error, malformed_address}
use rudp_agent_stack.Rudp.Float.{Float}

pub data LeaseState : Type 0 where
  selecting bound : LeaseState

abbrev pub is_bound : LeaseState → Bool
is_bound selecting = false
is_bound bound = true

abbrev not_equal : String → String → Bool
not_equal a b = not (string_eq.beq a b)

abbrev cons_part : ℕ → Option (List ℕ) → Option (List ℕ)
cons_part n none = none
cons_part n (some rest) = some (n ∷ rest)

-- list(map(int, ip.split('.'))) for parts of decimal digits, the part so far being `n`. For other
-- parts the result is none: the further spellings that `int` takes do not occur in the bounds.
pub parts_from : ℕ → Bool → String → Option (List ℕ)
parts_from n seen String.[] = if seen then some (n ∷ []) else none
parts_from n seen (String.◌∷◌ c s) =
    let next = parts_from 0 false s in
    let more = parts_from (n * 10 + (code c - 48)) true s in
    if (code c == 46) && seen
    then cons_part n next
    else if leb 48 (code c) && leb (code c) 57
    then more
    else none

abbrev number_of : Option (List ℕ) → Py ℕ
number_of (some (a ∷ b ∷ c ∷ d ∷ _)) = ok (a * 16777216 + b * 65536 + c * 256 + d)
number_of _ = err (value_error malformed_address)

pub ip_to_int : String → Py ℕ
unfolding parts_from
ip_to_int ip = number_of (parts_from 0 false ip)

digit : ℕ → String
digit n = String.◌∷◌ (String.char_at "0123456789" n) String.[]

-- A number below 256 in decimal.
octet : ℕ → String
unfolding digit
octet n =
    if ltb n 10
    then digit n
    else if ltb n 100
    then String.◌++◌ (digit (n / 10)) (digit (n % 10))
    else String.◌++◌ (digit (n / 100)) (String.◌++◌ (digit (n / 10 % 10)) (digit (n % 10)))

abbrev dotted : String → String → String
dotted a b = String.◌++◌ a (String.◌++◌ "." b)

pub int_to_ip : ℕ → String
unfolding octet
int_to_ip n =
    dotted (octet (n / 16777216 % 256))
      (dotted (octet (n / 65536 % 256)) (dotted (octet (n / 256 % 256)) (octet (n % 256))))

-- A Python `set` is a dictionary whose values say nothing.
abbrev pub Set : Type 0
Set = Dict String (Unit {0})

-- The loop of `_get_next_available_ip`, from `i` on with `count` addresses left.
pub first_free : ℕ → ℕ → Set → Option String
first_free zero i taken = none
first_free (suc count) i taken =
    let rest = first_free count (i + 1) taken in
    if contains (int_to_ip i) taken then rest else some (int_to_ip i)

module _ (f : Float) where
  open f use {F, of_nat, add, lt}

  pub record Lease : Type 0 where
    pub ip : String
    pub xid : ℕ
    pub expires_at : F
    pub state : LeaseState

  pub record IpManager : Type 0 where
    pub start_ip : String
    pub end_ip : String
    pub leased_ips : Dict String Lease
    pub allocated_ips : Set

  abbrev pub init : String → String → IpManager
  init start_ip end_ip = record {
    start_ip = start_ip;
    end_ip = end_ip;
    leased_ips = [];
    allocated_ips = [];
  }

  pub get_next_available_ip : IpManager → Py (Option String)
  unfolding ip_to_int first_free int_to_ip
  get_next_available_ip m = do
    start ← ip_to_int m.start_ip
    end ← ip_to_int m.end_ip
    ok (first_free (end + 1 - start) start m.allocated_ips)

  abbrev pub is_expired : F → Lease → Bool
  is_expired now lease = lt lease.expires_at now

  pub expired_macs : F → Dict String Lease → List String
  expired_macs now [] = []
  expired_macs now ((mac, lease) ∷ d) =
      let rest = expired_macs now d in if is_expired now lease then mac ∷ rest else rest

  -- One round of the second loop of `cleanup_expired_leases`. Each of the macs has a lease.
  pub release : String → Option Lease → IpManager → IpManager
  release mac none m = m
  release mac (some lease) m = record m {
    allocated_ips = remove lease.ip m.allocated_ips;
    leased_ips = remove mac m.leased_ips;
  }

  pub release_all : List String → IpManager → IpManager
  release_all [] m = m
  release_all (mac ∷ rest) m = release_all rest (release mac (lookup mac m.leased_ips) m)

  unfoldable pub cleanup_expired_leases : F → IpManager → IpManager
  unfolding expired_macs release release_all
  cleanup_expired_leases now m = release_all (expired_macs now m.leased_ips) m

  abbrev pub expiry : F → F
  expiry later = add later (of_nat dhcp_default_lease_time)

  -- What a DISCOVER makes of the lease that the client has.
  abbrev pub reoffer : ℕ → F → Lease → Lease
  reoffer xid later lease =
      if lease.xid == xid
      then record lease { expires_at = expiry later }
      else record lease { xid = xid; state = selecting; expires_at = expiry later }

  abbrev pub allocate : String → ℕ → F → Option String → IpManager → IpManager × (Option String × ℕ)
  allocate mac xid later none m = (m, (none, 0))
  allocate mac xid later (some ip) m = (
    record m {
      allocated_ips = insert ip tt m.allocated_ips;
      leased_ips =
          insert mac (record { ip = ip; xid = xid; expires_at = expiry later; state = selecting })
            m.leased_ips;
    },
    (some ip, dhcp_default_lease_time),
  )

  abbrev pub allocate_new :
      String → ℕ → F → Py (Option String) → IpManager → IpManager × Py (Option String × ℕ)
  allocate_new mac xid later (err e) m = (m, err e)
  allocate_new mac xid later (ok ip) m =
      let (m', answer) = allocate mac xid later ip m in (m', ok answer)

  pub offer : String → ℕ → F → Option Lease → IpManager → IpManager × Py (Option String × ℕ)
  unfolding get_next_available_ip
  offer mac xid later (some lease) m = (
    record m { leased_ips = insert mac (reoffer xid later lease) m.leased_ips },
    ok (some lease.ip, dhcp_default_lease_time),
  )
  offer mac xid later none m = allocate_new mac xid later (get_next_available_ip m) m

  unfoldable pub handle_discover :
      String → ℕ → F → F → IpManager → IpManager × Py (Option String × ℕ)
  unfolding offer cleanup_expired_leases
  handle_discover mac xid now later m =
      let m' = cleanup_expired_leases now m in offer mac xid later (lookup mac m'.leased_ips) m'

  abbrev pub renewed : String → F → Lease → IpManager → IpManager
  renewed mac later lease m = record m {
    leased_ips = insert mac (record lease { expires_at = expiry later }) m.leased_ips;
  }

  pub answer_request : String → ℕ → String → F → Option Lease → IpManager → IpManager × Bool
  answer_request mac xid requested_ip later none m = (m, false)
  answer_request mac xid requested_ip later (some lease) m =
      if not_equal lease.ip requested_ip
      then (m, false)
      else if (lease.xid == xid) && is_bound lease.state
      then (renewed mac later lease m, true)
      else if is_bound lease.state
      then (m, false)
      else (renewed mac later (record lease { xid = xid; state = bound }) m, true)

  unfoldable pub handle_request : String → ℕ → String → F → F → IpManager → IpManager × Bool
  unfolding answer_request cleanup_expired_leases
  handle_request mac xid requested_ip now later m =
      let m' = cleanup_expired_leases now m in
      answer_request mac xid requested_ip later (lookup mac m'.leased_ips) m'

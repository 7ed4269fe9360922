-- ===== src/Dhcp/Packet.antt =====
-- common/dhcp_packet.py: the packets of DHCP and their JSON. A packet is read with the types that the
-- class annotates; JSON with a field of another type is outside the model.
use rudp_agent_stack.Base.{
  ℕ, String, Bool, true, ◌||◌, ◌&&◌, Option, none, some, if◌then◌else◌, string_eq,
}
use rudp_agent_stack.Bytes.{Bytes}
use rudp_agent_stack.Agent.Values.{
  Value, int, text, object, Fields, end_object, field, get, get_or, has, Loaded, loaded, Python,
}

pub record DhcpPacket : Type 0 where
  pub message_type : String
  pub xid : ℕ
  pub client_mac : String
  pub offered_ip : String
  pub lease_time : ℕ

-- asdict(self)
abbrev pub as_dict : DhcpPacket → Value
as_dict p = object (
    field "message_type" (text p.message_type) (
      field "xid" (int p.xid) (
        field "client_mac" (text p.client_mac) (
          field "offered_ip" (text p.offered_ip)
            (field "lease_time" (int p.lease_time) end_object)))))

unfoldable pub to_bytes : Python → DhcpPacket → Bytes
to_bytes py p = py.dumps (as_dict p)

abbrev is_parameter : String → Bool
is_parameter k =
    string_eq.beq k "message_type"
    || (string_eq.beq k "xid"
        || (string_eq.beq k "client_mac"
            || (string_eq.beq k "offered_ip" || string_eq.beq k "lease_time")))

-- No argument but those of the constructor.
abbrev pub all_parameters : Fields → Bool
all_parameters end_object = true
all_parameters (field k v rest) = is_parameter k && all_parameters rest

abbrev build : Value → Value → Value → Value → Value → Option DhcpPacket
build (text message_type) (int xid) (text client_mac) (text offered_ip) (int lease_time) =
    some (record {
      message_type = message_type;
      xid = xid;
      client_mac = client_mac;
      offered_ip = offered_ip;
      lease_time = lease_time;
    })
build _ _ _ _ _ = none

-- cls(**parsed)
unfoldable pub from_fields : Fields → Option DhcpPacket
from_fields d =
    if all_parameters d && (has "message_type" d && (has "xid" d && has "client_mac" d))
    then build (get "message_type" d) (get "xid" d) (get "client_mac" d)
        (get_or "offered_ip" (text "") d) (get_or "lease_time" (int 0) d)
    else none

abbrev of_loaded : Loaded → Option DhcpPacket
of_loaded (loaded (object d)) = from_fields d
of_loaded _ = none

-- The packet, or none where it raises a ValueError.
unfoldable pub from_bytes : Python → Bytes → Option DhcpPacket
unfolding from_fields
from_bytes py data_ = of_loaded (py.loads data_)

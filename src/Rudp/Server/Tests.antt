-- ===== src/Rudp/Server/Tests.antt =====
-- Runs of the server transport, and its theorems at inputs that meet their hypotheses. Addresses are
-- numbers here.
use rudp_agent_stack.Base.{ℕ, ◌≡◌, refl, some, inl, inr, List, [], ◌∷◌, length, take, nat_eq}
use rudp_agent_stack.Base.Dict.{lookup, insert, remove}
use rudp_agent_stack.Rudp.Packet.{pack, unpack, checksum_of, has_data, is_ack, is_fin}
use rudp_agent_stack.Rudp.Receiver.{process_segment}
use rudp_agent_stack.Rudp.Sender.{enqueue_data, try_send}
use rudp_agent_stack.Rudp.Sender.Acknowledge.{on_ack_received, check_timeouts}
use rudp_agent_stack.Rudp.Sender.Run.{run, step, messages_of}
use rudp_agent_stack.Rudp.Connection.{on_packet_received}
use rudp_agent_stack.Rudp.Server.{
  Peer, Server, Input, datagram, message, clock, serve_all, no_connections, peer_of,
}
use rudp_agent_stack.Rudp.Server.Isolation.{concerning, serve_all-concerning}
use rudp_agent_stack.Rudp.Server.Delivery.{server_delivery}
use rudp_agent_stack.Samples.{milli}
use rudp_agent_stack.Rudp.PacketTests.{datagram as hello_datagram}
use rudp_agent_stack.Rudp.Tests.{events, short-CarriesNothing}

-- Two peers: the first one's datagram comes twice, the other's is too short, and the server answers.
abbrev inputs : List (Input milli ℕ)
inputs =
    datagram hello_datagram 1 5
    ∷ datagram (0 ∷ []) 2 6
    ∷ datagram hello_datagram 2 7
    ∷ clock 8
    ∷ message (1 ∷ []) 7 1 9
    ∷ datagram hello_datagram 1 10
    ∷ []

abbrev server : Server milli ℕ
server = serve_all milli ℕ inputs (no_connections milli ℕ)

program : Unit {0}
unfolding serve_all run step enqueue_data on_ack_received check_timeouts try_send process_segment
    on_packet_received has_data is_ack is_fin pack unpack checksum_of lookup insert remove
program = tt

abbrev client : Peer milli
client = peer_of milli (lookup 1 server.connections) 0

client_messages : client.connection.receiver.messages ≡ (104 ∷ 105 ∷ 33 ∷ []) ∷ []
unfolding program
client_messages = refl

two_peers : length server.connections ≡ 2
unfolding program
two_peers = refl

client_found : lookup 1 server.connections ≡ some client
unfolding program
client_found = refl

server_delivery_example :
    (k : ℕ) × (client.connection.receiver.messages ≡ take k (messages_of milli events))
unfolding program
server_delivery_example =
    server_delivery milli ℕ 1 events 64 inputs client
      (
        (λ _. inl (inl refl)),
        (
          (λ _. inr short-CarriesNothing),
          ((λ _. inl (inl refl)), (tt, (tt, ((λ _. inl (inl refl)), tt)))),
        ),
      )
      client_found

serve_all-concerning_example :
    lookup 1 server.connections
    ≡ lookup 1
        (serve_all milli ℕ (concerning milli ℕ 1 inputs) (no_connections milli ℕ)).connections
serve_all-concerning_example =
    serve_all-concerning milli ℕ 1 inputs (no_connections milli ℕ) (no_connections milli ℕ) refl

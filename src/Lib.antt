-- ===== src/Lib.antt =====
-- Verification of the RUDP agent stack: the reliable transport over UDP that the agent's client and
-- server share.
--
-- The program. A client sends requests to an agent server, over TCP or over a reliable transport on
-- UDP. That transport cuts a message into segments (common/rudp_sender.py), packs each one into a
-- datagram with a checksum (common/rudp_packet.py), and puts the segments back in order at the
-- other end (common/rudp_receiver.py), which answers with cumulative acknowledgments and its free
-- window. client/transport/rudp_client.py and server/transport/rudp_server.py join a sender and a
-- receiver to a socket. Beside it stand DHCP and DNS, each with a server
-- and a client, and the agent with its planner and handlers.
--
-- The files, and the code they model:
--   Constants      common/constants.py; the flags and sizes of common/rudp_packet.py
--   Exceptions     the exceptions as values: a call that may raise returns `Py`
--   Bytes          the formats of `struct` that the code uses
--   Rudp.Packet    common/rudp_packet.py: RUDPPacket, calculate_checksum, pack, unpack
--   Rudp.Receiver  common/rudp_receiver.py: RUDPReceiver.process_segment, split into its steps
--   Rudp.Sender    common/rudp_sender.py: RUDPSender with enqueue_data and _try_send, and in the child
--                  module Acknowledge on_ack_received and check_timeouts
--   Rudp.Connection  on_packet_received and the parsing part of _receive_loop of
--                  client/transport/rudp_client.py
--   Rudp.Endpoint  client/transport/rudp_client.py as one end of a conversation: send and the rounds of
--                  _receive_loop, and two ends over a network. Safety holds what is proved of them;
--                  Acknowledging, Invariant, Hearing and Moves hold the proofs
--   Rudp.Server    server/transport/rudp_server.py: RUDPConnection, _handle_datagram, send and
--                  _tick_connections
--   Rudp.Message   what a stream of segments means: the specification between sender and receiver
--   Rudp.Float     the arithmetic of floats as a parameter, with its order laws
--   Dhcp           server/dhcp/ip_manager.py: IPManager, with the expiry, the offers and the answers to
--                  requests in child modules; in Dhcp.Packet common/dhcp_packet.py, in Dhcp.Server
--                  server/dhcp_server.py and in Dhcp.Client client/dhcp_client.py. Granted, Acquire,
--                  Sending and Agreement hold the proofs of what an ACK means and of the handshake
--   Dns            server/dns/dns_cache.py: DNSCache, and in Dns.Expiry the history that it answers from;
--                  in Dns.Http common/http_packet.py, in Dns.Server server/dns_server.py and in
--                  Dns.Resolve client/dns_client.py. Resolution holds the proof of a query and its answer
--   Upload         server/agent/upload_session.py: UploadSessionManager, with the content of the file and
--                  the table of sessions in child modules
--   Idempotency    server/agent/idempotency.py: IdempotencyCache, and in a child module the history that
--                  it answers from
--   Envelope       common/app_envelope.py, and in child modules common/mixed_mode_io.py and the reading of
--                  a message from a TCP stream, in server/transport/tcp_server.py and
--                  server/agent_server.py
--   Agent          the agent of server/agent, with a child module for each of its files: Planner
--                  planner.py; Tools, Loops and Executor tool_dispatcher.py; Handlers the files of
--                  handlers; Dispatcher dispatcher.py; Response response_builder.py and
--                  common/errors.py; Paths validations.py; Server server/agent_server.py. Text, Values
--                  and Disk are what these use of Python's texts, of JSON and of the file system, and
--                  Action is a call that may raise. Frame, Reading, Confined and Guarantees hold the
--                  proofs of what calls and requests leave alone, Writing what a write leaves
--   Client         client/agent_client.py: AgentClient.send_request_spec, in child modules over
--                  client/transport/tcp_client.py and over an asynchronous transport with
--                  _on_message_received; Answered, Repeats and Retries hold the proofs
--   Samples        concrete parameters for the tests
--   Base           Python's lists and dictionaries, tests and results
-- A child module holds the proofs of what its name says, and each module Tests runs the code on inputs.
--
-- How the model reads the code. The state of an object is a record; a method is a function from the
-- state before to the state after. A callback is a list of what it was called with: `messages` for
-- deliver_callback, `wire` for send_callback. `int` is the natural numbers: the code keeps its
-- counters at zero or above, and inflight_bytes, which it decreases, is proved to be the exact sum,
-- so that the difference that stops at zero is the real one. A dictionary is an association list in
-- insertion order. Time is an argument, as in the code. What the network does is the list of
-- datagrams that arrive, so loss, repetition and reordering are the choice of that list; logging is
-- left out. The file system is a dictionary from absolute paths to contents, with the set of its
-- directories; what a request reads from its surroundings (clock, uuid4, working directory) is a record.
--
-- Loops. Those over a list are structural. The search for a free address counts down the pool. The
-- drain of the receiver has the size of its buffer as fuel, and each round takes one segment out;
-- as does the loop over the chunks that an upload buffered; reading from a stream has the number of
-- bytes that are asked for; the carries of the checksum have the sum itself as fuel, which shrinks
-- with each round. What the theorems say of these functions has no condition on fuel.
--
-- Not modelled: sockets, threads and polling, the failure engine, and of the agent's client the handlers,
-- the choice of a handler and the command line. No operation of a packet, a receiver, a sender, the pool of
-- addresses, the table of uploads, the cache of answers, the cache of names, the DHCP server, the planner,
-- the tool dispatcher or the server's handlers is left out. The numbers of a request of the agent and of a
-- DHCP packet are natural numbers; symbolic links, permissions and a full disk are left out, and so is the
-- temporary file of an atomic write, which replaces the file or is removed. Texts are the
-- strings of code points that Python has; JSON, UTF-8, SHA-256 and lower() are parameters, as a record of
-- functions.
mod Base
pub mod Constants
pub mod Exceptions
pub mod Bytes
pub mod Rudp
pub mod Dhcp
pub mod Dns
pub mod Envelope
pub mod Upload
pub mod Idempotency
pub mod Agent
pub mod Samples
pub mod Client

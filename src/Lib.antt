-- ===== src/Lib.antt =====
-- SideWire: a host program (apps/sidewire) and a device daemon (apps/sidewired) that share one
-- connection for commands, files and terminals, over the frame protocol of
-- crates/sidewire-protocol. This library models the protocol and the parts of both programs that
-- decide what goes over a connection, and states what makes them correct.
--
-- The parts, and their files:
--   * Base: shared names and lemmas; Io: `AsyncWrite` and `AsyncRead` as the code uses them. A
--     stream takes any number of bytes at each poll, or fails, as its list `accepts` says.
--   * Frame: crates/sidewire-protocol/src/frame.rs. Kind, Codes: `FrameKind`; Version,
--     Negotiation: the protocol version; Header: `frame_header`, `decode_frame_header` and the
--     codecs of a frame in memory; Stream: `write_raw_frame`, `write_frame`, `read_frame`.
--   * Secure: crates/sidewire-protocol/src/security.rs. Packet: raw packets; Record: what a Noise
--     record holds and how a reader puts records together; Transport: `SecureFrameWriter` and
--     `SecureFrameReader`; Tunnel: `copy_noise_tunnel`; Noise: the cipher of the snow crate, a
--     parameter with its laws.
--   * Text: ids and keys as text (crates/sidewire-protocol/src/discovery.rs and security.rs).
--   * Host: apps/sidewire/src/transport.rs. Flow: `FlowCredit`; Transport: the state of a
--     `DeviceTransport`; Reader: the reader task, a round for each frame; Stream: `open_stream`
--     and the operations of a `DeviceStream`, one poll at a time.
--   * Link: the writer task and the reading loop of both programs, over an interface of frame
--     streams; Channel fills it with Secure.
--   * Server: apps/sidewire/src/server.rs. Registry, Sessions: the map of the devices; Heartbeat:
--     `device_heartbeat`; Selector, Resolve: `resolve_device`; Handshake: `accept_device` and
--     `connect_device`; Trust: the paired devices of apps/sidewire/src/trust.rs.
--   * Files: both ends of a transfer of a file, `remote_push` and `remote_pull` of server.rs and
--     `handle_push` and `handle_pull` of apps/sidewired/src/main.rs.
--   * Transfer: apps/sidewire/src/transfer.rs, the paths and the batches of recursive transfers;
--     Jobs: the tasks that send their files.
--   * Device: apps/sidewired/src. Mux: `MuxWriter` of transport.rs, with Trace for the calls of all
--     tasks in any order; Pairing: the pairing of security.rs; Handshake: `accept_connection` and
--     `connect_connection` of security.rs; Session: the loop of `serve` of main.rs, as events of the
--     loop and of the tasks that it spawns, in any order; Config: `resolve_config`; Outbound:
--     `run_outbound`; Shell: `shell_quote`; Completion: completion.rs, with Path for
--     `complete_pty_path`.
-- The frames of Frame go through Secure, Link sends and receives them, both multiplexers send and
-- route them, Session starts the tasks that Files describes, and the keys that Pairing and Trust
-- store are those that the two Handshakes use for the Noise session of Secure.
--
-- Conventions: bytes, characters, ports and times are natural numbers; where a machine integer
-- wraps or is checked, the model writes it out. Errors are values of a component's own type, in
-- place of the text of an anyhow error. A `HashMap` is a list of its entries, of which an insertion
-- replaces the one with its key.
--
-- Fuel: `write_loop` has as many rounds as a frame has bytes, and each round sends one byte at
-- least; `read_loop` has as many as the stream has bytes, and each takes four at least; `open_loop`
-- has one more than there are ids that it can skip; `shrink_loop` has as many as there are
-- characters to drop; `decimal` has the five digits of a u16; `receive_all` has one more than the
-- stream has bytes, and each frame takes four at least; `ensure_dirs` has as many as there are
-- paths, and each batch takes one at least; `make_room` and `drain_transfers` have as many as tasks
-- run, and each round joins one; `download_loop` has one more than the stream has bytes.
--
-- Not modelled: sockets, files, processes, terminals and the command line; the serializer
-- (postcard), the cipher (snow) and the key exchange (spake2), which are parameters where they
-- matter; wake-ups of waiting tasks, which have no state; a failing flush of a stream; logging.
pub mod Base
pub mod Io
pub mod Frame
pub mod Secure
pub mod Host
pub mod Device
pub mod Files
pub mod Link
pub mod Server
pub mod Text
pub mod Transfer

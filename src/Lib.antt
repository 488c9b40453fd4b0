-- ===== src/Lib.antt =====
-- bt-daemon is a Bluetooth policy daemon over BlueZ. Vendor channels and Fast Pair message streams
-- bring bytes of headphones to it; the daemon decodes them to battery levels and listening modes,
-- and sends commands back.
--
-- The parts and how they interact: src/framing.rs stuffs bytes and cuts a byte stream into frames.
-- The two vendor protocols, src/sony/protocol.rs and src/maestro/protocol.rs, give it their
-- delimiters, their escape code and their payload decoder. src/fast_pair/retry.rs says when a Fast
-- Pair peer that failed is tried again, and src/fast_pair/commands.rs which
-- commands wait for a reply; src/fast_pair/keys.rs keeps the account keys.
-- src/rssi_helper.rs is a separate broker that reads signal strengths for the daemon.
-- src/daemon/scan.rs starts and stops the scans of clients, who may share adapters.
-- src/management.rs keeps the policies on disk, and src/pairing.rs the prompts of BlueZ that wait for
-- a client's answer. src/obex.rs watches file
-- transfers, and src/daemon/published.rs gives each published state its watermark.
--
-- Which file models which part:
--   Framing, Framing/Reader: src/framing.rs. `stuff` is the loop of `escape`, `unescape_loop` that
--     of `unescape`, `push_byte` the `match` of `DelimitedFrames::push`, `next_loop` the loop of
--     `Reader::next`. The label of an overlong frame is the argument `too_long`.
--   Maestro: src/maestro/protocol.rs. Varint has `take`, `read_varint` and `put_varint`; Fields has
--     `fields`; Packet has `encode_packet` and `decode_packet`; Frame has `crc32`, `put_address`,
--     `encode_frame`, `decode_frame` and `FrameDecoder`; Runtime has the announced channel, the
--     subscription and the batteries.
--   Sony, Sony/NcAsm: src/sony/protocol.rs, frames and noise-control payloads.
--   FastPair/Retry: src/fast_pair/retry.rs, `PeerRetry` and `RetryPolicy`.
--   FastPair/Commands: src/fast_pair/commands.rs, `PendingCommands` and the drop of a `Reservation`.
--     A sender is known by its generation; `delivered` is what the senders have been given.
--   FastPair/Keys: src/fast_pair/keys.rs, `AccountKeyStore`, with the file behind it as part of the
--     state and the outcome of each save as an argument.
--   FastPair/Stream, FastPair/Messages, FastPair/Connection, FastPair/Provider: src/fast_pair.rs.
--     Stream has `Frame::encoded`, `FrameDecoder` and `read_transport`; Messages the payloads;
--     Connection `ConnectionState`; Provider what `FastPairBatteryProvider` does with frames and at
--     the end of a stream. Connection/Run is a step relation over the connection state and the
--     running readers and the requests that are being accepted. A writer is known by a number, the clock and random bytes are arguments.
--   FastPair/AudioSwitch and FastPair/Capabilities: src/fast_pair/audio_switch.rs and
--     src/fast_pair/capabilities.rs.
--   RssiHelper/Limits and RssiHelper/Helper: src/rssi_helper.rs, `Limits` and `Helper::execute`, where
--     the backend is a record of its answers. RssiHelper/Mgmt: src/rssi_helper/mgmt.rs, where
--     the socket is the list of packets that it still gives.
--   Model, Model/Devices, Model/Text, Model/Policy: the data types of src/model.rs and
--     src/management.rs, and the text of remote peers.
--   Management, Management/Store: src/management.rs, the settings of a request and `ManagementStore`,
--     whose files are part of the state. A JSON object is the list of its members.
--   Pairing: src/pairing.rs, `PairingBroker`, with what the senders of the prompts were used for and
--     the emitted events as part of the state. A request id is its prefix and its number.
--   Obex: src/obex.rs, `TransferUpdate`, `monitor_transfer` over what `get_all` gives and the list of
--     signals that come, and the names of received files; a directory is the list of its names.
--   Bluez/LinkSignal: src/bluez/link_signal.rs, `Signals`, with the clock as an argument.
--   Daemon/Published: src/daemon/published.rs, where the epochs are drawn from the argument `uuid`.
--   Daemon/Scan: src/daemon/scan.rs. `Coordinator` is the state of `ScanCoordinator`, `complete` one
--     round of its timeout task; the backend's `set_scanning` and `snapshot` are the arguments `set`
--     and `look`, which take the world to a new one.
--   Base: lists, results, maps, byte orders and bit operations that the parts share.
--   Tests: runs on concrete input.
-- The other modules below a part hold proofs about it.
--
-- Numbers: a byte, a `u32` or a `u64` is a native number, with its wrap-around written out, and a
-- theorem that needs the bound names it (IsBytes, IsU32, IsU64). A slice is a list. An error is a
-- constructor of the part's error type; the text in it is not modelled.
--
-- Bounds and fuel: `fields_loop` has as many rounds as bytes, and each round takes one byte at least.
-- `push_loop` of the Message Stream has as many rounds as bytes, and each takes four at least.
-- `put_varint` and `put_address` recurse on the value that they shift, by well-founded recursion.
-- All other loops recurse on their list.
--
-- Not modelled: sockets, D-Bus, timers and tasks, which are input and output; the rest of
-- the BlueZ backend, audio, the authorization of OBEX transfers, device identity, the Fast Pair
-- cryptography, the vendor sessions above the protocols, and the API, which stand on them; and
-- BlueZ, PipeWire, the daemon framework and the cryptographic primitives, which are not in the
-- repository.
pub mod Base
pub mod Framing
pub mod Maestro
pub mod Sony
pub mod FastPair
pub mod RssiHelper
pub mod Model
pub mod Management
pub mod Pairing
pub mod Bluez
pub mod Obex
pub mod Daemon
mod Tests

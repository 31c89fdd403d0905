-- ===== src/Lib.antt =====
-- RedLine, a low-latency broadcast intercom: clients talk over UDP to a server that mixes their
-- audio, and each keeps a control connection (WebSocket) over which the server pushes its
-- configuration. This library models the program's core logic.
--
-- Base: shared helpers. Tests on numbers and strings and results (Base/Tests), vectors and sets as
--   lists (Base/Lists), sorting and removal of duplicates (Base/Sorted, Base/NormalForm, Base/Stable), maps with
--   small integer keys (Base/Map), strings (Base/Text, Base/Trim).
-- Wire: common/src/lib.rs. The codecs and their parameters (Wire/Types), the packet with
--   `AudioPacket::encode` and `AudioPacket::decode` (Wire/Packet, on bytes of Wire/Bytes), and the
--   conversion of PCM16 payloads (Wire/Pcm). A byte is a number, and so are `u16`, `u32` and `usize`;
--   the theorems bound them where the widths matter.
-- Control: common/src/lib.rs. The data that clients and server exchange, and what the actions of a
--   talk button transmit to (Control/Actions), and when they are equal (Control/Same).
-- Playback: clients/core/src/lib.rs, `PlaybackBuffer` with every operation. The cursor and the
--   storage refine an abstract bounded queue (Playback/View), over any sequence of calls
--   (Playback/Run).
-- Client: clients/core/src/lib.rs, `ClientConfig`: where a client sends its audio, and how
--   `apply_control_event` takes what the server pushes.
-- Server: server/src/lib.rs. Sessions and pushes (Server/State), alerts (Server/Alerts), direct calls
--   and their history (Server/Calls), talk buttons and the end of a connection (Server/Buttons), the
--   emergency (Server/Emergency), and the routes of a session with what the server reports of them
--   (Server/Routes). A handler is a function of the state that returns the response and the state
--   afterwards; the present time is an argument, in milliseconds. Handlers take their locks one
--   after another, and a handler here runs to its end before the next event: in the source two alerts
--   that are sent at once may be stored in another order than that of their identifiers.
--   The mixer's queues, the server's own sources and the sequence numbers are in Server/Sources, and
--   the chunks and jobs of live transcription in Server/Transcription, whose frames come with their
--   samples at 16 kHz and whether they are voiced.
--   The state of a button is in Server/Presses, the choice of an identifier in Server/Enrollment, and
--   the settings of IFB in Server/Ifb.
--   The mixer, `build_mixes`, is in Server/Mixing: the frames of a round (Collect), who may send where
--   and whom that ducks (Senders), what a listener hears (Listener, Loop), and the round (Build).
--   The desired configuration of a client is in Server/Config: the normal form of buttons (Buttons),
--   the admin state's entry and the baseline (Desired), its effect on a session (Apply), the lockouts
--   (Lockout), and the requests `Config`, `AudioCodec`, `TalkMode` and `Priority` of `apply_control`
--   (Handle). The enrollment of a device, `resolve_client_enrollment`, is in
--   Server/Enrollment/Resolve. What a button's activation does is in Server/Activation, and the
--   dispatch of `apply_control` with the end of a connection in Server/Dispatch. Whether the admin state can be saved is an argument.
-- Gpio: clients/pi-gpio/src/main.rs. The debouncing of a button on a pin, `run_loop`, for one button,
--   with the levels that are read as an argument, and the endpoints that it posts to.
-- Tests: sample servers, clients and packets.
--
-- A `HashMap` or `HashSet` is a list without repetitions, whose order stands for the order of
-- iteration. The gains (`f32`) are a parameter (Server/Gains) with the documented behaviour of
-- `clamp`; the mixer's arithmetic on `f32` samples is one too (Server/Mixing/Listener). All recursion is structural, so no fuel is needed.
--
-- Not modelled: the meters and the processing of audio, the receiving and sending of packets, the
-- rest of the persisted state with its templates, the messages `Hello`, `CaptureHealth`,
-- `BridgeStatus` and `Status`, the engines of transcription and speech, recording, HTTP and WebSocket routing,
-- the devices and user interfaces of the clients, and the tools.
pub mod Base
pub mod Wire
pub mod Control
pub mod Playback
pub mod Client
pub mod Server
pub mod Gpio
pub mod Tests

-- ===== src/Lib.antt =====
-- ferrite-sfu, a WebRTC selective forwarding unit for group audio and screen sharing: a
-- verification of its media loop, and of the HTTP routes, the socket sessions, the tokens, the
-- settings and the reports around it.
--
-- The program has two halves. The signaling half serves HTTP and WebSockets, and turns the frames
-- of a browser into commands. The media half is one thread that owns every room, every peer and
-- the UDP socket; it applies the commands, feeds datagrams to str0m, forwards media between the
-- peers of a room, negotiates SDP with each browser, and reports what happens to the host
-- application. All state lives in the media half, and the commands, the datagrams and the clock
-- are all that change it. This library models that half, function by function, and of the rest the
-- start of the process, the routes of the HTTP server, the sessions of sockets, the acceptance of
-- tokens, the reading of the settings and the delivery of reports.
--
-- Which file models which part, by paths from the repository's root:
-- - Proto: src/proto.rs, the frames. Report: the events of src/report.rs, and Report.Delivery:
--   their delivery. Auth: src/auth.rs. Config: src/config.rs, where the environment and the
--   parsers of addresses are a parameter. Shared.Texts: what these use of Rust's `str`.
-- - Media: what the code uses of str0m and uuid, as the record `Deps` of types and functions and
--   the record `Driver` of the operations of the event loop. Both are parameters of every
--   definition that calls them. `IsDocumented` names the documented behaviour that some theorems
--   rely on: `Rtc::disconnect` leaves a dead `Rtc`, a fresh `SdpApi` has no changes, adding or
--   stopping an m-line is a change, and `apply` of changes gives an offer. Samples holds an
--   instance that meets them all.
-- - Session: src/signal/session.rs, the life of one socket: the admission of its first frame, and
--   the frames and the leave that follow. Serde, jsonwebtoken's `decode` with its validation
--   settings (HS256, no audience, a required exp) and what the channels do are parameters and
--   inputs.
-- - Http: src/signal/http.rs, the routes of the HTTP server and the layer that logs the requests.
--   axum is a parameter, and Http.Routing names what it documents of its routing.
-- - Tracks: src/sfu/tracks.rs. An `Arc<TrackIn>` is an address in the heap `Arcs`, and a `Weak` is
--   the address alone: `alloc`, `upgrade` and `drop_entries` are the allocation, the upgrade of a
--   `Weak`, and the drop of a peer with all its `Arc`s.
-- - Peer: src/sfu/peer.rs; Peer.Poll: its `poll_output` and event handler; Peer.Media:
--   src/sfu/peer_media.rs; Peer.Negotiate: src/sfu/negotiate.rs.
-- - Room: src/sfu/room.rs.
-- - Engine: src/sfu/engine.rs and src/sfu/command.rs; Engine.Join: src/sfu/join.rs;
--   Engine.Dispatch: src/sfu/dispatch.rs; Engine.Io and Engine.Ticks: src/sfu/engine_io.rs;
--   Engine.Run: the loop of `Engine::run`, turn by turn, as a function of the commands, the
--   instants and the datagrams that it gets, and Engine.Run.Deeds: what the loop has to do, by the
--   same inputs; Engine.Turn: what the loop does as a step relation on engines.
-- - Process: src/main.rs, the start of the process and the probe of its health. What the operating
--   system answers is an input.
-- - Hall: an abstract view, in which a room is a list of seats of an id and a user, and the engine
--   is a map of rooms to seats with an index of ids to rooms. Engine.Seats gives the view of an
--   engine and the invariant `IsValid`.
-- - Wiring: who is subscribed to what. A peer is tuned (`IsTuned`) if it publishes exactly the
--   live tracks that name it, and is subscribed once to each live track of the other peers of its
--   room and to no other; a room is wired (`IsWired`) if all its peers are tuned. The children
--   treat one part of the code each: Wiring.Heaps a new track, Wiring.Drops and Wiring.Leaves a
--   peer that goes, Wiring.Deliveries the propagation in a room, Wiring.Rounds the polling of a
--   peer, Wiring.Joins a peer that comes. Engine.Wired does so for the engine (`IsMeshed`),
--   operation by operation, and Engine.Wired.Routes follows packets and keyframe requests through
--   a wired engine. That no two live tracks of a publisher have one m-line, and no two
--   subscriptions of a peer, is str0m's part and a hypothesis there.
-- - Engine.Told: what the host application is told, read off the log of effects. Engine.Cards:
--   what a room shows of its peers to the host application, their users and whether they count as
--   reported. Engine.Accounts: the arrivals and departures that are told of a user in a room,
--   operation by operation. Engine.Voices: whom a room lists as speaking, operation by operation.
-- - Samples: an instance of `Deps` and a call, on which Samples.Witnesses applies the theorems;
--   Samples.Edges does so for sessions, tokens, settings and reports, Samples.Meshes for a call in
--   which both peers publish, Samples.Turns for a turn of the loop, Samples.Accounts for a peer
--   that comes and goes, Samples.Voices for a peer that speaks, Samples.Requests for requests to
--   the HTTP server, and Samples.Boots for a start of the process.
--
-- How state and effects correspond to the code. A struct is a record with the same fields, less
-- what only serves tracing. A `HashMap` is an association list without duplicate keys; where the
-- code walks over a map, the model walks over the list, in its order. What the code sends (a frame
-- on a socket's channel, a datagram, a report, the answer to a join) is appended to the log of the
-- engine in the order of the calls, since the code ignores the failures of all of them. An
-- `Instant` is a number of nanoseconds. An operation that reads the clock takes it as `now`, once
-- for each call of the operation; `duration_since` is zero where the instant lies ahead. The next
-- id is a `u64` that wraps at 2 ^ 64.
--
-- Fuel: the code drains a peer until str0m has no output left, and how often that is depends on
-- str0m. `poll_peer` takes fuel for it and gives `none` where the fuel runs out. `Step` polls with
-- any amount that is enough, so a turn that str0m never ends is no step, and the loop of
-- Engine.Run has then no result.
--
-- Outside the model: axum's server, the signatures of tokens and of reports, Serde's encoding of
-- frames, all tracing but that of the HTTP server, the test harness and the deployment files. Real
-- time is outside as well: how long a turn waits for the socket is computed, but not that the time
-- passes.
mod Shared
pub mod Proto
pub mod Media
pub mod Report
pub mod Tracks
pub mod Peer
pub mod Auth
pub mod Config
pub mod Room
pub mod Hall
pub mod Engine
pub mod Session
pub mod Http
pub mod Wiring
pub mod Process
pub mod Samples

-- ===== src/Peer/Poll.antt =====
-- src/sfu/peer.rs: how a peer takes input and produces output. `now` is the instant at which the
-- call reads the clock. A datagram that cannot be sent is only logged.
pub mod Grace
use ababilx_chat_sfu.Shared.{
  ℕ, true, not, Option, none, some, List, [], ◌∷◌, ◌++◌, String, Result, ok, err, if◌then◌else◌,
}
use ababilx_chat_sfu.Media.{
  Deps, Driver, Input, Output, Event, transmit, timeout, event, ice_connection_state_change,
  media_added, media_data, keyframe_request, other_event, IceConnectionState, ice_new, checking,
  connected, completed, disconnected,
}
use ababilx_chat_sfu.Tracks.{Arcs, Propagated}
use ababilx_chat_sfu.Peer.{Peer, Effect, datagram}
use ababilx_chat_sfu.Peer.Negotiate.{negotiate_if_needed}
use ababilx_chat_sfu.Peer.Media.{
  handle_media_added, handle_media_data_in, handle_incoming_keyframe_request,
}

-- What a call leaves behind: the peer, the heap of tracks, the effects and what is propagated.
pub record Polled (d : Deps) : Type 0 where
  pub peer : Peer d
  pub arcs : Arcs d
  pub effects : List (Effect d)
  pub propagated : Propagated d

-- `get_or_insert_with(Instant::now)`
first_since : ℕ → Option ℕ → Option ℕ
first_since now none = some now
first_since now (some since) = some since

module _ {d : Deps} where
  took_input : Peer d → Result String (Unit {0}) × d.Rtc → Peer d
  took_input p (ok _, rtc) = record p { rtc = rtc }
  took_input p (err _, rtc) = record p { rtc = d.disconnect rtc }

  unfoldable pub handle_input : Driver d → Input d → Peer d → Peer d
  unfolding took_input
  handle_input v input p =
      if not (d.is_alive p.rtc) then p else took_input p (v.handle_input p.rtc input)

  unfoldable pub handle_ice_state : ℕ → IceConnectionState → Peer d → Peer d
  unfolding first_since
  handle_ice_state now connected p = record p { connected = true; disconnected_since = none }
  handle_ice_state now completed p = record p { connected = true; disconnected_since = none }
  handle_ice_state now disconnected p = record p {
    disconnected_since = first_since now p.disconnected_since;
  }
  handle_ice_state now ice_new p = p
  handle_ice_state now checking p = p

  unfoldable pub handle_event : ℕ → Event d → Arcs d → Peer d → Polled d
  handle_event now (ice_connection_state_change s) h p = record {
    peer = handle_ice_state now s p;
    arcs = h;
    effects = [];
    propagated = Propagated.noop;
  }
  handle_event now (media_added added) h p =
      let (p', h', out) = handle_media_added added h p in
      record { peer = p'; arcs = h'; effects = []; propagated = out }
  handle_event now (media_data m) h p =
      let (p', out) = handle_media_data_in now m p in
      record { peer = p'; arcs = h; effects = []; propagated = out }
  handle_event now (keyframe_request request) h p = record {
    peer = p;
    arcs = h;
    effects = [];
    propagated = handle_incoming_keyframe_request request h p;
  }
  handle_event now other_event h p = record {
    peer = p;
    arcs = h;
    effects = [];
    propagated = Propagated.noop;
  }

  unfoldable pub handle_output : ℕ → Output d → Arcs d → Peer d → Polled d
  unfolding handle_event
  handle_output now (transmit t) h p = record {
    peer = p;
    arcs = h;
    effects = datagram t ∷ [];
    propagated = Propagated.noop;
  }
  handle_output now (timeout at) h p = record {
    peer = p;
    arcs = h;
    effects = [];
    propagated = Propagated.timeout at;
  }
  handle_output now (event e) h p = handle_event now e h p

  unfoldable pub produced : ℕ → Arcs d → Peer d → Result String (Output d) × d.Rtc → Polled d
  produced now h p (ok out, rtc) = handle_output now out h (record p { rtc = rtc })
  produced now h p (err _, rtc) = record {
    peer = record p { rtc = d.disconnect rtc };
    arcs = h;
    effects = [];
    propagated = Propagated.noop;
  }

  unfoldable pub poll_output : Driver d → ℕ → Arcs d → Peer d → Polled d
  poll_output v now h p =
      if not (d.is_alive p.rtc)
      then record { peer = p; arcs = h; effects = []; propagated = Propagated.noop }
      else let (p', sent, offered) = negotiate_if_needed h p in
        if offered
        then record { peer = p'; arcs = h; effects = sent; propagated = Propagated.noop }
        else let out = produced now h p' (v.poll_output p'.rtc) in
          record out { effects = sent ++ out.effects }

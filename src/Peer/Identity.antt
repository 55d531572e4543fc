-- ===== src/Peer/Identity.antt =====
-- What a peer does never changes who it is, its id and its user, nor whether its arrival was reported.
use ababilx_chat_sfu.Shared.{ℕ, ◌≡◌, refl, String, Bool, Result, ok, err, arith}
use ababilx_chat_sfu.Media.{
  Deps, Driver, Input, Output, transmit, timeout, event, ice_connection_state_change, media_added,
  media_data, keyframe_request, other_event, MediaData, MediaAdded, KeyframeRequestKind,
  IceConnectionState, connected,
}
use ababilx_chat_sfu.Tracks.{Arcs}
use ababilx_chat_sfu.Peer.{Peer}
use ababilx_chat_sfu.Peer.Negotiate.{negotiate_if_needed}
use ababilx_chat_sfu.Peer.Media.{
  request_keyframe_throttled, handle_media_added, handle_media_data_in, forward,
  serve_keyframe_request,
}
use ababilx_chat_sfu.Peer.Poll.{
  handle_input, handle_ice_state, handle_event, handle_output, produced, poll_output,
}

module _ {d : Deps} where
  abbrev pub who : Peer d → ℕ × String × Bool
  who p = (p.id, p.user_id, p.reported)

  who-negotiate_if_needed : (h : Arcs d) (p : Peer d) → who (negotiate_if_needed h p).0 ≡ who p
  unfolding negotiate_if_needed
  who-negotiate_if_needed h p = ground arith

  who-request_keyframe_throttled :
      (now : ℕ) (m : d.Mid) (kind : KeyframeRequestKind) (p : Peer d)
      → who (request_keyframe_throttled now m kind p) ≡ who p
  unfolding request_keyframe_throttled
  who-request_keyframe_throttled now m kind p = ground arith

  who-handle_media_data_in :
      (now : ℕ) (m : MediaData d) (p : Peer d) → who (handle_media_data_in now m p).0 ≡ who p
  unfolding handle_media_data_in
  who-handle_media_data_in now m p = ground arith

  pub who-forward :
      (h : Arcs d) (origin : ℕ) (m : MediaData d) (p : Peer d) → who (forward h origin m p) ≡ who p
  unfolding forward
  who-forward h origin m p = ground arith

  pub who-serve_keyframe_request :
      (m : d.Mid) (kind : KeyframeRequestKind) (p : Peer d)
      → who (serve_keyframe_request m kind p) ≡ who p
  unfolding serve_keyframe_request
  who-serve_keyframe_request m kind p = ground arith

  pub who-handle_input :
      (v : Driver d) (input : Input d) (p : Peer d) → who (handle_input v input p) ≡ who p
  unfolding handle_input
  who-handle_input v input p = ground arith

  who-handle_ice_state :
      (now : ℕ) (s : IceConnectionState) (p : Peer d) → who (handle_ice_state now s p) ≡ who p
  unfolding handle_ice_state
  who-handle_ice_state now connected p = refl
  who-handle_ice_state now _ p = refl

  who-handle_media_added :
      (a : MediaAdded d) (h : Arcs d) (p : Peer d) → who (handle_media_added a h p).0 ≡ who p
  unfolding handle_media_added
  who-handle_media_added a h p = refl

  who-handle_output :
      (now : ℕ) (o : Output d) (h : Arcs d) (p : Peer d)
      → who (handle_output now o h p).peer ≡ who p
  unfolding handle_output handle_event
  who-handle_output now (transmit t) h p = refl
  who-handle_output now (timeout at) h p = refl
  who-handle_output now (event (ice_connection_state_change s)) h p = who-handle_ice_state now s p
  who-handle_output now (event (media_added a)) h p = who-handle_media_added a h p
  who-handle_output now (event (media_data m)) h p = who-handle_media_data_in now m p
  who-handle_output now (event (keyframe_request r)) h p = refl
  who-handle_output now (event other_event) h p = refl

  who-produced :
      (now : ℕ) (h : Arcs d) (p : Peer d) (r : Result String (Output d) × d.Rtc)
      → who (produced now h p r).peer ≡ who p
  unfolding produced
  who-produced now h p (ok o, rtc) = who-handle_output now o h (record p { rtc = rtc })
  who-produced now h p (err x, rtc) = refl

  pub who-poll_output :
      (v : Driver d) (now : ℕ) (h : Arcs d) (p : Peer d) → who (poll_output v now h p).peer ≡ who p
  unfolding poll_output
  who-poll_output v now h p =
      let p' = (negotiate_if_needed h p).0 in
      ground (arith, who-negotiate_if_needed h p, who-produced now h p' (v.poll_output p'.rtc))

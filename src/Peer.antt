-- ===== src/Peer.antt =====
-- src/sfu/peer.rs: a participant. The record, its messages, and the clocks that it keeps.
-- The `UnboundedSender` of a socket is the number of its channel; what is sent goes to a log of
-- effects, since the source ignores a closed channel.
pub mod Negotiate
pub mod Media
pub mod Poll
pub mod Identity
use ababilx_chat_sfu.Shared.{
  ℕ, ◌-◌, String, Bool, true, false, Option, none, some, List, [], ◌∷◌, ℤ, ltb, leb, negate,
}
use ababilx_chat_sfu.Media.{Deps, secs, millis}
use ababilx_chat_sfu.Proto.{PeerInfo, ServerMsg}
use ababilx_chat_sfu.Report.{ReportEvent}
use ababilx_chat_sfu.Tracks.{TrackInEntry, TrackOut, as_string}

abbrev pub speaking_hold : ℕ
speaking_hold = millis 600

abbrev pub ice_disconnect_grace : ℕ
ice_disconnect_grace = secs 20

-- -SPEAKING_THRESHOLD_DBOV
abbrev pub speaking_threshold : ℤ
speaking_threshold = negate 50

-- What the media loop does to the world outside it, in order.
pub data Effect (d : Deps) : Type 0 where
  message : (out : ℕ) → ServerMsg → Effect d
  datagram : d.Transmit → Effect d
  report : ReportEvent → Effect d
  assigned : (reply : ℕ) → Option ℕ → Effect d

pub record Peer (d : Deps) : Type 0 where
  pub id : ℕ
  pub user_id : String
  pub name : String
  pub avatar_url : String
  pub rtc : d.Rtc
  pub pending : Option d.SdpPendingOffer
  pub out : ℕ
  pub tracks_in : List (TrackInEntry d)
  pub tracks_out : List (TrackOut d)
  pub muted : Bool
  pub screen : Bool
  pub connected : Bool
  pub disconnected_since : Option ℕ
  pub reported : Bool
  pub speaking_until : Option ℕ

module _ {d : Deps} where
  unfoldable pub new : ℕ → d.Rtc → (user_id name avatar_url : String) → ℕ → Peer d
  new id rtc user_id name avatar_url out = record {
    id = id;
    user_id = user_id;
    name = name;
    avatar_url = avatar_url;
    rtc = rtc;
    pending = none;
    out = out;
    tracks_in = [];
    tracks_out = [];
    muted = false;
    screen = false;
    connected = false;
    disconnected_since = none;
    reported = false;
    speaking_until = none;
  }

  unfoldable pub info : Peer d → PeerInfo
  info p = record {
    peer_id = as_string p.id;
    user_id = p.user_id;
    name = p.name;
    avatar_url = p.avatar_url;
    muted = p.muted;
    screen = p.screen;
  }

  unfoldable pub send : Peer d → ServerMsg → List (Effect d)
  send p m = message p.out m ∷ []

  -- `duration_since` is zero where the instant lies ahead.
  unfoldable pub is_abandoned : Peer d → ℕ → Bool
  is_abandoned p now = elim p.disconnected_since [
    | none ↦ false
    | some since ↦ leb ice_disconnect_grace (now - since)
  ]

  unfoldable pub is_speaking : Peer d → ℕ → Bool
  is_speaking p now = elim p.speaking_until [ none ↦ false | some until ↦ ltb now until ]

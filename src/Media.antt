-- ===== src/Media.antt =====
-- What the media loop takes from the crates that it calls (str0m, uuid), as a parameter: `Deps`.
-- The crates' public structs and enums stand here with the fields and variants that the source reads.
-- Times are numbers of nanoseconds.
use ababilx_chat_sfu.Shared.{
  ℕ, ◌*◌, ◌≡◌, String, Bool, true, false, Option, some, Result, ℤ, PartialEq,
}

-- `Duration::from_secs`, `Duration::from_millis`
abbrev pub secs : ℕ → ℕ
secs n = n * 1_000_000_000

abbrev pub millis : ℕ → ℕ
millis n = n * 1_000_000

-- str0m's `MediaKind`, `KeyframeRequestKind` and `Direction`
pub data MediaKind : Type 0 where
  audio video : MediaKind

pub data KeyframeRequestKind : Type 0 where
  pli fir : KeyframeRequestKind

pub data Direction : Type 0 where
  send_only recv_only send_recv inactive : Direction

-- str0m's `IceConnectionState`; `ice_new` and `checking` share the source's catch-all.
pub data IceConnectionState : Type 0 where
  ice_new checking connected completed disconnected : IceConnectionState

-- The types and calls of the crates. A call on a `&mut` value returns the new value. A failed call
-- carries the error's text, which the source only logs.
pub record Deps : Type 1 where
  pub Rtc : Type 0
  pub Mid : Type 0
  pub Rid : Type 0
  pub Params : Type 0
  pub Pt : Type 0
  pub MediaTime : Type 0
  pub Payload : Type 0
  pub Transmit : Type 0
  pub Contents : Type 0
  pub Address : Type 0
  pub Ip : Type 0
  pub Candidate : Type 0
  pub Writer : Type 0
  pub SdpApi : Type 0
  pub SdpOffer : Type 0
  pub SdpAnswer : Type 0
  pub SdpPendingOffer : Type 0
  -- `SocketAddr::new`, `SocketAddr::port`
  pub socket_addr : Ip → ℕ → Address
  pub port : Address → ℕ
  pub mid_Eq : PartialEq Mid
  pub mid_to_string : Mid → String
  -- the n-th `Uuid::new_v4()`
  pub uuid : ℕ → String
  -- `Rtc::builder().set_ice_lite(..).build(now)`, `Candidate::host(addr, "udp")`
  pub build : (ice_lite : Bool) (now : ℕ) → Rtc
  pub candidate_host : Address → String → Result String Candidate
  pub add_local_candidate : Rtc → Candidate → Bool × Rtc
  pub is_alive : Rtc → Bool
  pub disconnect : Rtc → Rtc
  -- `Rtc::writer` and the calls of a `Writer`, which holds the borrowed `Rtc`
  pub writer : Rtc → Mid → Option Writer
  pub match_params : Writer → Params → Option Pt
  pub audio_level : Writer → ℤ → Bool → Writer
  pub write : Writer → Pt → ℕ → MediaTime → Payload → Result String (Unit {0}) × Rtc
  pub request_keyframe : Writer → Option Rid → KeyframeRequestKind → Result String (Unit {0}) × Rtc
  -- `Rtc::sdp_api` and the calls of an `SdpApi`, which holds the borrowed `Rtc`; `release` ends the
  -- borrow of one that is dropped.
  pub sdp_api : Rtc → SdpApi
  pub release : SdpApi → Rtc
  pub add_media :
      SdpApi → MediaKind → Direction → Option String → Option String → Option String → Mid × SdpApi
  pub stop_media : SdpApi → Mid → SdpApi
  pub has_changes : SdpApi → Bool
  pub apply : SdpApi → Option (SdpOffer × SdpPendingOffer) × Rtc
  pub accept_answer : SdpApi → SdpPendingOffer → SdpAnswer → Result String (Unit {0}) × Rtc
  pub accept_offer : SdpApi → SdpOffer → Result String SdpAnswer × Rtc
  pub offer_from_sdp : String → Result String SdpOffer
  pub answer_from_sdp : String → Result String SdpAnswer
  pub offer_to_sdp : SdpOffer → String
  pub answer_to_sdp : SdpAnswer → String

-- str0m's `MediaData`, with `ext_vals` flattened; `payload` is its `data`.
pub record MediaData (d : Deps) : Type 0 where
  pub mid : d.Mid
  pub params : d.Params
  pub contiguous : Bool
  pub audio_level : Option ℤ
  pub voice_activity : Option Bool
  pub network_time : ℕ
  pub time : d.MediaTime
  pub payload : d.Payload

pub record MediaAdded (d : Deps) : Type 0 where
  pub mid : d.Mid
  pub kind : MediaKind

pub record KeyframeRequest (d : Deps) : Type 0 where
  pub mid : d.Mid
  pub rid : Option d.Rid
  pub kind : KeyframeRequestKind

-- str0m's `Event`: the variants that the source names, and the rest.
pub data Event (d : Deps) : Type 0 where
  ice_connection_state_change : IceConnectionState → Event d
  media_added : MediaAdded d → Event d
  media_data : MediaData d → Event d
  keyframe_request : KeyframeRequest d → Event d
  other_event : Event d

pub data Output (d : Deps) : Type 0 where
  transmit : d.Transmit → Output d
  timeout : ℕ → Output d
  event : Event d → Output d

-- `Input::Timeout` and `Input::Receive`, the latter with its source, destination and contents.
pub data Input (d : Deps) : Type 0 where
  at_time : ℕ → Input d
  receive : (now : ℕ) (source destination : d.Address) → d.Contents → Input d

-- The calls of an `Rtc` that drive it.
pub record Driver (d : Deps) : Type 0 where
  pub accepts : d.Rtc → Input d → Bool
  pub handle_input : d.Rtc → Input d → Result String (Unit {0}) × d.Rtc
  pub poll_output : d.Rtc → Result String (Output d) × d.Rtc

-- What str0m documents of the calls, as far as the proofs need it.
pub record IsDocumented (d : Deps) : Type 0 where
  pub disconnect_dead : (r : d.Rtc) → d.is_alive (d.disconnect r) ≡ false
  pub sdp_api_clean : (r : d.Rtc) → d.has_changes (d.sdp_api r) ≡ false
  pub add_media_changes :
      (c : d.SdpApi) (k : MediaKind) (w : Direction) (s t q : Option String)
      → d.has_changes (d.add_media c k w s t q).1 ≡ true
  pub stop_media_changes : (c : d.SdpApi) (m : d.Mid) → d.has_changes (d.stop_media c m) ≡ true
  -- `apply` returns `None` for an `SdpApi` without changes only.
  pub apply_some :
      (c : d.SdpApi)
      → d.has_changes c ≡ true
      → (o : d.SdpOffer × d.SdpPendingOffer) × ((d.apply c).0 ≡ some o)

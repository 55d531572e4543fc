-- ===== src/Proto.antt =====
-- src/proto.rs: the frames that a browser and the server exchange. Serde's JSON is not modelled.
use ababilx_chat_sfu.Shared.{String, Bool, List}

pub record TrackMap : Type 0 where
  pub mid : String
  pub peer_id : String
  pub kind : String

pub record PeerInfo : Type 0 where
  pub peer_id : String
  pub user_id : String
  pub name : String
  pub avatar_url : String
  pub muted : Bool
  pub screen : Bool

pub data ClientMsg : Type 0 where
  join : (token sdp : String) → ClientMsg
  answer : (sdp : String) → ClientMsg
  mute : (muted : Bool) → ClientMsg
  screen : (active : Bool) → ClientMsg
  leave ping : ClientMsg

pub data ServerMsg : Type 0 where
  joined : (peer_id call_id sdp : String) (peers : List PeerInfo) → ServerMsg
  offer : (sdp : String) (tracks : List TrackMap) → ServerMsg
  peer_joined : (peer : PeerInfo) → ServerMsg
  peer_left : (peer_id : String) → ServerMsg
  peer_state : (peer_id : String) (muted screen : Bool) → ServerMsg
  speaking : (peer_ids : List String) → ServerMsg
  error : (code message : String) → ServerMsg
  pong : ServerMsg

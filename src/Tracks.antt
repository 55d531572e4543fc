-- ===== src/Tracks.antt =====
-- src/sfu/tracks.rs: peer ids, published tracks, subscriptions and what peers propagate.
-- An `Arc` is an address with its value; `Arcs` is the heap of the addresses with a live `Arc`, so a
-- `Weak` is an address, and `upgrade` looks it up. Addresses are not used again.
use Prim.Native.String.{slice, ◌++◌ as ◌+++◌}
use ababilx_chat_sfu.Shared.{
  ℕ, zero, suc, ◌+◌, ◌/◌, ◌%◌, String, Option, none, some, List, [], ◌∷◌, ltb, if◌then◌else◌,
  lookup, insert, remove, nat_Eq,
}
use ababilx_chat_sfu.Media.{Deps, MediaKind, MediaData, KeyframeRequest}

digit : ℕ → String
digit n = slice "0123456789" n (n + 1)

decimal : ℕ → ℕ → String
unfolding digit
decimal zero n = ""
decimal (suc places) n =
    let front = decimal places (n / 10) in if ltb n 10 then digit n else front +++ digit (n % 10)

-- A `u64` has at most twenty digits.
unfoldable pub as_string : ℕ → String
unfolding decimal
as_string id = decimal 20 id

pub record TrackIn (d : Deps) : Type 0 where
  pub origin : ℕ
  pub mid : d.Mid
  pub kind : MediaKind

pub record Arc (d : Deps) : Type 0 where
  pub address : ℕ
  pub value : TrackIn d

pub record Arcs (d : Deps) : Type 0 where
  pub next : ℕ
  pub live : List (ℕ × TrackIn d)

pub record TrackInEntry (d : Deps) : Type 0 where
  pub id : Arc d
  pub last_keyframe_request : Option ℕ

pub data TrackOutState (d : Deps) : Type 0 where
  to_open : TrackOutState d
  negotiating opened to_stop negotiating_stop : d.Mid → TrackOutState d

pub record TrackOut (d : Deps) : Type 0 where
  pub track_in : ℕ
  pub state : TrackOutState d

pub data Propagated (d : Deps) : Type 0 where
  noop : Propagated d
  timeout : ℕ → Propagated d
  track_open : ℕ → ℕ → Propagated d
  media : ℕ → MediaData d → Propagated d
  keyframe_request : ℕ → KeyframeRequest d → ℕ → d.Mid → Propagated d

module _ {d : Deps} where
  -- `Arc::new`
  unfoldable pub alloc : TrackIn d → Arcs d → Arc d × Arcs d
  alloc t h = (
    record { address = h.next; value = t },
    record { next = h.next + 1; live = insert h.next t h.live },
  )

  -- `Arc::downgrade`
  abbrev pub downgrade : Arc d → ℕ
  downgrade a = a.address

  -- `Weak::upgrade`
  unfoldable pub upgrade : Arcs d → ℕ → Option (TrackIn d)
  upgrade h w = lookup w h.live

  -- the last `Arc` of an allocation goes out of scope
  unfoldable pub drop_arc : Arc d → Arcs d → Arcs d
  drop_arc a h = record h { live = remove a.address h.live }

  unfoldable pub drop_entries : List (TrackInEntry d) → Arcs d → Arcs d
  unfolding drop_arc
  drop_entries [] h = h
  drop_entries (e ∷ es) h = drop_entries es (drop_arc e.id h)

  abbrev state_mid : TrackOutState d → Option d.Mid
  state_mid to_open = none
  state_mid (negotiating mid) = some mid
  state_mid (opened mid) = some mid
  state_mid (to_stop mid) = some mid
  state_mid (negotiating_stop mid) = some mid

  unfoldable pub mid : TrackOut d → Option d.Mid
  mid t = state_mid t.state

  unfoldable pub source : Propagated d → Option ℕ
  source noop = none
  source (timeout _) = none
  source (track_open id _) = some id
  source (media id _) = some id
  source (keyframe_request id _ _ _) = some id

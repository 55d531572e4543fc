-- ===== src/Peer/Media/Keyframes.antt =====
-- src/sfu/peer_media.rs, `request_keyframe_throttled`: a publisher is not flooded with requests.
use ababilx_chat_sfu.Shared.{
  ℕ, ◌-◌, ◌<◌, ◌≡◌, refl, ap, ◌∙◌, Bool, false, none, some, List, [], ◌∷◌, arith, ok, find,
  update_first, Bool-cases, inl, inr,
}
use ababilx_chat_sfu.Media.{Deps, KeyframeRequestKind, secs}
use ababilx_chat_sfu.Tracks.{TrackInEntry}
use ababilx_chat_sfu.Peer.{Peer}
use ababilx_chat_sfu.Peer.Media.{has_mid, throttled, stamp, requested, request_keyframe_throttled}

find-update_first {ℓ} :
    {A : Type ℓ} (test : A → Bool) (f : A → A) (xs : List A) (x : A)
    → find test xs ≡ some x
    → ((y : A) → test (f y) ≡ test y)
    → find test (update_first test f xs) ≡ some (f x)
find-update_first test f [] x h same = cc
find-update_first test f (y ∷ xs) x h same = elim (Bool-cases (test y)) [
  | inl here ↦ ground (arith, h, here, same y)
  | inr other ↦ ground (arith, h, other, find-update_first test f xs x)
]

module _ {d : Deps} where
  blocked :
      (at later : ℕ) (m : d.Mid) (kind : KeyframeRequestKind) (q : Peer d) (e : TrackInEntry d)
      → find (has_mid m) q.tracks_in ≡ some e
      → e.last_keyframe_request ≡ some at
      → later - at < secs 1
      → request_keyframe_throttled later m kind q ≡ q
  unfolding request_keyframe_throttled throttled
  blocked at later m kind q e found stamped soon = ground (arith, found, stamped)

  went_through :
      (now : ℕ) (m : d.Mid) (kind : KeyframeRequestKind) (p : Peer d) (e : TrackInEntry d)
      (w : d.Writer)
      → find (has_mid m) p.tracks_in ≡ some e
      → throttled now e ≡ false
      → d.writer p.rtc m ≡ some w
      → (d.request_keyframe w none kind).0 ≡ ok tt
      → (request_keyframe_throttled now m kind p).tracks_in
        ≡ update_first (has_mid m) (stamp now) p.tracks_in
  unfolding request_keyframe_throttled requested
  went_through now m kind p e w found free writer taken = ground (arith, found, free, writer, taken)

  -- Once a request for a publisher's track has gone through, a further one for that track, of any
  -- kind and within a second, changes nothing and does not reach str0m.
  pub keyframe_throttled :
      (now later : ℕ) (m : d.Mid) (kind again : KeyframeRequestKind) (p : Peer d)
      (e : TrackInEntry d) (w : d.Writer)
      → find (has_mid m) p.tracks_in ≡ some e
      → throttled now e ≡ false
      → d.writer p.rtc m ≡ some w
      → (d.request_keyframe w none kind).0 ≡ ok tt
      → later - now < secs 1
      → request_keyframe_throttled later m again (request_keyframe_throttled now m kind p)
        ≡ request_keyframe_throttled now m kind p
  unfolding has_mid stamp
  keyframe_throttled now later m kind again p e w found free writer taken soon =
      blocked now later m again _ (stamp now e)
        (ap (find (has_mid m)) (went_through now m kind p e w found free writer taken)
          ∙ find-update_first (has_mid m) (stamp now) p.tracks_in e found (λ y. refl))
        refl soon

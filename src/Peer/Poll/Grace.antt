-- ===== src/Peer/Poll/Grace.antt =====
-- src/sfu/peer.rs: how long a peer whose ICE is away is waited for.
use ababilx_chat_sfu.Shared.{
  ℕ, ◌-◌, ◌≡◌, refl, ap, Bool, true, false, none, some, List, [], ◌∷◌, leb, All,
}
use ababilx_chat_sfu.Media.{
  Deps, IceConnectionState, ice_new, checking, connected, completed, disconnected,
}
use ababilx_chat_sfu.Peer.{Peer, ice_disconnect_grace, is_abandoned}
use ababilx_chat_sfu.Peer.Poll.{handle_ice_state, first_since}

abbrev pub is_up : IceConnectionState → Bool
is_up connected = true
is_up completed = true
is_up disconnected = false
is_up ice_new = false
is_up checking = false

module _ {d : Deps} where
  -- The states that ICE reports, each with the instant at which it is handled.
  abbrev pub handle_all : List (ℕ × IceConnectionState) → Peer d → Peer d
  handle_all [] p = p
  handle_all ((now, s) ∷ rest) p = handle_all rest (handle_ice_state now s p)

  since-handle_ice_state :
      (now since : ℕ) (s : IceConnectionState) (p : Peer d)
      → is_up s ≡ false
      → p.disconnected_since ≡ some since
      → (handle_ice_state now s p).disconnected_since ≡ some since
  unfolding handle_ice_state first_since
  since-handle_ice_state now since connected p down away = cc
  since-handle_ice_state now since completed p down away = cc
  since-handle_ice_state now since disconnected p down away = ap (first_since now) away
  since-handle_ice_state now since ice_new p down away = away
  since-handle_ice_state now since checking p down away = away

  since-handle_all :
      (since : ℕ) (states : List (ℕ × IceConnectionState)) (p : Peer d)
      → All (λ (x : ℕ × IceConnectionState). is_up x.1 ≡ false) states
      → p.disconnected_since ≡ some since
      → (handle_all states p).disconnected_since ≡ some since
  since-handle_all since [] p down away = away
  since-handle_all since ((now, s) ∷ rest) p down away =
      since-handle_all since rest (handle_ice_state now s p) down.1
        (since-handle_ice_state now since s p down.0 away)

  abandoned_since :
      (since now : ℕ) (p : Peer d)
      → p.disconnected_since ≡ some since
      → is_abandoned p now ≡ leb ice_disconnect_grace (now - since)
  unfolding is_abandoned
  abandoned_since since now p away = rw (away, is_abandoned) refl

  back_up :
      (now back : ℕ) (s : IceConnectionState) (p : Peer d)
      → is_up s ≡ true
      → is_abandoned (handle_ice_state back s p) now ≡ false
  unfolding handle_ice_state is_abandoned
  back_up now back connected p up = refl
  back_up now back completed p up = refl
  back_up now back disconnected p up = cc
  back_up now back ice_new p up = cc
  back_up now back checking p up = cc

  -- A peer whose ICE disconnects is given up from twenty seconds after the first disconnect on, however
  -- often ICE reports the disconnect again, as long as it does not come back; and if it comes back, as
  -- connected or as completed, the peer is not given up.
  pub ice_grace :
      (since now back : ℕ) (states : List (ℕ × IceConnectionState)) (up : IceConnectionState)
      (p : Peer d)
      → p.disconnected_since ≡ none
      → All (λ (x : ℕ × IceConnectionState). is_up x.1 ≡ false) states
      → is_up up ≡ true
      → let q = handle_all states (handle_ice_state since disconnected p) in
        (is_abandoned q now ≡ leb 20_000_000_000 (now - since))
        × (is_abandoned (handle_ice_state back up q) now ≡ false)
  unfolding handle_ice_state first_since
  ice_grace since now back states up p here down returns =
      let q = handle_all states (handle_ice_state since disconnected p) in
      (
        abandoned_since since now q (
            since-handle_all since states (handle_ice_state since disconnected p) down
              (ap (first_since since) here)),
        back_up now back up q returns,
      )

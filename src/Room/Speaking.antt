-- ===== src/Room/Speaking.antt =====
-- src/sfu/room.rs, `sync_speaking`: the list of speakers, and when the room is told of it.
pub mod Sorted
use ababilx_chat_sfu.Shared.{
  ℕ, ◌≡◌, ◌≢◌, ◌⊎◌, ◌↔◌, refl, sym, String, true, false, List, [], ◌∷◌, arith, Bool-cases, inl, inr,
  string_Eq,
}
use ababilx_chat_sfu.Media.{Deps}
use ababilx_chat_sfu.Proto.{ServerMsg}
use ababilx_chat_sfu.Room.{Room, same_texts, speakers, sync_speaking, broadcast}

same_texts_iff : (ss ts : List String) → (same_texts ss ts ≡ true) ↔ (ss ≡ ts)
unfolding same_texts
same_texts_iff [] [] = ground arith
same_texts_iff [] (t ∷ ts) = ground arith
same_texts_iff (s ∷ ss) [] = ground arith
same_texts_iff (s ∷ ss) (t ∷ ts) = ground (arith, same_texts_iff ss ts, string_Eq.matches_iff s t)

module _ {d : Deps} where
  told_again : (now : ℕ) (r : Room d) → r.speaking ≡ speakers now r → sync_speaking now r ≡ (r, [])
  unfolding sync_speaking
  told_again now r same =
      rw ((same_texts_iff (speakers now r) r.speaking).1 (sym same), sync_speaking) refl

  changed :
      (now : ℕ) (r : Room d)
      → same_texts (speakers now r) r.speaking ≡ false
      → sync_speaking now r ≡ (
        record r { speaking = speakers now r },
        broadcast r (ServerMsg.speaking (speakers now r)),
      )
  unfolding sync_speaking
  changed now r new = rw (new, sync_speaking) refl

  -- A call keeps the list of who speaks at the time, and broadcasts it exactly if it has changed. Nothing
  -- else of the room changes, and a second call at the same time changes nothing and is silent.
  pub sync_speaking_lem :
      (now : ℕ) (r : Room d)
      → let (s, fx) = sync_speaking now r in
        (s.speaking ≡ speakers now r)
        × (s ≡ record r { speaking = s.speaking })
        × (((r.speaking ≡ speakers now r) × (fx ≡ []))
            ⊎ ((r.speaking ≢ speakers now r)
                × (fx ≡ broadcast r (ServerMsg.speaking (speakers now r)))))
        × (sync_speaking now s ≡ (s, []))
  unfolding speakers
  sync_speaking_lem now r = elim (Bool-cases (same_texts (speakers now r) r.speaking)) [
    | inl same ↦
        let kept = sym ((same_texts_iff (speakers now r) r.speaking).0 same) in
        rw (told_again now r kept) (kept, refl, inl (kept, refl), told_again now r kept)
    | inr new ↦ rw (changed now r new) (
      refl,
      refl,
      inr (
        λ kept. ground (arith, new, (same_texts_iff (speakers now r) r.speaking).1 (sym kept)),
        refl,
      ),
      told_again now (record r { speaking = speakers now r }) refl,
    )
  ]

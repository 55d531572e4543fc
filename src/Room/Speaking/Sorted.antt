-- ===== src/Room/Speaking/Sorted.antt =====
-- src/sfu/room.rs, `sync_speaking`: the list of speakers is sorted, so it tells who speaks and not in
-- which order the peers are listed.
use ababilx_chat_sfu.Shared.{
  ℕ, ◌+◌, ◌<◌, ◌≡◌, ◌↔◌, refl, ap, ap₂, sym, subst, ◌∙◌, String, true, not, ◌&&◌, List, [], ◌∷◌,
  map, keep, arith, Bool-cases, inl, inr, ◌==◌, string_Eq, bit, All,
}
use ababilx_chat_sfu.Shared.Orders.{at_most, at_most_total, at_most_trans, at_most_antisym}
use ababilx_chat_sfu.Media.{Deps}
use ababilx_chat_sfu.Tracks.{as_string}
use ababilx_chat_sfu.Peer.{Peer, Effect, message, send, is_speaking}
use ababilx_chat_sfu.Proto.{ServerMsg}
use ababilx_chat_sfu.Shared.{ltb, ◌⊎◌, ◌≢◌, gather, none, some, if◌then◌else◌, false, Bool}
use ababilx_chat_sfu.Room.{Room, insert_sorted, sort, speakers, sync_speaking, broadcast}
use ababilx_chat_sfu.Room.Speaking.{sync_speaking_lem}

-- No text stands behind a greater one.
abbrev pub IsSorted : List String → Type 0
IsSorted [] = Unit
IsSorted (s ∷ ss) = All (λ t. at_most s t ≡ true) ss × IsSorted ss

abbrev pub times : String → List String → ℕ
times x [] = 0
times x (s ∷ ss) = bit (s == x) + times x ss

times-All : (P : String → Type 0) (x : String) (ss : List String) → All P ss → 0 < times x ss → P x
times-All P x [] h k = absurd (omega (arith, k))
times-All P x (s ∷ ss) h k = elim (Bool-cases (s == x)) [
  | inl same ↦ subst P ((string_Eq.matches_iff s x).0 same) h.0
  | inr other ↦ times-All P x ss h.1 (ground (arith, k, other))
]

All-at_most :
    (s t : String) (ss : List String)
    → at_most s t ≡ true
    → All (λ u. at_most t u ≡ true) ss
    → All (λ u. at_most s u ≡ true) ss
All-at_most s t [] h k = tt
All-at_most s t (u ∷ ss) h k = (at_most_trans s t u h k.0, All-at_most s t ss h k.1)

times-insert_sorted :
    (x s : String) (ss : List String) → times x (insert_sorted s ss) ≡ times x (s ∷ ss)
unfolding insert_sorted at_most
times-insert_sorted x s [] = refl
times-insert_sorted x s (t ∷ ss) = elim (Bool-cases (at_most s t)) [
  | inl y ↦ rw y refl
  | inr n ↦ rw n (omega (arith, times-insert_sorted x s ss))
]

All-insert_sorted :
    (P : String → Type 0) (s : String) (ss : List String)
    → P s
    → All P ss
    → All P (insert_sorted s ss)
unfolding insert_sorted at_most
All-insert_sorted P s [] p h = (p, tt)
All-insert_sorted P s (t ∷ ss) p h = elim (Bool-cases (at_most s t)) [
  | inl y ↦ rw y (p, h)
  | inr n ↦ rw n (h.0, All-insert_sorted P s ss p h.1)
]

insert_sorted-IsSorted :
    (s : String) (ss : List String) → IsSorted ss → IsSorted (insert_sorted s ss)
unfolding insert_sorted at_most
insert_sorted-IsSorted s [] h = (tt, tt)
insert_sorted-IsSorted s (t ∷ ss) h = elim (Bool-cases (at_most s t)) [
  | inl y ↦ rw y ((y, All-at_most s t ss y h.0), h)
  | inr n ↦ rw n (
    All-insert_sorted (λ u. at_most t u ≡ true) s ss (at_most_total s t n) h.0,
    insert_sorted-IsSorted s ss h.1,
  )
]

sort-IsSorted : (ss : List String) → IsSorted (sort ss)
unfolding sort
sort-IsSorted [] = tt
sort-IsSorted (s ∷ ss) = insert_sorted-IsSorted s (sort ss) (sort-IsSorted ss)

pub All-sort : (P : String → Type 0) (ss : List String) → All P ss → All P (sort ss)
unfolding sort
All-sort P [] h = tt
All-sort P (s ∷ ss) h = All-insert_sorted P s (sort ss) h.0 (All-sort P ss h.1)

times-sort : (x : String) (ss : List String) → times x (sort ss) ≡ times x ss
unfolding sort
times-sort x [] = refl
times-sort x (s ∷ ss) =
    times-insert_sorted x s (sort ss) ∙ ap (λ n. bit (s == x) + n) (times-sort x ss)

-- The first text of a sorted list is at most any text of it.
IsSorted-first :
    (s x : String) (ss : List String)
    → IsSorted (s ∷ ss)
    → 0 < times x (s ∷ ss)
    → at_most s x ≡ true
IsSorted-first s x ss h k = elim (Bool-cases (s == x)) [
  | inl same ↦ subst (λ u. at_most s u ≡ true) ((string_Eq.matches_iff s x).0 same) (itself s)
  | inr other ↦ times-All (λ t. at_most s t ≡ true) x ss h.0 (ground (arith, k, other))
]
  where
    itself : (s : String) → at_most s s ≡ true
    itself s = elim (Bool-cases (at_most s s)) [ inl y ↦ y | inr n ↦ at_most_total s s n ]

times-first : (s : String) (ss : List String) → 0 < times s (s ∷ ss)
times-first s ss = ground (arith, (string_Eq.matches_iff s s).1 refl)

-- A sorted list is known by how often each text is in it.
IsSorted-unique :
    (ss ts : List String)
    → IsSorted ss
    → IsSorted ts
    → ((x : String) → times x ss ≡ times x ts)
    → ss ≡ ts
IsSorted-unique [] [] h k same = refl
IsSorted-unique [] (t ∷ ts) h k same = absurd (omega (arith, same t, times-first t ts))
IsSorted-unique (s ∷ ss) [] h k same = absurd (omega (arith, same s, times-first s ss))
IsSorted-unique (s ∷ ss) (t ∷ ts) h k same =
    let first : s ≡ t =
      at_most_antisym s t (IsSorted-first s t ss h (omega (arith, same t, times-first t ts)))
        (IsSorted-first t s ts k (omega (arith, same s, times-first s ss))) in
    let rest : (x : String) → times x ss ≡ times x ts =
      λ x. let heads = ap (λ u. bit (u == x)) first in omega (arith, same x, heads) in
    ap₂ (λ a l. a ∷ l) first (IsSorted-unique ss ts h.1 k.1 rest)

module _ {d : Deps} where
  -- Not muted, and heard until later than now.
  abbrev pub is_heard : ℕ → Peer d → Bool
  is_heard now p =
      if p.muted then false else elim p.speaking_until [ none ↦ false | some until ↦ ltb now until ]

  -- The peers that are heard, as the room lists them.
  abbrev ids_heard : ℕ → List (Peer d) → List String
  ids_heard now [] = []
  ids_heard now (p ∷ ps) =
      if is_heard now p then as_string p.id ∷ ids_heard now ps else ids_heard now ps

  abbrev pub spoken : ℕ → Room d → List String
  spoken now r = ids_heard now r.peers

  speaking_ids :
      (now : ℕ) (ps : List (Peer d))
      → map (λ (p : Peer d). as_string p.id) (keep (λ p. not p.muted && is_speaking p now) ps)
        ≡ ids_heard now ps
  unfolding is_speaking
  speaking_ids now [] = refl
  speaking_ids now (p ∷ ps) = ground (arith, speaking_ids now ps)

  pub times-speakers :
      (now : ℕ) (r : Room d) (x : String) → times x (speakers now r) ≡ times x (spoken now r)
  unfolding speakers
  times-speakers now r x = times-sort x _ ∙ ap (times x) (speaking_ids now r.peers)

  pub speakers-IsSorted : (now : ℕ) (r : Room d) → IsSorted (speakers now r)
  unfolding speakers
  speakers-IsSorted now r = sort-IsSorted _

  -- The list names those who are heard, and each as often.
  abbrev pub Names : List String → ℕ → Room d → Type 0
  Names ss now r = (x : String) → times x ss ≡ times x (spoken now r)

  speakers_iff :
      (now : ℕ) (r : Room d)
      → IsSorted r.speaking
      → (r.speaking ≡ speakers now r) ↔ Names r.speaking now r
  speakers_iff now r sorted = (
    λ same x. ap (times x) same ∙ times-speakers now r x,
    λ same.
        IsSorted-unique r.speaking (speakers now r) sorted (speakers-IsSorted now r)
          (λ x. same x ∙ sym (times-speakers now r x)),
  )

  -- One frame to every peer, in their order.
  abbrev frames : ServerMsg → List (Peer d) → List (Effect d)
  frames m ps = map (λ (p : Peer d). message p.out m) ps

  broadcast-frames : (r : Room d) (m : ServerMsg) → broadcast r m ≡ frames m r.peers
  unfolding broadcast send
  broadcast-frames r m = go r.peers
    where
      go : (ps : List (Peer d)) → gather (λ p. send p m) ps ≡ frames m ps
      go [] = refl
      go (p ∷ ps) = ap (λ l. message p.out m ∷ l) (go ps)

  abbrev pub Told : Room d → List String → List (Effect d) → Type 0
  Told r ss fx = fx ≡ map (λ (p : Peer d). message p.out (ServerMsg.speaking ss)) r.peers

  sync_speaking_cases :
      (now : ℕ) (r : Room d) (ss : List String) (fx : List (Effect d))
      → IsSorted r.speaking
      → ss ≡ speakers now r
      → ((r.speaking ≡ speakers now r) × (fx ≡ []))
        ⊎ ((r.speaking ≢ speakers now r) × (fx ≡ broadcast r (ServerMsg.speaking (speakers now r))))
      → (Names r.speaking now r × (fx ≡ [])) ⊎ (¬ Names r.speaking now r × Told r ss fx)
  sync_speaking_cases now r ss fx sorted same (inl (kept, quiet)) =
      inl ((speakers_iff now r sorted).0 kept, quiet)
  sync_speaking_cases now r ss fx sorted same (inr (new, news)) = inr (
    λ named. new ((speakers_iff now r sorted).1 named),
    news
        ∙ ap (λ l. broadcast r (ServerMsg.speaking l)) (sym same)
        ∙ broadcast-frames r (ServerMsg.speaking ss),
  )

  -- Of a room whose list of speakers is sorted, a call makes a sorted list that names those who are
  -- heard and are not muted, each as often as the room has them, and changes nothing else. If the list
  -- named them before, nobody is told, in whatever order the room lists its peers; if not, every peer
  -- is sent the new list, once. A second call at the same time changes nothing and is silent.
  pub sync_speaking_iff :
      (now : ℕ) (r : Room d)
      → IsSorted r.speaking
      → let (s, fx) = sync_speaking now r in
        IsSorted s.speaking
        × Names s.speaking now r
        × (s ≡ record r { speaking = s.speaking })
        × ((Names r.speaking now r × (fx ≡ [])) ⊎ (¬ Names r.speaking now r × Told r s.speaking fx))
        × (sync_speaking now s ≡ (s, []))
  sync_speaking_iff now r sorted =
      let (s, fx) = sync_speaking now r in
      let (listed, same, news, again) = sync_speaking_lem now r in
      (
        subst IsSorted (sym listed) (speakers-IsSorted now r),
        λ x. ap (times x) listed ∙ times-speakers now r x,
        same,
        sync_speaking_cases now r s.speaking fx sorted listed news,
        again,
      )

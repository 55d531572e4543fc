-- ===== src/Hall/Sit.antt =====
-- A peer that enters a room keeps the view consistent.
use ababilx_chat_sfu.Shared.{All-keep}
use ababilx_chat_sfu.Shared.{
  ℕ, suc, ◌<◌, ◌≤◌, ◌≡◌, ◌≢◌, refl, sym, String, Bool, true, false, not, some, List, [], ◌∷◌, ◌++◌,
  arith, if◌then◌else◌, ◌==◌, nat_Eq, string_Eq, length, length-append, length-keep-le, All, keep,
  Bool-cases, inl, inr,
}
use ababilx_chat_sfu.Hall.{
  Seat, of_user, seated, sit, Distinct, Below, Hall, IsConsistent, enter_hall,
}
use ababilx_chat_sfu.Hall.Vacate.{seated-none, ids_ne}

All-append-one :
    (P : Seat → Type 0) (seats : List Seat) (s : Seat) → All P seats → P s → All P (seats ++ s ∷ [])
All-append-one P [] s h p = (p, tt)
All-append-one P (t ∷ seats) s h p = (h.0, All-append-one P seats s h.1 p)

Distinct-keep :
    (test : Seat → Bool) (seats : List Seat) → Distinct seats → Distinct (keep test seats)
Distinct-keep test [] h = tt
Distinct-keep test (s ∷ seats) h = elim (Bool-cases (test s)) [
  | inl e ↦
      rw e (All-keep (λ t. (t.0 ≢ s.0) × (t.1 ≢ s.1)) test seats h.0, Distinct-keep test seats h.1)
  | inr e ↦ rw e (Distinct-keep test seats h.1)
]

Distinct-append-one :
    (seats : List Seat) (s : Seat)
    → Distinct seats
    → All (λ (t : Seat). (t.0 ≢ s.0) × (t.1 ≢ s.1)) seats
    → Distinct (seats ++ s ∷ [])
Distinct-append-one [] s h a = (tt, tt)
Distinct-append-one (t ∷ seats) s h a = (
  All-append-one (λ u. (u.0 ≢ t.0) × (u.1 ≢ t.1)) seats s h.0
      ((λ e. a.0.0 (sym e)), (λ e. a.0.1 (sym e))),
  Distinct-append-one seats s h.1 a.1,
)

others_differ :
    (id : ℕ) (user : String) (seats : List Seat)
    → Below id seats
    → All (λ (t : Seat). (t.0 ≢ id) × (t.1 ≢ user)) (keep (λ s. not (of_user user s)) seats)
others_differ id user [] b = tt
others_differ id user (s ∷ seats) b = elim (Bool-cases (of_user user s)) [
  | inl e ↦ rw e (others_differ id user seats b.1)
  | inr e ↦ rw e (
    (omega arith, (λ p. ground (arith, string_Eq.matches_iff s.1 user))),
    others_differ id user seats b.1,
  )
]

pub Distinct-sit :
    (id : ℕ) (user : String) (seats : List Seat)
    → Distinct seats
    → Below id seats
    → Distinct (sit id user seats)
Distinct-sit id user seats h b =
    Distinct-append-one (keep (λ s. not (of_user user s)) seats) (id, user)
      (Distinct-keep (λ s. not (of_user user s)) seats h) (others_differ id user seats b)

pub seated-append-one :
    (j : ℕ) (seats : List Seat) (s : Seat)
    → seated j (seats ++ s ∷ []) ≡ (if s.0 == j then true else seated j seats)
seated-append-one j [] s = refl
seated-append-one j (t ∷ seats) s = ground (arith, seated-append-one j seats s)

-- Of distinct seats, a kept one is not among those that are given up.
seated-keep-not :
    (j : ℕ) (user : String) (seats : List Seat)
    → Distinct seats
    → seated j (keep (λ s. not (of_user user s)) seats)
      ≡ (if seated j (keep (of_user user) seats) then false else seated j seats)
seated-keep-not j user [] h = refl
seated-keep-not j user (s ∷ seats) h = ground (
  arith,
  seated-keep-not j user seats h.1,
  seated-none s.0 (keep (of_user user) seats)
      (All-keep (λ t. t.0 ≢ s.0) (of_user user) seats (ids_ne s seats h.0)),
  seated-none s.0 seats (ids_ne s seats h.0),
)

seated-keep :
    (j : ℕ) (test : Seat → Bool) (seats : List Seat)
    → seated j (keep test seats) ≡ true
    → seated j seats ≡ true
seated-keep j test [] h = h
seated-keep j test (s ∷ seats) h = ground (arith, seated-keep j test seats)

pub seated-Below : (j n : ℕ) (seats : List Seat) → Below n seats → seated j seats ≡ true → j < n
seated-Below j n [] b h = ground arith
seated-Below j n (s ∷ seats) b h = ground (arith, seated-Below j n seats b.1)

pub seated-sit :
    (id j : ℕ) (user : String) (seats : List Seat)
    → Distinct seats
    → seated j (sit id user seats) ≡ (
        if id == j
        then true
        else if seated j (keep (of_user user) seats)
        then false
        else seated j seats)
seated-sit id j user seats h = ground (
  arith,
  seated-append-one j (keep (λ s. not (of_user user s)) seats) (id, user),
  seated-keep-not j user seats h,
)

Below-suc : (n : ℕ) (seats : List Seat) → Below n seats → Below (suc n) seats
Below-suc n [] b = tt
Below-suc n (s ∷ seats) b = (omega arith, Below-suc n seats b.1)

-- An id that is drawn and not used.
pub IsConsistent-suc :
    (max next : ℕ) (h : Hall) → IsConsistent max next h → IsConsistent max (suc next) h
IsConsistent-suc max next h c = record {
  distinct = c.distinct;
  bounded = c.bounded;
  below = λ m. Below-suc next (h.members m) (c.below m);
  listed = c.listed;
  known = c.known;
}

length-sit-le :
    (id : ℕ) (user : String) (seats : List Seat) → length (sit id user seats) ≤ suc (length seats)
length-sit-le id user seats = omega (
  arith,
  length-append {0} (keep (λ s. not (of_user user s)) seats) ((id, user) ∷ []),
  length-keep-le {0} (λ s. not (of_user user s)) seats,
)

module _ (max next : ℕ) (user name : String) (h : Hall) (c : IsConsistent max next h)
    (room : length (h.members name) < max) where
  entered_ok : (m : String) → Distinct ((enter_hall next user name h).members m)
  entered_ok m = elim (Bool-cases (name == m)) [
    | inl e ↦ rw e (Distinct-sit next user (h.members m) (c.distinct m) (c.below m))
    | inr e ↦ rw e (c.distinct m)
  ]

  entered_bounded : (m : String) → length ((enter_hall next user name h).members m) ≤ max
  entered_bounded m = elim (Bool-cases (name == m)) [
    | inl e ↦
        let q = (string_Eq.matches_iff name m).0 e in
        rw (e, ← q) (omega (arith, length-sit-le next user (h.members name)))
    | inr e ↦ rw e (c.bounded m)
  ]

  entered-Below : (m : String) → Below (suc next) ((enter_hall next user name h).members m)
  entered-Below m = elim (Bool-cases (name == m)) [
    | inl e ↦ rw e (
        All-append-one (λ s. s.0 < suc next) (keep (λ s. not (of_user user s)) (h.members m))
          (next, user)
          (All-keep (λ s. s.0 < suc next) (λ s. not (of_user user s)) (h.members m)
            (Below-suc next (h.members m) (c.below m)))
          (omega arith))
    | inr e ↦ rw e (Below-suc next (h.members m) (c.below m))
  ]

  entered_listed :
      (m : String) (j : ℕ)
      → seated j ((enter_hall next user name h).members m) ≡ true
      → (enter_hall next user name h).home j ≡ some m
  entered_listed m j s = ground (
    arith,
    string_Eq.matches_iff name m,
    seated-sit next j user (h.members m) (c.distinct m),
    seated-keep j (of_user user) (h.members name),
    seated-Below j next (h.members m) (c.below m),
    c.listed m j,
    c.listed name j,
  )

  entered_known :
      (m : String) (j : ℕ)
      → (enter_hall next user name h).home j ≡ some m
      → seated j ((enter_hall next user name h).members m) ≡ true
  entered_known m j s = ground (
    arith,
    string_Eq.matches_iff name m,
    seated-sit next j user (h.members m) (c.distinct m),
    c.known m j,
  )

  pub enter_hall-IsConsistent : IsConsistent max (suc next) (enter_hall next user name h)
  enter_hall-IsConsistent = record {
    distinct = entered_ok;
    bounded = entered_bounded;
    below = entered-Below;
    listed = entered_listed;
    known = entered_known;
  }

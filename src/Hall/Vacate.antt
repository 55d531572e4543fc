-- ===== src/Hall/Vacate.antt =====
-- A peer that leaves keeps the view consistent.
use ababilx_chat_sfu.Shared.{
  ℕ, ◌<◌, ◌≤◌, ◌≡◌, ◌≢◌, refl, false, List, [], ◌∷◌, arith, if◌then◌else◌, ◌==◌, nat_Eq, length,
  All, Bool-cases, inl, inr,
}
use ababilx_chat_sfu.Hall.{Seat, seated, vacate, Distinct, Hall, IsConsistent, leave_hall}

pub All-vacate :
    (P : Seat → Type 0) (id : ℕ) (seats : List Seat) → All P seats → All P (vacate id seats)
All-vacate P id [] h = tt
All-vacate P id (s ∷ seats) h = ground (arith, All-vacate P id seats h.1)

pub Distinct-vacate : (id : ℕ) (seats : List Seat) → Distinct seats → Distinct (vacate id seats)
Distinct-vacate id [] h = tt
Distinct-vacate id (s ∷ seats) h = elim (Bool-cases (s.0 == id)) [
  | inl e ↦ rw e h.1
  | inr e ↦
      rw e (All-vacate (λ t. (t.0 ≢ s.0) × (t.1 ≢ s.1)) id seats h.0, Distinct-vacate id seats h.1)
]

length-vacate-le : (id : ℕ) (seats : List Seat) → length (vacate id seats) ≤ length seats
length-vacate-le id [] = omega arith
length-vacate-le id (s ∷ seats) = ground (arith, length-vacate-le id seats)

-- An id that none of the seats has.
pub seated-none :
    (id : ℕ) (seats : List Seat) → All (λ (t : Seat). t.0 ≢ id) seats → seated id seats ≡ false
seated-none id [] h = refl
seated-none id (s ∷ seats) h = ground (arith, seated-none id seats h.1)

pub ids_ne :
    (s : Seat) (seats : List Seat)
    → All (λ (t : Seat). (t.0 ≢ s.0) × (t.1 ≢ s.1)) seats
    → All (λ (t : Seat). t.0 ≢ s.0) seats
ids_ne s [] h = tt
ids_ne s (t ∷ seats) h = (h.0.0, ids_ne s seats h.1)

pub seated-vacate :
    (id j : ℕ) (seats : List Seat)
    → Distinct seats
    → seated j (vacate id seats) ≡ (if id == j then false else seated j seats)
seated-vacate id j [] h = ground arith
seated-vacate id j (s ∷ seats) h =
    ground (arith, seated-vacate id j seats h.1, seated-none s.0 seats (ids_ne s seats h.0))

pub vacate_absent : (id : ℕ) (seats : List Seat) → seated id seats ≡ false → vacate id seats ≡ seats
vacate_absent id [] h = refl
vacate_absent id (s ∷ seats) h = ground (arith, vacate_absent id seats)

pub leave_hall-IsConsistent :
    (max next id : ℕ) (h : Hall) → IsConsistent max next h → IsConsistent max next (leave_hall id h)
leave_hall-IsConsistent max next id h c = record {
  distinct = λ m. Distinct-vacate id (h.members m) (c.distinct m);
  bounded = λ m. omega (arith, length-vacate-le id (h.members m), c.bounded m);
  below = λ m. All-vacate (λ (s : Seat). s.0 < next) id (h.members m) (c.below m);
  listed = λ m j e. ground (arith, seated-vacate id j (h.members m) (c.distinct m), c.listed m j);
  known = λ m j e. ground (arith, seated-vacate id j (h.members m) (c.distinct m), c.known m j);
}

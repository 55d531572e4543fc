-- ===== src/Hall.antt =====
-- An abstract view of the rooms: who sits in which room, and in which room a peer id sits. It forgets
-- all of a peer but its id and its user. `Engine.Seats` gives the view of an engine.
pub mod Vacate
pub mod Sit
use ababilx_chat_sfu.Shared.{
  ℕ, ◌<◌, ◌≤◌, ◌≡◌, ◌≢◌, String, Bool, true, not, Option, none, some, List, [], ◌∷◌, ◌++◌, map,
  if◌then◌else◌, ◌==◌, nat_Eq, string_Eq, length, All, any, keep, remove_first,
}

-- A peer id and its user.
abbrev pub Seat : Type 0
Seat = ℕ × String

abbrev pub at_seat : ℕ → Seat → Bool
at_seat id s = s.0 == id

abbrev pub of_user : String → Seat → Bool
of_user user s = s.1 == user

abbrev pub seated : ℕ → List Seat → Bool
seated id = any (at_seat id)

-- The seat of `id` is given up.
abbrev pub vacate : ℕ → List Seat → List Seat
vacate id = remove_first (at_seat id)

-- `user` sits down as `id`, and every other seat of `user` is given up.
abbrev pub sit : ℕ → String → List Seat → List Seat
sit id user seats = keep (λ s. not (of_user user s)) seats ++ (id, user) ∷ []

-- No two seats share an id or a user.
abbrev pub Distinct : List Seat → Type 0
Distinct [] = Unit
Distinct (s ∷ seats) = All (λ (t : Seat). (t.0 ≢ s.0) × (t.1 ≢ s.1)) seats × Distinct seats

abbrev pub Below : ℕ → List Seat → Type 0
Below n = All (λ (s : Seat). s.0 < n)

pub record Hall : Type 0 where
  pub members : String → List Seat
  pub home : ℕ → Option String

-- The rooms hold at most `max` seats, no id or user twice and no id from `next` on; `home` is the
-- index of the rooms by id.
pub record IsConsistent (max next : ℕ) (h : Hall) : Type 0 where
  pub distinct : (m : String) → Distinct (h.members m)
  pub bounded : (m : String) → length (h.members m) ≤ max
  pub below : (m : String) → Below next (h.members m)
  pub listed : (m : String) (j : ℕ) → seated j (h.members m) ≡ true → h.home j ≡ some m
  pub known : (m : String) (j : ℕ) → h.home j ≡ some m → seated j (h.members m) ≡ true

-- A peer goes, wherever it sits.
abbrev pub leave_hall : ℕ → Hall → Hall
leave_hall id h = record {
  members = λ m. vacate id (h.members m);
  home = λ j. if id == j then none else h.home j;
}

-- A peer `id` of `user` enters the room `name`. The user's other peers there lose their homes.
abbrev pub enter_hall : ℕ → String → String → Hall → Hall
enter_hall id user name h = record {
  members = λ m. if name == m then sit id user (h.members m) else h.members m;
  home = λ j.
      if id == j
      then some name
      else if seated j (keep (of_user user) (h.members name))
      then none
      else h.home j;
}

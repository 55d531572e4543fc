-- ===== src/Engine/Accounts.antt =====
-- What the host application has been told of a user in a room, against who is there: how many
-- arrivals, how many departures, and how many peers whose arrival was reported.
pub mod Polls
pub mod Commands
pub mod Leaves
pub mod Joins
pub mod Arrivals
pub mod Turns
use mathlib.Core.Option
use ababilx_chat_sfu.Shared.{
  ℕ, ◌+◌, ◌≤◌, ◌≡◌, refl, ap, sym, ◌∙◌, String, Bool, true, false, ◌&&◌, Option, none, some, List,
  [], ◌∷◌, ◌++◌, arith, ◌==◌, string_Eq, bit, lookup,
}
use ababilx_chat_sfu.Media.{Deps}
use ababilx_chat_sfu.Report.{ReportParticipant}
use ababilx_chat_sfu.Room.{Room}
use ababilx_chat_sfu.Engine.{Engine}
use ababilx_chat_sfu.Engine.Told.{Notice, told}
use ababilx_chat_sfu.Engine.Cards.{Card, cards_of}

abbrev pub names : String → Option ReportParticipant → Bool
names user none = false
names user (some p) = p.identity == user

-- An event about a user in a room.
abbrev pub is_about : (event room user : String) → Notice → Bool
is_about event room user n = (n.event == event) && ((n.room == room) && names user n.participant)

-- How often the event about the user in the room is told.
abbrev pub tally : (event room user : String) → List Notice → ℕ
tally event room user [] = 0
tally event room user (n ∷ ns) = bit (is_about event room user n) + tally event room user ns

pub tally-append :
    (event room user : String) (ns more : List Notice)
    → tally event room user (ns ++ more) ≡ tally event room user ns + tally event room user more
tally-append event room user [] more = omega arith
tally-append event room user (n ∷ ns) more = omega (arith, tally-append event room user ns more)

-- A reported peer of the user.
abbrev pub is_reported : String → Card → Bool
is_reported user c = c.2 && (c.1 == user)

abbrev pub reported_in : String → List Card → ℕ
reported_in user [] = 0
reported_in user (c ∷ cs) = bit (is_reported user c) + reported_in user cs

abbrev pub reported_among : String → Option (List Card) → ℕ
reported_among user none = 0
reported_among user (some cs) = reported_in user cs

module _ {d : Deps} where
  -- The departures and the arrivals that the host was told of.
  abbrev pub departures_told : (room user : String) → Engine d → ℕ
  departures_told room user e = tally "participant_left" room user (told e.log)

  abbrev pub arrivals_told : (room user : String) → Engine d → ℕ
  arrivals_told room user e = tally "participant_joined" room user (told e.log)

  -- The user's peers in the room whose arrival was reported.
  abbrev pub staying : (room user : String) → Engine d → ℕ
  staying room user e = reported_among user (Option.map cards_of (lookup room e.rooms))

  -- From `e` to `f`, what was told covers what changed.
  pub record Balances (e f : Engine d) : Type 0 where
    pub covered :
        (room user : String)
        → departures_told room user f + staying room user f + arrivals_told room user e
          ≤ departures_told room user e + staying room user e + arrivals_told room user f

  pub Balances-refl : (e : Engine d) → Balances e e
  Balances-refl e = record { covered = λ room user. omega arith }

  pub Balances-trans : {e f g : Engine d} → Balances e f → Balances f g → Balances e g
  Balances-trans b c = record {
    covered = λ room user. omega (arith, b.covered room user, c.covered room user);
  }

  -- Nobody comes or goes, and what is told is about something else.
  pub Balances-other :
      {e f : Engine d} (ns : List Notice)
      → told f.log ≡ told e.log ++ ns
      → ((room user : String) → tally "participant_left" room user ns ≡ 0)
      → ((m : String)
          → Option.map cards_of (lookup m f.rooms) ≡ Option.map cards_of (lookup m e.rooms))
      → Balances e f
  Balances-other {e} {f} ns news no_left same = record {
    covered = λ room user.
        let l =
          ap (tally "participant_left" room user) news
          ∙ tally-append "participant_left" room user (told e.log) ns in
        let j =
          ap (tally "participant_joined" room user) news
          ∙ tally-append "participant_joined" room user (told e.log) ns in
        let s = ap (reported_among user) (same room) in omega (arith, l, j, s, no_left room user);
  }

  -- Nobody comes or goes, and nothing is told.
  pub Balances-same :
      {e f : Engine d}
      → told f.log ≡ told e.log
      → ((m : String)
          → Option.map cards_of (lookup m f.rooms) ≡ Option.map cards_of (lookup m e.rooms))
      → Balances e f
  Balances-same {e} {f} news same = record {
    covered = λ room user.
        let l = ap (tally "participant_left" room user) news in
        let j = ap (tally "participant_joined" room user) news in
        let s = ap (reported_among user) (same room) in omega (arith, l, j, s);
  }

-- ===== src/Engine/Run/Deeds.antt =====
-- src/sfu/engine.rs, `Engine::run`: what the loop has to do, in order, by what comes from outside.
use mathlib.Core.List.{append_assoc, append-nil}
use ababilx_chat_sfu.Shared.{
  ℕ, ◌≡◌, refl, ap, ap₂, sym, ◌∙◌, Bool, true, false, Option, List, [], ◌∷◌, ◌++◌, map,
  if◌then◌else◌,
}
use ababilx_chat_sfu.Media.{Deps, Driver}
use ababilx_chat_sfu.Engine.{Engine, Command, join, answer, mute, screen, leave, shutdown}
use ababilx_chat_sfu.Engine.Dispatch.{QueueEnd, empty, disconnected}
use ababilx_chat_sfu.Engine.Turn.{
  Step, Reach, here, next, command, poll, arrive, sweep, speak, read, tell,
}
use ababilx_chat_sfu.Engine.Run.{Inputs}

-- A part of a turn with the instant at which it is done.
pub data Deed (d : Deps) : Type 0 where
  carried_out : (now : ℕ) → Command → Deed d
  polled swept ticked told_time : (now : ℕ) → Deed d
  reported : Deed d
  received : (now : ℕ) → Option (d.Address × d.Contents) → Deed d

-- The commands before a shutdown.
abbrev pub before_shutdown : List Command → List Command
before_shutdown [] = []
before_shutdown (join q ∷ cs) = join q ∷ before_shutdown cs
before_shutdown (answer peer sdp ∷ cs) = answer peer sdp ∷ before_shutdown cs
before_shutdown (mute peer muted ∷ cs) = mute peer muted ∷ before_shutdown cs
before_shutdown (screen peer active ∷ cs) = screen peer active ∷ before_shutdown cs
before_shutdown (leave peer ∷ cs) = leave peer ∷ before_shutdown cs
before_shutdown (shutdown ∷ cs) = []

-- A shutdown is among the commands, or nobody is left to send any.
abbrev pub is_ended : List Command → QueueEnd → Bool
is_ended [] empty = false
is_ended [] disconnected = true
is_ended (join q ∷ cs) end = is_ended cs end
is_ended (answer peer sdp ∷ cs) end = is_ended cs end
is_ended (mute peer muted ∷ cs) end = is_ended cs end
is_ended (screen peer active ∷ cs) end = is_ended cs end
is_ended (leave peer ∷ cs) end = is_ended cs end
is_ended (shutdown ∷ cs) end = true

module _ {d : Deps} where
  -- Behind the polling. A socket that takes no timeout ends the loop.
  abbrev pub later_deeds : Inputs d → List (Deed d)
  later_deeds t =
      reported
      ∷ swept t.swept_at
      ∷ ticked t.spoken_at
      ∷ (if t.timeout_set then received t.read_at t.got ∷ told_time t.told_at ∷ [] else [])

  -- What a turn has to do: the commands, and unless the loop is to end, all the rest in this order.
  abbrev pub turn_deeds : Inputs d → List (Deed d)
  turn_deeds t =
      map (carried_out t.drained_at) (before_shutdown t.commands)
      ++ (if is_ended t.commands t.queue_end then [] else polled t.polled_at ∷ later_deeds t)

  abbrev pub goes_on : Inputs d → Bool
  goes_on t = if is_ended t.commands t.queue_end then false else t.timeout_set

  -- What the loop has to do: turn by turn, up to the turn that ends it.
  abbrev pub loop_deeds : List (Inputs d) → List (Deed d)
  loop_deeds [] = []
  loop_deeds (t ∷ ts) = turn_deeds t ++ (if goes_on t then loop_deeds ts else [])

module _ {d : Deps} (v : Driver d) where
  abbrev pub deed : {e f : Engine d} → Step v e f → Deed d
  deed (command now c left) = carried_out now c
  deed (poll fuel now wake done) = polled now
  deed arrive = reported
  deed (sweep now) = swept now
  deed (speak now) = ticked now
  deed (read now got) = received now got
  deed (tell now) = told_time now

  abbrev pub deeds : {e f : Engine d} → Reach v e f → List (Deed d)
  deeds here = []
  deeds (next r s) = deeds r ++ deed s ∷ []

  -- Steps lead from `e` to `f`, and these are their deeds.
  abbrev pub Does : Engine d → List (Deed d) → Engine d → Type 0
  Does e ds f = (r : Reach v e f) × (deeds r ≡ ds)

  joined_ways :
      {e f g : Engine d} (r : Reach v e f) (s : Reach v f g)
      → (t : Reach v e g) × (deeds t ≡ deeds r ++ deeds s)
  joined_ways r here = (r, sym (append-nil (deeds r)))
  joined_ways r (next s x) =
      let (t, same) = joined_ways r s in
      (next t x, ap (λ l. l ++ deed x ∷ []) same ∙ append_assoc (deeds r) (deeds s) (deed x ∷ []))

  pub Does-none : {e : Engine d} → Does e [] e
  Does-none = (here, refl)

  pub Does-one : {e f : Engine d} (s : Step v e f) → Does e (deed s ∷ []) f
  Does-one s = (next here s, refl)

  pub Does-append :
      {e f g : Engine d} {first_deeds later : List (Deed d)}
      → Does e first_deeds f
      → Does f later g
      → Does e (first_deeds ++ later) g
  Does-append (r, a) (s, b) = let (t, same) = joined_ways r s in (t, same ∙ ap₂ (λ x y. x ++ y) a b)

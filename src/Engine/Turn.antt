-- ===== src/Engine/Turn.antt =====
-- src/sfu/engine.rs, `Engine::run`: what the media loop may do, step by step, and what holds of every
-- engine that it reaches. Which commands, packets and instants come is the environment's choice.
use ababilx_chat_sfu.Shared.{ℕ, ◌+◌, ◌<◌, ◌≡◌, Option, some, arith, lookup, nat_Eq, string_Eq}
use ababilx_chat_sfu.Media.{Deps, Driver}
use ababilx_chat_sfu.Config.{Config}
use ababilx_chat_sfu.Engine.{Engine, Command, spawn}
use ababilx_chat_sfu.Engine.Seats.{IsValid, SameSeats-IsValid}
use ababilx_chat_sfu.Engine.Join.{u64_mod, reap}
use ababilx_chat_sfu.Engine.Join.Leave.{reap-IsValid}
use ababilx_chat_sfu.Engine.Dispatch.{apply}
use ababilx_chat_sfu.Engine.Dispatch.Keeps.{apply-IsValid}
use ababilx_chat_sfu.Engine.Ticks.{report_connections, tick_speaking}
use ababilx_chat_sfu.Engine.Ticks.Keeps.{report_connections-SameSeats, tick_speaking-SameSeats}
use ababilx_chat_sfu.Engine.Io.{poll_rooms, read_once, tell_time}
use ababilx_chat_sfu.Engine.Io.Seats.{
  poll_rooms-SameSeats, read_once-SameSeats, tell_time-SameSeats,
}

module _ {d : Deps} (v : Driver d) where
  -- A part of a turn. A command is taken while peer ids are left.
  pub data Step (e : Engine d) : Engine d → Type 0 where
    command : (now : ℕ) (c : Command) → e.next_peer + 1 < u64_mod → Step e (apply now c e)
    poll : (fuel now wake : ℕ) {f : Engine d} → poll_rooms v fuel now e ≡ some (f, wake) → Step e f
    arrive : Step e (report_connections e)
    sweep : (now : ℕ) → Step e (reap now e)
    speak : (now : ℕ) → Step e (tick_speaking now e)
    read : (now : ℕ) (got : Option (d.Address × d.Contents)) → Step e (read_once v now got e)
    tell : (now : ℕ) → Step e (tell_time v now e)

  pub data Reach (e : Engine d) : Engine d → Type 0 where
    here : Reach e e
    next : {f g : Engine d} → Reach e f → Step f g → Reach e g

  pub Step-IsValid : {e f : Engine d} → Step e f → IsValid e → IsValid f
  Step-IsValid {e} (command now c left) h = apply-IsValid now c e h left
  Step-IsValid {e} (poll fuel now wake {f} done) h =
      SameSeats-IsValid (poll_rooms-SameSeats v fuel now e f wake done) h
  Step-IsValid {e} arrive h = SameSeats-IsValid (report_connections-SameSeats e) h
  Step-IsValid {e} (sweep now) h = reap-IsValid now e h
  Step-IsValid {e} (speak now) h = SameSeats-IsValid (tick_speaking-SameSeats now e) h
  Step-IsValid {e} (read now got) h = SameSeats-IsValid (read_once-SameSeats v now got e) h
  Step-IsValid {e} (tell now) h = SameSeats-IsValid (tell_time-SameSeats v now e) h

  pub spawn-IsValid :
      (config : Config d) (bound : d.Address) (now : ℕ)
      → 0 < config.max_room_peers
      → IsValid (spawn config bound now)
  unfolding spawn lookup
  spawn-IsValid config bound now h = record {
    consistent = record {
      distinct = λ m. tt;
      bounded = λ m. omega arith;
      below = λ m. tt;
      listed = λ m j x. cc;
      known = λ m j x. cc;
    };
    room_for_one = h;
    no_empty = λ m r x. cc;
  }

  Reach-IsValid : {e f : Engine d} → Reach e f → IsValid e → IsValid f
  Reach-IsValid here h = h
  Reach-IsValid (next r s) h = Step-IsValid s (Reach-IsValid r h)

  -- Whatever commands, packets, polls and clock ticks come to an engine that starts empty, with room
  -- for at least one peer and ids left at each command: no room is empty or holds more peers than
  -- configured, no id and no user is in a room twice, every id lies below the next one, and an id is
  -- indexed under a room exactly when a peer of that id is in it, so that a peer is in one room only.
  pub Reach-spawn-IsValid :
      (config : Config d) (bound : d.Address) (now : ℕ) (e : Engine d)
      → 0 < config.max_room_peers
      → Reach (spawn config bound now) e
      → IsValid e
  Reach-spawn-IsValid config bound now e h r = Reach-IsValid r (spawn-IsValid config bound now h)

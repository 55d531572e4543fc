-- ===== src/Report/Delivery.antt =====
-- src/report.rs, `run`: the delivery of reports. Serde, the HMAC and the web client are parameters: the
-- JSON of an event, the signature of a body, and the answer to each post, by how many went before.
pub mod Attempts
use ababilx_chat_sfu.Shared.{
  ℕ, zero, suc, ◌+◌, ◌*◌, min, String, Bool, true, false, Option, none, some, List, [], ◌∷◌, ◌++◌,
  if◌then◌else◌, ◌==◌, string_Eq,
}
use ababilx_chat_sfu.Report.{ReportEvent, server_started}

-- A success status, another status, or no response.
pub data Response : Type 0 where
  success rejected failed : Response

pub record Host : Type 1 where
  pub Body : Type 0
  pub to_json : ReportEvent → Option Body
  pub sign : Body → String → String
  pub respond : (posts_before : ℕ) → Response

-- A post with its signature, a pause in milliseconds, and the log's line on a lost report.
pub data Act (h : Host) : Type 0 where
  post : h.Body → (signature : String) → Act h
  sleep : ℕ → Act h
  dropped : ReportEvent → Act h

-- What was done, whether the report went through, and how many posts there were by then.
pub record Delivery (h : Host) : Type 0 where
  pub acts : List (Act h)
  pub delivered : Bool
  pub posts : ℕ

abbrev pub is_success : Response → Bool
is_success success = true
is_success rejected = false
is_success failed = false

unfoldable pub attempts_for : ReportEvent → ℕ
attempts_for e = if e.event == server_started then 12 else 3

abbrev pub backoff : ℕ → ℕ
backoff attempt = min (250 * (attempt + 1)) 5_000

module _ (h : Host) where
  -- `for attempt in 0..attempts`, with `left` of them to go.
  unfoldable pub try_from :
      (left attempt : ℕ) → h.Body → (signature : String) → (posts : ℕ) → Delivery h
  try_from zero attempt body signature posts = record {
    acts = [];
    delivered = false;
    posts = posts;
  }
  try_from (suc left) attempt body signature posts =
      let rest = try_from left (attempt + 1) body signature (posts + 1) in
      if is_success (h.respond posts)
      then record { acts = post body signature ∷ []; delivered = true; posts = posts + 1 }
      else record rest { acts = post body signature ∷ sleep (backoff attempt) ∷ rest.acts }

  -- `if !delivered`
  note_loss : ReportEvent → Delivery h → Delivery h
  note_loss e t = if t.delivered then t else record t { acts = t.acts ++ dropped e ∷ [] }

  unfoldable pub deliver : ReportEvent → h.Body → (secret : String) → (posts : ℕ) → Delivery h
  unfolding note_loss
  deliver e body secret posts =
      note_loss e (try_from (attempts_for e) 0 body (h.sign body secret) posts)

  -- The reports in turn, until the channel is closed. One that has no JSON is skipped.
  unfoldable pub run : List ReportEvent → (secret : String) → (posts : ℕ) → List (Act h)
  run [] secret posts = []
  run (e ∷ es) secret posts = elim (h.to_json e) [
    | none ↦ run es secret posts
    | some body ↦ let done = deliver e body secret posts in done.acts ++ run es secret done.posts
  ]

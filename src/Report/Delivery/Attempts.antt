-- ===== src/Report/Delivery/Attempts.antt =====
-- src/report.rs, `run`: how often a report is posted, and when it is given up.
use ababilx_chat_sfu.Shared.{
  ℕ, zero, suc, ◌+◌, ◌<◌, ◌≡◌, refl, ◌∙◌, ap, sym, subst, String, Bool, true, false, Option, none,
  some, List, [], ◌∷◌, ◌++◌, if◌then◌else◌, Bool-cases, inl, inr, arith, ◌==◌, string_Eq, pick,
}
use mathlib.Core.List.{append-nil}
use ababilx_chat_sfu.Report.{ReportEvent, server_started}
use ababilx_chat_sfu.Report.Delivery.{
  Response, Host, Act, post, sleep, dropped, Delivery, is_success, attempts_for, try_from,
  note_loss, deliver,
}

abbrev pub repeat {ℓ} : {A : Type ℓ} → ℕ → A → List A
repeat zero x = []
repeat (suc n) x = x ∷ repeat n x

-- `n` posts from the `posts`th on fail.
abbrev pub AllFail : (respond : ℕ → Response) (posts n : ℕ) → Type 0
AllFail respond posts zero = Unit
AllFail respond posts (suc n) = (is_success (respond posts) ≡ false) × AllFail respond (posts + 1) n

-- Posts up to the first that succeeds, or all of the `limit` posts where none does.
pub data Outcome (respond : ℕ → Response) (posts limit : ℕ) : ℕ → Bool → Type 0 where
  went_through :
      (n : ℕ)
      → n < limit
      → AllFail respond posts n
      → is_success (respond (posts + n)) ≡ true
      → Outcome respond posts limit (suc n) true
  gave_up : AllFail respond posts limit → Outcome respond posts limit limit false

shifted :
    (respond : ℕ → Response) {a b : ℕ}
    → a ≡ b
    → is_success (respond b) ≡ true
    → is_success (respond a) ≡ true
shifted respond e good = ap (λ n. is_success (respond n)) e ∙ good

later :
    {respond : ℕ → Response} {posts limit n : ℕ} {b : Bool}
    → is_success (respond posts) ≡ false
    → Outcome respond (posts + 1) limit n b
    → Outcome respond posts (suc limit) (suc n) b
later {respond} {posts} bad (went_through n l fail good) =
    went_through (suc n) (omega (arith, l)) (bad, fail) (shifted respond (omega arith) good)
later bad (gave_up fail) = gave_up (bad, fail)

module _ {h : Host} where
  abbrev post_of : Act h → Option (h.Body × String)
  post_of (post body signature) = some (body, signature)
  post_of (sleep _) = none
  post_of (dropped _) = none

  -- The posts among the acts.
  abbrev pub posts_in : List (Act h) → List (h.Body × String)
  posts_in = pick post_of

  abbrev loss_of : Act h → Option ReportEvent
  loss_of (post _ _) = none
  loss_of (sleep _) = none
  loss_of (dropped e) = some e

  -- The reports that were given up.
  abbrev pub losses_in : List (Act h) → List ReportEvent
  losses_in = pick loss_of

module _ (h : Host) where
  -- What trying does: `n` posts of the body with its signature.
  tried :
      (left attempt : ℕ) (body : h.Body) (signature : String) (posts : ℕ)
      → let t = try_from h left attempt body signature posts in
        (n : ℕ) × Outcome h.respond posts left n t.delivered
        × (posts_in t.acts ≡ repeat n (body, signature))
        × (losses_in t.acts ≡ [])
        × (t.posts ≡ posts + n)
  unfolding try_from
  tried zero attempt body signature posts = (0, gave_up tt, refl, refl, omega arith)
  tried (suc left) attempt body signature posts = elim (Bool-cases (is_success (h.respond posts))) [
    | inl good ↦ rw good (
      1,
      went_through 0 (omega arith) tt (shifted h.respond (omega arith) good),
      refl,
      refl,
      omega arith,
    )
    | inr bad ↦
        let (n, outcome, same, kept, count) = tried left (attempt + 1) body signature (posts + 1) in
        rw bad (
          suc n,
          later bad outcome,
          ap (λ l. (body, signature) ∷ l) same,
          kept,
          omega (arith, count),
        )
  ]

  append-pick :
      {A B : Type 0} (f : A → Option B) (xs ys : List A)
      → pick f (xs ++ ys) ≡ pick f xs ++ pick f ys
  append-pick f [] ys = refl
  append-pick f (x ∷ xs) ys = ground (arith, append-pick f xs ys)

  note_loss-keeps :
      (e : ReportEvent) (t : Delivery h)
      → losses_in t.acts ≡ []
      → let u = note_loss h e t in
        (u.delivered ≡ t.delivered)
        × (posts_in u.acts ≡ posts_in t.acts)
        × (losses_in u.acts ≡ (if u.delivered then [] else e ∷ []))
        × (u.posts ≡ t.posts)
  unfolding note_loss
  note_loss-keeps e t none_lost = elim (Bool-cases t.delivered) [
    | inl good ↦ ground (arith, good)
    | inr bad ↦ ground (
      arith,
      bad,
      append-pick post_of t.acts (dropped e ∷ []),
      append-pick loss_of t.acts (dropped e ∷ []),
      append-nil (posts_in t.acts),
    )
  ]

  -- A report is posted until the first post that succeeds, at most twelve times if it announces the
  -- start of the server and else at most three times, each time the same body with its signature; and
  -- it is given up exactly if all of those posts fail.
  pub deliver-Outcome :
      (e : ReportEvent) (body : h.Body) (secret : String) (posts : ℕ)
      → let t = deliver h e body secret posts in
        (n : ℕ) × Outcome h.respond posts
          (if e.event == server_started then 12 else 3)
          n
          t.delivered
        × (posts_in t.acts ≡ repeat n (body, h.sign body secret))
        × (losses_in t.acts ≡ (if t.delivered then [] else e ∷ []))
        × (t.posts ≡ posts + n)
  unfolding deliver attempts_for
  deliver-Outcome e body secret posts =
      let t = try_from h (attempts_for e) 0 body (h.sign body secret) posts in
      let (n, outcome, same, kept, count) =
        tried (attempts_for e) 0 body (h.sign body secret) posts in
      let (same_end, same_posts, losses, same_count) = note_loss-keeps e t kept in
      (
        n,
        subst (Outcome h.respond posts (attempts_for e) n) (sym same_end) outcome,
        same_posts ∙ same,
        losses,
        same_count ∙ count,
      )

-- ===== src/Auth/Tokens.antt =====
-- src/auth.rs, `verify`: which tokens are accepted.
use ababilx_chat_sfu.Shared.{
  ◌≡◌, ◌≢◌, ◌↔◌, String, false, Result, ok, err, string_Eq, arith, Bool-cases, inl, inr, ap, sym,
  subst,
}
use ababilx_chat_sfu.Shared.Texts.{trim}
use ababilx_chat_sfu.Auth.{JoinClaims, checked, is_incomplete, verify}

pub record IsComplete (c : JoinClaims) : Type 0 where
  pub has_user : c.sub ≢ ""
  pub has_room : c.room ≢ ""
  pub has_call : c.call_id ≢ ""

complete : (c : JoinClaims) → is_incomplete c ≡ false → IsComplete c
unfolding is_incomplete
complete c h = record {
  has_user = ground (arith, string_Eq.matches_iff c.sub "");
  has_room = ground (arith, string_Eq.matches_iff c.room "");
  has_call = ground (arith, string_Eq.matches_iff c.call_id "");
}

incomplete_not : (c : JoinClaims) → IsComplete c → is_incomplete c ≡ false
unfolding is_incomplete
incomplete_not c k = ground (
  arith,
  k.has_user,
  k.has_room,
  k.has_call,
  string_Eq.matches_iff c.sub "",
  string_Eq.matches_iff c.room "",
  string_Eq.matches_iff c.call_id "",
)

checked_iff :
    (r : Result String JoinClaims) (c : JoinClaims)
    → (checked r ≡ ok c) ↔ ((r ≡ ok c) × IsComplete c)
unfolding checked
checked_iff (err x) c = ground arith
checked_iff (ok b) c = (
  λ h. elim (Bool-cases (is_incomplete b)) [
    | inl y ↦ absurd (ground (arith, y))
    | inr n ↦
        let same : b ≡ c = ground (arith, n) in (ap ok same, subst IsComplete same (complete b n))
  ],
  λ (e, k).
      let same : b ≡ c = ground (arith, e) in
      rw (incomplete_not b (subst IsComplete (sym same) k)) (ap ok same),
)

-- A token is accepted, with its claims, exactly if jsonwebtoken accepts it, trimmed and under the
-- shared secret, and its claims name a user, a room and a call.
pub verify_iff :
    (decode : String → String → Result String JoinClaims) (token secret : String) (c : JoinClaims)
    → (verify decode token secret ≡ ok c) ↔ ((decode (trim token) secret ≡ ok c) × IsComplete c)
unfolding verify
verify_iff decode token secret c = checked_iff (decode (trim token) secret) c

-- ===== src/Config/Limits.antt =====
-- src/config.rs, `from_env`: what every configuration that it gives satisfies.
use ababilx_chat_sfu.Shared.{
  ℕ, ◌≤◌, ◌≡◌, ◌≢◌, String, Option, none, some, ok, arith, ap, ◌∙◌, string_Eq, Option-cases,
  Result-cases, inl, inr,
}
use ababilx_chat_sfu.Shared.Texts.{trim, parse_usize}
use ababilx_chat_sfu.Media.{Deps}
use ababilx_chat_sfu.Config.{
  Config, Boot, or_else, from_env, settings_of, number, required, optional, non_empty,
  parsed_within, within, parse_addr, public_ip_of,
}

module _ {d : Deps} (b : Boot d) where
  parsed_within-bounds :
      (fallback low high : ℕ) (o : Option ℕ)
      → low ≤ fallback
      → fallback ≤ high
      → (low ≤ parsed_within fallback low high o) × (parsed_within fallback low high o ≤ high)
  unfolding parsed_within within
  parsed_within-bounds fallback low high none l h = (l, h)
  parsed_within-bounds fallback low high (some n) l h = (ground arith, ground arith)

  number-bounds :
      (key : String) (fallback low high : ℕ)
      → low ≤ fallback
      → fallback ≤ high
      → (low ≤ number b key fallback low high) × (number b key fallback low high ≤ high)
  unfolding number
  number-bounds key fallback low high l h = elim (Option-cases (b.var key)) [
    | inl unset ↦ rw (unset, number) (l, h)
    | inr (value, set) ↦
        rw (set, number) (parsed_within-bounds fallback low high (parse_usize (trim value)) l h)
  ]

  optional-ne : (o : Option String) → optional o ≢ some ""
  unfolding optional non_empty
  optional-ne none h = cc
  optional-ne (some value) h = ground (arith, string_Eq.matches_iff (trim value) "")

  required-ne : (key : String) → required b key ≢ ok ""
  unfolding required
  required-ne key h = elim (Option-cases (optional (b.var key))) [
    | inl unset ↦ ground (arith, unset)
    | inr (value, set) ↦ ground (arith, set, optional-ne (b.var key))
  ]

  or_else-ne :
      (o : Option String) (fallback : String)
      → o ≢ some ""
      → fallback ≢ ""
      → or_else o fallback ≢ ""
  or_else-ne none fallback h f = f
  or_else-ne (some value) fallback h f = λ e. h (ap some e)

  settings :
      (c : Config d)
      → from_env b ≡ ok c
      → (h u : d.Address) × (secret : String) × (ip : d.Ip) × (required b "SFU_SHARED_SECRET"
          ≡ ok secret)
        × (c ≡ settings_of b h u secret ip)
  unfolding from_env
  settings c e = elim (Result-cases (parse_addr b "SFU_BIND_HTTP" "0.0.0.0:7898")) [
    | inr (x, bad) ↦ absurd (ground (arith, bad))
    | inl (h, good_h) ↦ elim (Result-cases (parse_addr b "SFU_BIND_UDP" "0.0.0.0:7899")) [
      | inr (x, bad) ↦ absurd (ground (arith, bad))
      | inl (u, good_u) ↦ elim (Result-cases (required b "SFU_SHARED_SECRET")) [
        | inr (x, bad) ↦ absurd (ground (arith, bad))
        | inl (secret, good) ↦ elim (Result-cases (public_ip_of b (b.var "SFU_PUBLIC_IP"))) [
          | inr (x, bad) ↦ absurd (ground (arith, bad))
          | inl (ip, good_ip) ↦ (h, u, secret, ip, good, ground arith)
        ]
      ]
    ]
  ]

  -- Whatever the environment holds, a configuration that is read from it allows from 2 to 64 peers in
  -- a room, and neither its secrets nor its webhook's address, where it has one, is empty.
  pub from_env-bounds :
      (c : Config d)
      → from_env b ≡ ok c
      → (2 ≤ c.max_room_peers)
        × (c.max_room_peers ≤ 64)
        × (c.shared_secret ≢ "")
        × (c.webhook_secret ≢ "")
        × (c.webhook_url ≢ some "")
  unfolding settings_of
  from_env-bounds c e =
      let (h, u, secret, ip, given, same) = settings c e in
      let secret-ne : secret ≢ "" = λ s. required-ne "SFU_SHARED_SECRET" (given ∙ ap ok s) in
      let (low, high) = number-bounds "SFU_MAX_ROOM_PEERS" 16 2 64 (omega arith) (omega arith) in
      rw same (
        low,
        high,
        secret-ne,
        or_else-ne (optional (b.var "SFU_WEBHOOK_SECRET")) secret
            (optional-ne (b.var "SFU_WEBHOOK_SECRET")) secret-ne,
        optional-ne (b.var "SFU_WEBHOOK_URL"),
      )

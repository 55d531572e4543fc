-- ===== src/Config.antt =====
-- src/config.rs: the settings, and how they are read from the environment at boot.
pub mod Limits
use ababilx_chat_sfu.Shared.{
  ℕ, String, Bool, true, false, not, ◌&&◌, ◌||◌, Option, none, some, Result, ok, err, leb,
  if◌then◌else◌, ◌==◌, string_Eq,
}
use ababilx_chat_sfu.Shared.Texts.{trim, to_ascii_lowercase, parse_usize}
use ababilx_chat_sfu.Media.{Deps}

pub record Config (d : Deps) : Type 0 where
  pub http_bind : d.Address
  pub udp_bind : d.Address
  pub public_ip : d.Ip
  pub shared_secret : String
  pub webhook_url : Option String
  pub webhook_secret : String
  pub ice_lite : Bool
  pub max_room_peers : ℕ

pub data ConfigError : Type 0 where
  missing : (key : String) → ConfigError
  invalid : (value what : String) → ConfigError

-- `env::var(..).ok()`, the readers of addresses, which belong to the types that stand for them, and
-- the address that the operating system picks.
pub record Boot (d : Deps) : Type 0 where
  pub var : String → Option String
  pub parse_socket_addr : String → Option d.Address
  pub parse_ip : String → Option d.Ip
  pub guess_local_ip : d.Ip

unfoldable pub advertised_udp : {d : Deps} → Config d → d.Address → d.Address
advertised_udp {d} c bound = d.socket_addr c.public_ip (d.port bound)

-- `filter(|value| !value.is_empty())` behind the trim
non_empty : String → Option String
non_empty value = let t = trim value in if t == "" then none else some t

optional : Option String → Option String
unfolding non_empty
optional none = none
optional (some value) = non_empty value

abbrev pub or_else : Option String → String → String
or_else none fallback = fallback
or_else (some value) fallback = value

abbrev is_yes : String → Bool
is_yes value = value == "1" || value == "true" || value == "yes"

within : (fallback min max value : ℕ) → ℕ
within fallback min max value = if leb min value && leb value max then value else fallback

parsed_within : (fallback min max : ℕ) → Option ℕ → ℕ
unfolding within
parsed_within fallback min max none = fallback
parsed_within fallback min max (some value) = within fallback min max value

module _ {d : Deps} (b : Boot d) where
  unfoldable pub required : String → Result ConfigError String
  unfolding optional
  required key = elim (optional (b.var key)) [ none ↦ err (missing key) | some value ↦ ok value ]

  unfoldable pub parse_addr : (key fallback : String) → Result ConfigError d.Address
  parse_addr key fallback =
      let raw = or_else (b.var key) fallback in
      elim (b.parse_socket_addr (trim raw)) [
        | none ↦ err (invalid raw "socket address")
        | some a ↦ ok a
      ]

  unfoldable pub flag : String → Bool → Bool
  flag key fallback = elim (b.var key) [
    | none ↦ fallback
    | some value ↦ is_yes (to_ascii_lowercase (trim value))
  ]

  unfoldable pub number : (key : String) (fallback min max : ℕ) → ℕ
  unfolding parsed_within
  number key fallback min max = elim (b.var key) [
    | none ↦ fallback
    | some value ↦ parsed_within fallback min max (parse_usize (trim value))
  ]

  read_ip : String → Result ConfigError d.Ip
  read_ip value = if trim value == "" then ok b.guess_local_ip else elim (b.parse_ip (trim value)) [
    | none ↦ err (invalid value "IP address")
    | some ip ↦ ok ip
  ]

  unfoldable pub public_ip_of : Option String → Result ConfigError d.Ip
  unfolding read_ip
  public_ip_of none = ok b.guess_local_ip
  public_ip_of (some value) = read_ip value

  settings_of : (http_bind udp_bind : d.Address) (secret : String) (ip : d.Ip) → Config d
  unfolding optional
  settings_of http_bind udp_bind secret ip = record {
    http_bind = http_bind;
    udp_bind = udp_bind;
    public_ip = ip;
    shared_secret = secret;
    webhook_url = optional (b.var "SFU_WEBHOOK_URL");
    webhook_secret = or_else (optional (b.var "SFU_WEBHOOK_SECRET")) secret;
    ice_lite = flag "SFU_ICE_LITE" false;
    max_room_peers = number "SFU_MAX_ROOM_PEERS" 16 2 64;
  }

  -- The first setting that cannot be read is the error.
  unfoldable pub from_env : Result ConfigError (Config d)
  unfolding settings_of
  from_env = elim (parse_addr "SFU_BIND_HTTP" "0.0.0.0:7898") [
    | err x ↦ err x
    | ok http_bind ↦ elim (parse_addr "SFU_BIND_UDP" "0.0.0.0:7899") [
      | err x ↦ err x
      | ok udp_bind ↦ elim (required "SFU_SHARED_SECRET") [
        | err x ↦ err x
        | ok secret ↦ elim (public_ip_of (b.var "SFU_PUBLIC_IP")) [
          | err x ↦ err x
          | ok ip ↦ ok (settings_of http_bind udp_bind secret ip)
        ]
      ]
    ]
  ]

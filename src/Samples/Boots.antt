-- ===== src/Samples/Boots.antt =====
-- A start of the process and a probe of its health, on which the theorems about them are applied.
use ababilx_chat_sfu.Shared.{
  ℕ, ◌≡◌, ◌↔◌, ◌≤◌, ◌<◌, refl, String, Option, false, none, some, [], ok, err, ◌==◌, string_Eq,
  if◌then◌else◌,
}
use ababilx_chat_sfu.Shared.Texts.{
  trim, to_ascii_lowercase, parse_usize, after_last_colon, has_colon,
}
use ababilx_chat_sfu.Report
use ababilx_chat_sfu.Config.{
  Boot, advertised_udp, from_env, parse_addr, required, public_ip_of, number, flag,
}
use ababilx_chat_sfu.Engine.{Engine, spawn}
use ababilx_chat_sfu.Engine.Turn.{here}
use ababilx_chat_sfu.Engine.Seats.{IsValid}
use ababilx_chat_sfu.Engine.Wired.{IsMeshed}
use ababilx_chat_sfu.Process.{World, start, main, health_probe}
use ababilx_chat_sfu.Process.Starts.{EndsAs, start-EndsAs, start-IsValid-IsMeshed}
use ababilx_chat_sfu.Process.Probes.{main-health}
use ababilx_chat_sfu.Samples.{toy, toy_driver}

abbrev variable : String → Option String
variable key =
    if key == "SFU_SHARED_SECRET"
    then some "secret"
    else if key == "SFU_BIND_HTTP"
    then some "0.0.0.0:80"
    else none

abbrev boot : Boot toy
boot = record {
  var = variable;
  parse_socket_addr = λ t. some 0;
  parse_ip = λ t. some 0;
  guess_local_ip = 0;
}

-- Only the server at port 80 is in good health.
abbrev pub world : Option String → World toy
world arg = record {
  arg = arg;
  boot = boot;
  now = 0;
  uuid = "id";
  bind_udp = λ a. ok a;
  start_thread = ok tt;
  bind_tcp = λ a. ok tt;
  serve_until_signal = ok tt;
  get = λ url. if url == "http://127.0.0.1:80/healthz" then ok 200 else err "refused";
}

abbrev started : Engine toy
started = record {
  config = record {
    http_bind = 0;
    udp_bind = 0;
    public_ip = 0;
    shared_secret = "secret";
    webhook_url = none;
    webhook_secret = "secret";
    ice_lite = false;
    max_room_peers = 16;
  };
  advertised = 0;
  rooms = [];
  peer_rooms = [];
  next_peer = 1;
  last_speaking = 0;
  arcs = record { next = 0; live = [] };
  uuids = 0;
  log = [];
}

start-EndsAs_example : EndsAs (world none) (start (world none))
start-EndsAs_example = start-EndsAs (world none)

start-IsValid-IsMeshed_example : IsValid started × IsMeshed started
unfolding start from_env parse_addr required public_ip_of number flag trim to_ascii_lowercase
    parse_usize spawn advertised_udp Report.new
start-IsValid-IsMeshed_example =
    start-IsValid-IsMeshed (world none) toy_driver started started refl here

main-health_example :
    ((main (world (some "--health"))).acts ≡ [])
    × (((main (world (some "--health"))).result ≡ ok tt) ↔ (
        (status : ℕ) × ((world none).get "http://127.0.0.1:80/healthz" ≡ ok status)
        × (200 ≤ status)
        × (status < 300)))
unfolding has_colon
main-health_example = main-health (world (some "--health")) "0.0.0.0" "80" refl refl refl

is_healthy : (main (world (some "--health"))).result ≡ ok tt
unfolding main health_probe after_last_colon has_colon
is_healthy = refl

-- ===== src/Tests/Samples.antt =====
-- Concrete data: natural numbers for float64, three machines of two logical servers, an engine that
-- ranks them, and a Gluetun that refuses one of them.
use gluetun_proton_list_upda.Prelude.{
  ℕ, ◌+◌, ◌-◌, ◌*◌, ◌/◌, String, true, false, List, [], ◌∷◌, none, some, ltb, leb, ◌==◌, str_eq,
  arith,
}
use gluetun_proton_list_upda.Prelude.Addr.{v4, invalid}
use gluetun_proton_list_upda.Prelude.Real.{Float, IsOrdered}
use gluetun_proton_list_upda.Platform.{Platform}
use gluetun_proton_list_upda.Proton.{PhysicalServer, LogicalServer}
use gluetun_proton_list_upda.Catalog.{Candidate, Options, no_requirements}
use gluetun_proton_list_upda.Catalog.Build.{no_stats}
use gluetun_proton_list_upda.Scoring.{Weights, Scored}
use gluetun_proton_list_upda.Engine.State.{PersistedState}
use gluetun_proton_list_upda.Engine.Core.{Config, Reading, Transfer, Engine}
use gluetun_proton_list_upda.Engine.Remote.{
  Request, sleep, pin, rejected, Reply, ok, failed, Remote,
}

abbrev pub nat_float : Float ℕ
nat_float = record {
  naught = 0;
  unit = 1;
  infinity = 1000000;
  neg_infinity = 0;
  of_nat = λ n. n;
  add = λ a b. a + b;
  sub = λ a b. a - b;
  mul = λ a b. a * b;
  div = λ a b. a / b;
  lt = ltb;
  le = leb;
  eq = λ a b. a == b;
  is_nan = λ _. false;
  truncate = λ n. n;
}

pub nat_float-IsOrdered : IsOrdered nat_float
nat_float-IsOrdered = record {
  weak_order = record {
    asym = λ a b ga gb h. ground arith;
    not_less_trans = λ a b c ga gb gc h k. ground arith;
  };
  eq_iff = λ a b ga gb. ground arith;
}

abbrev pub plain : Platform
plain = record {
  to_lower = λ s. s;
  to_upper = λ s. s;
  trim_space = λ s. s;
  parse_addr = λ _. none;
  code_to_name = ("SE", "Sweden") ∷ [];
  has_substring = str_eq;
  join = λ a b. b;
  is_abs = λ _. true;
  raw_version = λ _. some 0;
}

abbrev pub machine : String → ℕ → PhysicalServer
machine domain ip = record {
  id = domain;
  entry_ip = v4 ip;
  exit_ip = v4 ip;
  entry_ipv6 = "";
  domain = domain;
  status = 1;
  x25519_public_key = "key";
  label = "0";
}

abbrev pub logical : String → ℕ → List PhysicalServer → LogicalServer ℕ
logical name load servers = record {
  id = name;
  name = name;
  entry_country = "SE";
  exit_country = "SE";
  region = none;
  city = some "Stockholm";
  load = load;
  score = 1;
  status = 1;
  tier = some 2;
  features = 4;
  servers = servers;
}

-- The second logical server shares the first one's machine and is quieter.
abbrev pub sample_list : List (LogicalServer ℕ)
sample_list =
    logical "SE#1" 40 (machine "se-1.example" 1 ∷ machine "se-2.example" 2 ∷ [])
    ∷ logical "SE#2" 10 (machine "se-3.example" 1 ∷ [])
    ∷ []

abbrev pub open_options : Options
open_options = record {
  countries = [];
  exclude_countries = [];
  cities = [];
  max_load = 0;
  secure_core = "include";
  tor = "include";
  p2p = "include";
  stream = "include";
  free = "include";
  ipv6 = "include";
  vpn_type = "wireguard";
  include_ipv6 = false;
  max_tier = some 2;
  require = no_requirements;
}

abbrev pub even : Weights ℕ
even = record {
  load_weight = 1;
  latency_weight = 1;
  proton_score_weight = 1;
  unknown_latency_penalty = 1;
  latency_ceiling = 100;
}

abbrev pub candidate : String → ℕ → ℕ → Candidate ℕ
candidate host ip load = record {
  hostname = host;
  server_name = host;
  logical_id = host;
  country = "Sweden";
  region = "";
  city = "Stockholm";
  entry_ip = v4 ip;
  entry_ipv6 = invalid;
  exit_ip = v4 ip;
  wg_pub_key = "key";
  load = load;
  proton_score = 1;
  free = false;
  secure_core = false;
  tor = false;
  p2p = true;
  stream = false;
  ipv6 = false;
  tier = some 2;
}

abbrev pub scored : String → ℕ → ℕ → ℕ → Scored ℕ
scored host ip load score = record {
  candidate = candidate host ip load;
  score = score;
  load_penalty = load;
  latency_penalty = 0;
  proton_penalty = 0;
  rtt = 0;
  latency_known = false;
}

abbrev pub sample_config : Config ℕ
sample_config = record {
  auto = true;
  mode = "settings";
  candidates = 3;
  min_improvement = 2;
  cooldown = 100;
  min_interval = 10;
  load_trigger = 80;
  verify_timeout = 6000000000;
  qbittorrent = true;
  poll_interval = 5;
  busy_download = 100;
  busy_upload = 100;
  busy_window = 20;
  max_defer = 50;
  refresh_servers_on_reject = false;
  filter = open_options;
  only_allowed_countries = false;
  score = even;
}

abbrev pub no_reading : Reading
no_reading = record { download = 0; upload = 0; downloaded_bytes = 0; uploaded_bytes = 0 }

abbrev pub no_transfer : Transfer
no_transfer = record {
  reading = no_reading;
  samples = [];
  checked_at = 0;
  busy_since = 0;
  reachable = false;
  err = "";
  source = "";
  grace_expired = false;
  baseline_host = "";
  baseline_down = 0;
  baseline_up = 0;
  throughput_host = "";
}

abbrev pub sample_state : PersistedState ℕ
sample_state = record {
  pinned_hostname = "";
  last_switch_at = 5;
  auto_switch = none;
  account_tier = none;
  account_plan = "";
  gluetun_had_server_data = true;
  history = [];
  measuring_host = "";
  stats = [];
}

abbrev pub sample_engine : Engine ℕ
sample_engine = record {
  cfg = sample_config;
  store = record { state = sample_state; dirty = false; file = some sample_state };
  started_at = 1;
  candidates = [];
  file_candidates = [];
  blocked = [];
  ranked =
      scored "se-3.example" 1 10 1
      ∷ scored "se-2.example" 2 40 4
      ∷ scored "se-9.example" 9 90 9
      ∷ [];
  stats = no_stats;
  latest_loads = [];
  probes = [];
  requirements = no_requirements;
  port_forward_reason = "";
  inference_abandoned = false;
  vpn_type = "wireguard";
  account_tier = some 2;
  known_hosts = [];
  transfer = no_transfer;
  gluetun = record {
    reachable = true;
    status = "running";
    provider_mismatch = false;
    settings_readable = true;
    exit_ip = "9.9.9.9";
    hostnames = "se-9.example" ∷ [];
  };
  selection = record { explanation = ""; last_error = ""; needs_gluetun_restart = false };
}

-- Two seconds for each wait.
abbrev pub slept : List Request → ℕ
slept [] = 1000
slept (sleep ∷ log) = 2000000000 + slept log
slept (_ ∷ log) = slept log

abbrev pub answer_pin : List Request → Reply String
answer_pin (pin host _ _ ∷ _) = elim (str_eq host "se-3.example") [
  | true ↦ failed (rejected [])
  | false ↦ ok "running"
]
answer_pin _ = ok ""

-- Refuses se-3.example, and then runs on se-2.example.
abbrev pub sample_remote : Remote ℕ
sample_remote = record {
  status = λ _. ok "running";
  settings = λ _. ok ("se-2.example" ∷ []);
  public_ip = λ _. ok "1.2.3.4";
  pin_server = answer_pin;
  restart = λ _. ok "running";
  updater = λ _. ok "";
  updater_done = λ _. ok tt;
  cancelled = λ _. false;
  clock = slept;
  saves = λ _. true;
  round = λ n. n;
  no_score = 0;
}

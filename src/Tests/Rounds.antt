-- ===== src/Tests/Rounds.antt =====
-- The run loop at a concrete program and concrete rounds.
use gluetun_proton_list_upda.Prelude.{
  ℕ, ◌+◌, ◌*◌, ◌≤◌, ◌≡◌, refl, true, false, List, [], ◌∷◌, none, some, str_eq_iff, arith, ◌⊎◌,
}
use gluetun_proton_list_upda.Prelude.Addr.{addr_eq}
use gluetun_proton_list_upda.Prelude.Table.{find, put}
use gluetun_proton_list_upda.Scoring.{Scored, find_host}
use gluetun_proton_list_upda.Serversfile.{
  has_gluetun_data, file_exists, read_raw_file, are_valid, detect_layout,
}
use gluetun_proton_list_upda.Serversfile.Write.{
  server_less, sort_servers, replace_file, kept_fields, write_legacy, write_fat, write_layout,
  write,
}
use gluetun_proton_list_upda.Prelude.Sort.{sort_stable, insert}
use gluetun_proton_list_upda.Prelude.Text.{str_ltb}
use gluetun_proton_list_upda.Catalog.Render.{to_gluetun_servers}
use gluetun_proton_list_upda.Engine.Sets.{servers_for_file}
use gluetun_proton_list_upda.Engine.Core.{Engine}
use gluetun_proton_list_upda.Engine.Remote.{Request, sleep}
use gluetun_proton_list_upda.Engine.Attempt.Targets.{OnlyPins}
use gluetun_proton_list_upda.Engine.Manual.{switch_to}
use gluetun_proton_list_upda.Engine.Manual.Target.{switch_to_asked}
use gluetun_proton_list_upda.Engine.Program.{
  not_fetched, Settings, Program, World, write_servers_file,
}
use gluetun_proton_list_upda.Engine.Tasks.{refused, find_schema_version, load_cached_logicals}
use gluetun_proton_list_upda.Engine.Health.{Checkup}
use gluetun_proton_list_upda.Engine.Loop.{
  Event, evaluation_due, flush_due, best_asked, write_asked, step, run, start,
}
use gluetun_proton_list_upda.Engine.Loop.Runs.{IsCapped, run-IsCapped}
use gluetun_proton_list_upda.Engine.Loop.Spaced.{last_of, switches, run_spaced}
use gluetun_proton_list_upda.Engine.Loop.Quiet.{run_quiet}
use gluetun_proton_list_upda.Engine.Loop.Volume.{run_unforged}
use gluetun_proton_list_upda.Engine.Loop.Startup.{Held, start_offline}
use gluetun_proton_list_upda.Tests.Samples.{
  nat_float, plain, candidate, sample_list, sample_config, sample_engine, sample_remote, slept,
}
use gluetun_proton_list_upda.Tests.Files.{sample_paths, used_disk, provider_not_legacy}

abbrev sample_settings : Settings ℕ
sample_settings = record {
  write_mode = "update";
  preferred = true;
  schema_version = 0;
  paths = sample_paths;
  latency_enabled = true;
  latency_top_n = 1;
  smoothing = 1;
  cache_max_age = 0;
}

abbrev listed_engine : Engine ℕ
listed_engine = record sample_engine {
  candidates = candidate "se-3.example" 1 10 ∷ candidate "se-2.example" 2 40 ∷ [];
}

abbrev sample_program : Program ℕ
sample_program = record {
  engine = listed_engine;
  settings = sample_settings;
  files = used_disk;
  schema_version = 4;
  layout = none;
  wrote_server_data = false;
  cached = none;
  cached_loads = none;
  proton = record {
    last_fetch = 0;
    last_fetch_error = none;
    list_last_modified = "";
    logicals_count = 0;
    from_cache = false;
    needs_totp = false;
    last_load_refresh = 0;
    load_failed = false;
    cache_stale = false;
    account_plan = "";
    account_free = false;
    max_connections = 0;
    delinquent = false;
  };
  servers = record {
    last_write = 0;
    server_count = 0;
    schema_version = 0;
    preserved_keys = [];
    layout = none;
    paths = [];
    preferred = false;
    last_error = none;
    ignored = false;
  };
}

abbrev sample_world : World ℕ
sample_world = record {
  now = 900;
  remote = sample_remote;
  can = λ _. true;
  saves = true;
  describe = λ _. "better";
}

-- The clock of `sample_remote` never shows less than 1000.
slept_lower : (log : List Request) → 900 ≤ slept log
slept_lower [] = omega arith
slept_lower (sleep ∷ log) = omega (arith, slept_lower log)
slept_lower (_ ∷ log) = slept_lower log

abbrev quiet_rounds : List (Event ℕ)
quiet_rounds = evaluation_due sample_world ∷ write_asked sample_world ∷ flush_due sample_world ∷ []

run-IsCapped_example :
    IsCapped
      (run nat_float plain
        (best_asked sample_world ∷ quiet_rounds)
        sample_program).0.engine.store.state
run-IsCapped_example =
    run-IsCapped nat_float plain (best_asked sample_world ∷ quiet_rounds) sample_program
      (omega arith, omega arith)

run_spaced_example :
    5 + switches nat_float plain quiet_rounds sample_program * 10
    ≤ last_of nat_float plain (run nat_float plain quiet_rounds sample_program).0
run_spaced_example =
    run_spaced nat_float plain quiet_rounds sample_program (tt, (tt, (tt, tt)))
      (slept_lower, (slept_lower, (slept_lower, tt))) (λ e. omega arith) (omega arith)

abbrev held_program : Program ℕ
held_program = record sample_program {
  engine = record listed_engine { cfg = record sample_config { mode = "none" } };
}

run_quiet_example : (run nat_float plain quiet_rounds held_program).1 ≡ []
run_quiet_example = run_quiet nat_float plain quiet_rounds held_program (tt, (tt, (tt, tt))) refl

-- The servers file is written, and the manifest stays.
data_after :
    has_gluetun_data plain
      (run nat_float plain (write_asked sample_world ∷ []) sample_program).0.files
      sample_paths
    ≡ true
unfolding has_gluetun_data run step write_servers_file servers_for_file to_gluetun_servers write
    are_valid detect_layout file_exists find put write_layout write_fat write_legacy kept_fields
    read_raw_file replace_file sort_servers server_less str_ltb sort_stable insert
data_after = refl

run_unforged_example : has_gluetun_data plain used_disk sample_paths ≡ true
run_unforged_example =
    run_unforged nat_float plain (write_asked sample_world ∷ []) sample_program
      (λ e. ground (arith, str_eq_iff "protonvpn.json" "manifest.json"))
      (λ e. ground (arith, str_eq_iff "servers.json" "manifest.json")) provider_not_legacy
      data_after

switch_to_asked_example :
    OnlyPins sample_remote
      (λ h. h ≡ "se-2.example")
      (switch_to plain sample_remote sample_engine "se-2.example" []).2
    × (((switch_to plain sample_remote sample_engine "se-2.example" []).2 ≡ [])
        ⊎ ((target : Scored ℕ) × (find_host sample_engine.ranked "se-2.example" ≡ some target)))
switch_to_asked_example = switch_to_asked plain sample_remote sample_engine "se-2.example"

abbrev no_answer : Checkup
no_answer = record { status = none; settings = none; public_ip = none }

-- the list is cached, and it was fetched at 100
abbrev restarted : Program ℕ
restarted = record sample_program {
  cached = some (record { fetched_at = 100; last_modified = ""; servers = sample_list });
}

start_offline_example :
    ((start nat_float plain sample_world sample_world [] sample_world no_answer sample_world none
        (refused not_fetched)
        sample_world
        (λ _. [])
        sample_world
        restarted).1
      ≡ [])
    × Held
        (load_cached_logicals nat_float plain sample_world
          (find_schema_version plain sample_world restarted))
        (start nat_float plain sample_world sample_world [] sample_world no_answer sample_world none
          (refused not_fetched)
          sample_world
          (λ _. [])
          sample_world
          restarted).0
start_offline_example =
    start_offline nat_float plain sample_world sample_world [] sample_world no_answer sample_world
      none not_fetched sample_world (λ _. []) sample_world restarted refl

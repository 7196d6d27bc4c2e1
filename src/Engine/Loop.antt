-- ===== src/Engine/Loop.antt =====
-- internal/engine: one round of the run loop for each ticker and command (engine.go, `Run`;
-- commands.go, `handleCommand`; gluetunloops.go), and its start.
pub mod Frame
pub mod Same
pub mod Rounds
pub mod Runs
pub mod Spaced
pub mod Quiet
pub mod Volume
pub mod Startup
use gluetun_proton_list_upda.Prelude.{
  ℕ, String, Bool, true, false, not, ◌&&◌, ◌||◌, List, [], ◌∷◌, ◌++◌, Option, none, some, ltb, ◌==◌,
  str_eq, if◌then◌else◌,
}
use gluetun_proton_list_upda.Prelude.Addr.{Addr}
use gluetun_proton_list_upda.Prelude.Real.{Float}
use gluetun_proton_list_upda.Platform.{Platform}
use gluetun_proton_list_upda.Proton.{ServerLoad}
use gluetun_proton_list_upda.Latency.{Dial}
use gluetun_proton_list_upda.Engine.State.{PersistedState, update, flush}
use gluetun_proton_list_upda.Engine.Core.{Engine, Reading, Transfer, status_running}
use gluetun_proton_list_upda.Engine.Current.{current_hostname}
use gluetun_proton_list_upda.Engine.History.{record_transfer}
use gluetun_proton_list_upda.Engine.Remote.{set_loop}
use gluetun_proton_list_upda.Engine.Switch.{Log}
use gluetun_proton_list_upda.Engine.Transfer.{Answer, read_rates, accept_reading, refuse_reading}
use gluetun_proton_list_upda.Engine.Manual.{switch_to}
use gluetun_proton_list_upda.Engine.Program.{Program, World, write_servers_file}
use gluetun_proton_list_upda.Engine.Tasks.{
  Account, ListAnswer, refresh_server_list, refresh_loads, probe_latency, find_schema_version,
  load_cached_logicals,
}
use gluetun_proton_list_upda.Engine.Attempt
use gluetun_proton_list_upda.Engine.Health.{Checkup, replay_writes, evaluate, check_gluetun}

abbrev pub status_stopped : String
status_stopped = "stopped"

abbrev first_failure : List String → String
first_failure [] = "no rate source answered"
first_failure (err ∷ _) = err

module _ {F : Type 0} (p : Platform) where
  -- `refreshTransferWith` on what the sources answer, without the settings of qBittorrent. There is
  -- one source, so that the joined error is the first.
  unfoldable pub refresh_transfer : World F → List (String × Answer) → Program F → Program F
  unfolding read_rates accept_reading refuse_reading record_transfer current_hostname
  refresh_transfer w [] q = q
  refresh_transfer w (source ∷ sources) q =
      let e = q.engine in
      let (found, failures) = read_rates (source ∷ sources) in
      elim found [
        | none ↦ record q {
          engine = record e { transfer = refuse_reading (first_failure failures) e.transfer };
        }
        | some (name, r) ↦
            let read_engine = record e {
              transfer = accept_reading e.cfg w.now name r e.transfer;
            } in
            record q { engine = record_transfer w.now (current_hostname p e) r read_engine }
      ]

module _ {F : Type 0} where
  -- `flushState`
  unfoldable pub flush_state : World F → Program F → Program F
  unfolding flush
  flush_state w q = record q {
    engine = record q.engine { store = (flush w.saves q.engine.store).0 };
  }

  abbrev pub change_state : World F → (PersistedState F → PersistedState F) → Program F → Program F
  change_state w change q = record q {
    engine = record q.engine { store = (update change w.saves q.engine.store).0 };
  }

-- What ends one wait of the loop: a ticker, or a command of the dashboard that is not the same as
-- one; each with what the outside answers in that round.
pub data Event (F : Type 0) : Type 0 where
  list_due : World F → Option Account → ListAnswer F → Event F
  loads_due : World F → Option (List (ServerLoad F)) → Event F
  latency_due : World F → (Addr → List Dial) → Event F
  evaluation_due : World F → Event F
  health_due : World F → Checkup → Event F
  transfer_due : World F → List (String × Answer) → Event F
  flush_due : World F → Event F
  best_asked : World F → Event F
  server_asked : World F → String → Event F
  write_asked : World F → Event F
  auto_asked : World F → Bool → Event F
  clear_asked : World F → Event F
  updater_asked : World F → Checkup → Event F
  -- the status asked for, and whether Gluetun accepts it
  loop_asked : World F → String → Bool → Checkup → Event F

abbrev pub is_loop_status : String → Bool
is_loop_status status = str_eq status status_running || str_eq status status_stopped

module _ {F : Type 0} (p : Platform) where
  unfoldable pub move_to : World F → String → Program F → Program F × Log
  unfolding switch_to replay_writes
  move_to w hostname q =
      let (_, e, log) = switch_to p w.remote q.engine hostname [] in
      (replay_writes p w log (record q { engine = e }), log)

module _ {F : Type 0} (fl : Float F) (p : Platform) where
  -- `commandRunUpdater`
  unfoldable pub run_updater : World F → Checkup → Program F → Program F × Log
  unfolding replay_writes check_gluetun
  run_updater w c q =
      let (_, e, asked) = Attempt.refresh_server_list p w.remote q.engine [] in
      let (q', log) = check_gluetun fl p w c (replay_writes p w asked (record q { engine = e })) in
      (q', log ++ asked)

  -- `setTunnelStatus` and `setDNSStatus`
  unfoldable pub set_loop_status : World F → String → Bool → Checkup → Program F → Program F × Log
  unfolding check_gluetun
  set_loop_status w status accepted c q =
      if not (is_loop_status status)
      then (q, [])
      else let (q', log) = check_gluetun fl p w c q in
        if not accepted then (q, set_loop status ∷ []) else (q', log ++ set_loop status ∷ [])

  -- One round, with the requests that it sent to move the tunnel, newest first.
  unfoldable pub step : Event F → Program F → Program F × Log
  unfolding refresh_server_list refresh_loads probe_latency evaluate check_gluetun refresh_transfer
      flush_state move_to write_servers_file run_updater set_loop_status
  step (list_due w account answer) q =
      evaluate fl p w false (refresh_server_list fl p w account answer q)
  step (loads_due w answer) q = (refresh_loads fl w answer q, [])
  step (latency_due w dials) q = (probe_latency fl w dials q, [])
  step (evaluation_due w) q = evaluate fl p w false q
  step (health_due w c) q = check_gluetun fl p w c q
  step (transfer_due w answers) q = (refresh_transfer p w answers q, [])
  step (flush_due w) q = (flush_state w q, [])
  step (best_asked w) q = evaluate fl p w true q
  step (server_asked w hostname) q = move_to p w hostname q
  step (write_asked w) q = (write_servers_file p w q, [])
  step (auto_asked w enabled) q =
      (change_state w (λ s. record s { auto_switch = some enabled }) q, [])
  step (clear_asked w) q = (change_state w (λ s. record s { history = [] }) q, [])
  step (updater_asked w c) q = run_updater w c q
  step (loop_asked w status accepted c) q = set_loop_status w status accepted c q

  unfoldable pub run : List (Event F) → Program F → Program F × Log
  unfolding step
  run [] q = (q, [])
  run (event ∷ events) q =
      let (q', asked) = step event q in let (last, later) = run events q' in (last, later ++ asked)

  -- The start of `Run`, each part with its own time and answers.
  unfoldable pub start :
      World F
      → World F
      → List (String × Answer)
      → World F
      → Checkup
      → World F
      → Option Account
      → ListAnswer F
      → World F
      → (Addr → List Dial)
      → World F
      → Program F
      → Program F × Log
  unfolding find_schema_version load_cached_logicals run
  start w0 w1 answers w2 c w3 account list w4 dials w5 q =
      let seeded = load_cached_logicals fl p w0 (find_schema_version p w0 q) in
      let (checked, log1) = check_gluetun fl p w2 c (refresh_transfer p w1 answers seeded) in
      let probed = probe_latency fl w4 dials (refresh_server_list fl p w3 account list checked) in
      let (evaluated, log2) = evaluate fl p w5 false probed in (evaluated, log2 ++ log1)

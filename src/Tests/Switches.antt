-- ===== src/Tests/Switches.antt =====
-- Decisions, transfers and switches at a concrete engine and a concrete Gluetun.
use gluetun_proton_list_upda.Prelude.{
  length, ◌==◌, ℕ, suc, ◌+◌, ◌≤◌, ◌≡◌, ◌≢◌, ◌↔◌, ◌⊎◌, refl, true, false, List, [], ◌∷◌, none, some,
  keep, leb, arith,
}
use gluetun_proton_list_upda.Scoring.{Scored, top_n}
use gluetun_proton_list_upda.Engine.Core.{Engine, Reading, Transfer}
use gluetun_proton_list_upda.Engine.Transfer.{
  blocks_switch, transfer_in_progress, accept_reading, refuse_reading, record_sample, note_busy,
  is_busy, average_rates, total_download, total_upload,
}
use gluetun_proton_list_upda.Engine.Transfer.Window.{
  Poll, answered, silent, poll, run_polls, taken as readings_taken, last_taken, run_polls-samples,
}
use gluetun_proton_list_upda.Engine.Transfer.Blocks.{StaysBusy, hold_ends, busy_run_bounded}
use gluetun_proton_list_upda.Engine.Decide.{evaluate_verdict}
use gluetun_proton_list_upda.Engine.Decide.Rules.{MovesOn}
use gluetun_proton_list_upda.Engine.Decide.Gates.{Ready, Automatic, evaluate_verdict-Moves}
use gluetun_proton_list_upda.Engine.Remote.{Request, Remote, fuel_spent, failed}
use gluetun_proton_list_upda.Engine.Switch.{
  wait_for_stable_tunnel, verify_tunnel, verify_from, look, look_running, is_only,
  best_effort_public_ip,
}
use gluetun_proton_list_upda.Engine.Switch.Polling.{
  Ticks, SeenOn, polling_ends, verify_tunnel_confirmed,
}
use gluetun_proton_list_upda.Engine.Attempt.{
  Previous, perform_switch, confirm_target, flag_restart_needed,
}
use gluetun_proton_list_upda.Engine.Attempt.Outcomes.{confirm_target_interval, cancelled_is_flagged}
use gluetun_proton_list_upda.Engine.Attempt.Moves.{taken, perform_switch_once}
use gluetun_proton_list_upda.Engine.Attempt.Targets.{OnlyPins, IsTarget, perform_switch_targets}
use gluetun_proton_list_upda.Tests.Samples.{
  nat_float, plain, scored, sample_config, no_transfer, sample_engine, sample_remote, slept,
}

abbrev from_busy : Previous ℕ
from_busy = record { hostname = "se-9.example"; scored = some (scored "se-9.example" 9 90 9) }

perform_switch_once_example :
    taken sample_remote (perform_switch plain sample_remote sample_engine from_busy "manual" []).1
    ≤ suc (taken sample_remote [])
perform_switch_once_example =
    perform_switch_once plain sample_remote sample_engine from_busy "manual" [] (λ _. refl)

perform_switch_targets_example :
    OnlyPins sample_remote
      (IsTarget plain sample_remote sample_engine from_busy)
      (perform_switch plain sample_remote sample_engine from_busy "manual" []).1
perform_switch_targets_example =
    perform_switch_targets plain sample_remote sample_engine from_busy "manual"

evaluate_verdict-Moves_example :
    MovesOn (evaluate_verdict nat_float sample_engine 200 "se-9.example" false) ↔ (
      (best : Scored ℕ) × (rest : List (Scored ℕ)) × (sample_engine.ranked ≡ best ∷ rest)
      × Ready sample_engine.gluetun
      × ((false ≡ true) ⊎ Automatic nat_float sample_engine 200 "se-9.example" best))
evaluate_verdict-Moves_example =
    evaluate_verdict-Moves nat_float sample_engine 200 "se-9.example" false

abbrev best : Scored ℕ
best = scored "se-3.example" 1 10 1

slept_forward : (r : Request) (log : List Request) → slept log ≤ slept (r ∷ log)
slept_forward r log = ground arith

sample_remote-Ticks : Ticks sample_remote
sample_remote-Ticks = record { forward = slept_forward; waits = λ log. omega arith }

polling_ends_example :
    ((wait_for_stable_tunnel sample_remote []).0 ≢ failed fuel_spent)
    × ((verify_tunnel sample_remote sample_engine "se-2.example" "9.9.9.9" []).1 ≢ some fuel_spent)
polling_ends_example =
    polling_ends sample_remote sample_engine "se-2.example" "9.9.9.9" [] sample_remote-Ticks

verified : (verify_tunnel sample_remote sample_engine "se-2.example" "9.9.9.9" []).1 ≡ none
unfolding verify_tunnel verify_from look look_running is_only best_effort_public_ip
verified = refl

verify_tunnel_confirmed_example :
    SeenOn sample_remote "se-2.example"
      (verify_tunnel sample_remote sample_engine "se-2.example" "9.9.9.9" []).2
verify_tunnel_confirmed_example =
    verify_tunnel_confirmed sample_remote sample_engine "se-2.example" "9.9.9.9" [] refl verified

abbrev busy_reading : Reading
busy_reading = record { download = 500; upload = 0; downloaded_bytes = 1000; uploaded_bytes = 0 }

abbrev polls : List (ℕ × Poll)
polls =
    (10, answered "qbittorrent" busy_reading)
    ∷ (15, silent "refused")
    ∷ (20, answered "qbittorrent" busy_reading)
    ∷ []

run_polls-samples_example :
    (run_polls sample_config polls no_transfer).samples
    ≡ keep (λ s. leb (last_taken 0 polls) (s.at + sample_config.busy_window)) (readings_taken polls)
run_polls-samples_example =
    run_polls-samples sample_config polls no_transfer (λ h. absurd (omega arith)) refl
      (omega arith, (omega arith, (omega arith, tt)))

abbrev polled_engine : Engine ℕ
polled_engine = record sample_engine { transfer = run_polls sample_config polls no_transfer }

abbrev late : ℕ
late = 900000000000

noted_at : (run_polls sample_config polls no_transfer).busy_since ≡ 10
unfolding run_polls poll accept_reading refuse_reading record_sample note_busy is_busy average_rates
    total_download total_upload
noted_at = refl

hold_ends_example : (blocks_switch polled_engine late).1 ≡ none
hold_ends_example =
    hold_ends polled_engine no_transfer polls 10 late (λ h. absurd (omega arith))
      (omega arith, (omega arith, (omega arith, tt))) refl refl (omega arith) (omega arith)
      (omega (arith, noted_at))

abbrev busy_before : Transfer
busy_before = record no_transfer { checked_at = 9; busy_since = 9 }

abbrev one_more : List (ℕ × Poll)
one_more = (10, answered "qbittorrent" busy_reading) ∷ []

abbrev still_busy : Engine ℕ
still_busy = record sample_engine { transfer = run_polls sample_config one_more busy_before }

one_more-StaysBusy : StaysBusy sample_config one_more busy_before
unfolding run_polls poll accept_reading refuse_reading record_sample note_busy is_busy average_rates
    total_download total_upload
one_more-StaysBusy = (refl, tt)

held : (blocks_switch still_busy 40).1 ≡ some transfer_in_progress
unfolding blocks_switch run_polls poll accept_reading refuse_reading record_sample note_busy is_busy
    average_rates total_download total_upload
held = refl

busy_run_bounded_example : 40 ≤ 9 + 50
busy_run_bounded_example =
    busy_run_bounded still_busy busy_before one_more 40 (λ h. absurd (omega arith))
      one_more-StaysBusy refl (omega arith) held

abbrev second : Scored ℕ
second = scored "se-2.example" 2 40 4

confirm_target_interval_example :
    (confirm_target plain sample_remote sample_engine from_busy second "manual" "9.9.9.9"
      []).0.store.state.last_switch_at
    ≡ (elim (verify_tunnel sample_remote sample_engine "se-2.example" "9.9.9.9" []).1 [
      | none ↦ slept (verify_tunnel sample_remote sample_engine "se-2.example" "9.9.9.9" []).2
      | some _ ↦ sample_engine.store.state.last_switch_at
    ])
confirm_target_interval_example =
    confirm_target_interval plain sample_remote sample_engine from_busy second "manual" "9.9.9.9" []

abbrev ended_remote : Remote ℕ
ended_remote = record sample_remote { cancelled = λ _. true }

some_targets : (length (top_n sample_engine.ranked sample_engine.cfg.candidates) == 0) ≡ false
unfolding top_n
some_targets = refl

cancelled_is_flagged_example :
    perform_switch plain ended_remote sample_engine from_busy "manual" []
    ≡ (flag_restart_needed plain ended_remote sample_engine, [])
cancelled_is_flagged_example =
    cancelled_is_flagged plain ended_remote sample_engine from_busy "manual" [] refl refl
      some_targets

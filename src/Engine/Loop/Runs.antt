-- ===== src/Engine/Loop/Runs.antt =====
-- internal/engine: what holds after every run of the loop, whatever Proton, Gluetun, qBittorrent and
-- the disk answer in each round.
use gluetun_proton_list_upda.Prelude.{
  ◌≤◌, ◌≡◌, refl, true, false, List, [], ◌∷◌, some, arith, length,
}
use gluetun_proton_list_upda.Prelude.Real.{Float}
use gluetun_proton_list_upda.Platform.{Platform}
use gluetun_proton_list_upda.Engine.State.{
  PersistedState, SwitchRecord, trim, max_history, max_server_stats,
}
use gluetun_proton_list_upda.Engine.State.Caps.{trim-Trimmed}
use gluetun_proton_list_upda.Engine.Core.{Config}
use gluetun_proton_list_upda.Engine.Attempt.{add_record}
use gluetun_proton_list_upda.Engine.Switch.{Log}
use gluetun_proton_list_upda.Engine.Program.{Program, World}
use gluetun_proton_list_upda.Engine.Loop.{
  Event, list_due, loads_due, latency_due, evaluation_due, health_due, transfer_due, flush_due,
  best_asked, server_asked, write_asked, auto_asked, clear_asked, updater_asked, loop_asked, step,
  run,
}
use gluetun_proton_list_upda.Engine.Loop.Frame.{
  Keeps, list-Keeps, loads-Keeps, latency-Keeps, transfer-Keeps, flush-Keeps, write-Keeps,
  change-Keeps,
}
use gluetun_proton_list_upda.Engine.Loop.Rounds.{
  evaluate-Keeps, check_gluetun-Keeps, run_updater-Keeps, loop_status-Keeps, move_to-Keeps,
}

-- the round's time and answers
abbrev pub world_of : {F : Type 0} → Event F → World F
world_of (list_due w _ _) = w
world_of (loads_due w _) = w
world_of (latency_due w _) = w
world_of (evaluation_due w) = w
world_of (health_due w _) = w
world_of (transfer_due w _) = w
world_of (flush_due w) = w
world_of (best_asked w) = w
world_of (server_asked w _) = w
world_of (write_asked w) = w
world_of (auto_asked w _) = w
world_of (clear_asked w) = w
world_of (updater_asked w _) = w
world_of (loop_asked w _ _ _) = w

module _ {F : Type 0} (fl : Float F) (p : Platform) (Q : Config F → PersistedState F → Type 0)
    (calm : (c : Config F) (s t : PersistedState F)
      → t.last_switch_at ≡ s.last_switch_at
      → Q c s
      → Q c (trim t)) where
  -- one round, for a property that also the records of a switch preserve
  pub step-Keeps :
      (event : Event F) (q : Program F)
      → ((c : Config F) (r : SwitchRecord F) (s : PersistedState F) (log : Log)
          → r.at ≡ (world_of event).remote.clock log
          → Q c s
          → Q c (trim (add_record p (world_of event).remote r s)))
      → Keeps Q calm q.engine
      → Keeps Q calm (step fl p event q).0.engine
  unfolding step
  step-Keeps (list_due w account answer) q adds h =
      evaluate-Keeps fl p Q calm w adds false _ (list-Keeps Q calm fl p w account answer q h)
  step-Keeps (loads_due w answer) q adds h = loads-Keeps Q calm fl w answer q h
  step-Keeps (latency_due w dials) q adds h = latency-Keeps Q calm fl w dials q h
  step-Keeps (evaluation_due w) q adds h = evaluate-Keeps fl p Q calm w adds false q h
  step-Keeps (health_due w c) q adds h = check_gluetun-Keeps fl p Q calm w adds c q h
  step-Keeps (transfer_due w answers) q adds h = transfer-Keeps Q calm p w answers q h
  step-Keeps (flush_due w) q adds h = flush-Keeps Q calm w q h
  step-Keeps (best_asked w) q adds h = evaluate-Keeps fl p Q calm w adds true q h
  step-Keeps (server_asked w host) q adds h = move_to-Keeps fl p Q calm w adds host q h
  step-Keeps (write_asked w) q adds h = write-Keeps Q calm p w q h
  step-Keeps (auto_asked w enabled) q adds h =
      change-Keeps Q calm w (λ s. record s { auto_switch = some enabled }) q refl h
  step-Keeps (clear_asked w) q adds h =
      change-Keeps Q calm w (λ s. record s { history = [] }) q refl h
  step-Keeps (updater_asked w c) q adds h = run_updater-Keeps fl p Q calm w adds c q h
  step-Keeps (loop_asked w status accepted c) q adds h =
      loop_status-Keeps fl p Q calm w adds status accepted c q h

-- The state is within its caps.
abbrev pub IsCapped : {F : Type 0} → PersistedState F → Type 0
IsCapped s = (length s.history ≤ max_history) × (length s.stats ≤ max_server_stats)

trim-IsCapped : {F : Type 0} (s : PersistedState F) → IsCapped (trim s)
trim-IsCapped s = let t = trim-Trimmed s in (omega (arith, t.kept), t.stats_capped)

module _ {F : Type 0} (fl : Float F) (p : Platform) where
  -- From a state within its caps, every run of the loop ends in one: the history has at most 100
  -- entries and at most 600 servers have statistics.
  pub run-IsCapped :
      (events : List (Event F)) (q : Program F)
      → IsCapped q.engine.store.state
      → IsCapped (run fl p events q).0.engine.store.state
  unfolding run
  run-IsCapped [] q h = h
  run-IsCapped (event ∷ events) q h = run-IsCapped events (step fl p event q).0 (
      step-Keeps fl p (λ _ s. IsCapped s) (λ _ _ t _ _. trim-IsCapped t) event q
        (λ _ _ _ _ _ _. trim-IsCapped _) h)

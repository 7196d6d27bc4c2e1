-- ===== src/Engine/Loop/Quiet.antt =====
-- internal/engine: with reconnect mode "none" the loop does not move the tunnel of its own accord.
use gluetun_proton_list_upda.Prelude.{
  ◌≡◌, refl, sym, subst, false, ◌&&◌, List, [], ◌∷◌, Bool-cases, Option-cases, inl, inr, All,
}
use gluetun_proton_list_upda.Prelude.Real.{Float}
use gluetun_proton_list_upda.Platform.{Platform}
use gluetun_proton_list_upda.Engine.State.{PersistedState, SwitchRecord, trim}
use gluetun_proton_list_upda.Engine.Core.{Config, reconnect_none}
use gluetun_proton_list_upda.Engine.Current.{current_hostname}
use gluetun_proton_list_upda.Engine.Decide.{evaluate_verdict}
use gluetun_proton_list_upda.Engine.Decide.Gates.{evaluate_verdict-Moves}
use gluetun_proton_list_upda.Engine.Decide.Rules.{Moves, MovesOn}
use gluetun_proton_list_upda.Engine.Attempt.{add_record}
use gluetun_proton_list_upda.Engine.Switch.{Log}
use gluetun_proton_list_upda.Engine.Program.{Program, World}
use gluetun_proton_list_upda.Engine.Tasks.{refresh_server_list}
use gluetun_proton_list_upda.Engine.Health.{
  Checkup, evaluate, check_gluetun, note_gluetun, became_usable, has_ranked,
}
use gluetun_proton_list_upda.Engine.Loop.{
  Event, list_due, loads_due, latency_due, evaluation_due, health_due, transfer_due, flush_due,
  best_asked, server_asked, write_asked, auto_asked, clear_asked, updater_asked, loop_asked, step,
  run,
}
use gluetun_proton_list_upda.Engine.Loop.Frame.{list-Keeps, note_gluetun-Keeps}
use gluetun_proton_list_upda.Engine.Loop.Same.{Verdict-cases}
use gluetun_proton_list_upda.Engine.Loop.Runs.{step-Keeps, world_of}
use gluetun_proton_list_upda.Engine.Loop.Spaced.{IsAutomatic}

-- The rounds that nobody asked a move, a fetch, or a start or stop of Gluetun in.
abbrev pub IsUnasked : {F : Type 0} → Event F → Type 0
IsUnasked (loop_asked _ _ _ _) = ⊥
IsUnasked event = IsAutomatic event

module _ {F : Type 0} (fl : Float F) (p : Platform) where
  Off : Config F → PersistedState F → Type 0
  Off c s = c.mode ≡ reconnect_none

  Off-calm :
      (c : Config F) (s t : PersistedState F)
      → t.last_switch_at ≡ s.last_switch_at
      → Off c s
      → Off c (trim t)
  unfolding Off
  Off-calm c s t e h = h

  Off-adds :
      (event : Event F) (c : Config F) (r : SwitchRecord F) (s : PersistedState F) (log : Log)
      → r.at ≡ (world_of event).remote.clock log
      → Off c s
      → Off c (trim (add_record p (world_of event).remote r s))
  unfolding Off
  Off-adds event c r s log e h = h

  evaluate_quiet :
      (w : World F) (q : Program F)
      → q.engine.cfg.mode ≡ reconnect_none
      → (evaluate fl p w false q).1 ≡ []
  unfolding evaluate
  evaluate_quiet w q h =
      let host = current_hostname p q.engine in
      elim (Verdict-cases (evaluate_verdict fl q.engine w.now host false).1) [
        | inl (why, n) ↦ rw (n, evaluate) refl
        | inr (r, n) ↦
            let moves : MovesOn (evaluate_verdict fl q.engine w.now host false) =
              subst Moves (sym n) tt in
            let (best, rest, ranked, ready, why) =
              (evaluate_verdict-Moves fl q.engine w.now host false).0 moves in
            elim why [ inl forced ↦ cc | inr (mode, status, on, may) ↦ absurd (mode h) ]
      ]

  check_quiet :
      (w : World F) (c : Checkup) (q : Program F)
      → q.engine.cfg.mode ≡ reconnect_none
      → (check_gluetun fl p w c q).1 ≡ []
  unfolding check_gluetun Off
  check_quiet w c q h = elim (Option-cases c.status) [
    | inl n ↦ rw (n, check_gluetun) refl
    | inr (status, n) ↦
        let q' = note_gluetun fl p w status c q in
        let k : q'.engine.cfg.mode ≡ reconnect_none =
          note_gluetun-Keeps Off Off-calm fl p w status c q h in
        elim (Bool-cases
          (became_usable q.engine.gluetun q'.engine.gluetun && has_ranked q'.engine.ranked)) [
            | inl t ↦ rw (n, check_gluetun) (rw t (evaluate_quiet w q' k))
            | inr f ↦ rw (n, check_gluetun) (rw f refl)
          ]
  ]

  step_quiet :
      (event : Event F) (q : Program F)
      → IsUnasked event
      → q.engine.cfg.mode ≡ reconnect_none
      → (step fl p event q).1 ≡ []
  unfolding step Off
  step_quiet (list_due w account answer) q a h =
      evaluate_quiet w (refresh_server_list fl p w account answer q)
        (list-Keeps Off Off-calm fl p w account answer q h)
  step_quiet (loads_due w answer) q a h = refl
  step_quiet (latency_due w dials) q a h = refl
  step_quiet (evaluation_due w) q a h = evaluate_quiet w q h
  step_quiet (health_due w c) q a h = check_quiet w c q h
  step_quiet (transfer_due w answers) q a h = refl
  step_quiet (flush_due w) q a h = refl
  step_quiet (best_asked w) q a h = absurd a
  step_quiet (server_asked w host) q a h = absurd a
  step_quiet (write_asked w) q a h = refl
  step_quiet (auto_asked w enabled) q a h = refl
  step_quiet (clear_asked w) q a h = refl
  step_quiet (updater_asked w c) q a h = absurd a
  step_quiet (loop_asked w status accepted c) q a h = absurd a

  -- With reconnect mode "none", a run of rounds in which nobody asked for a move, a fetch, or a start
  -- or stop of one of Gluetun's loops sends Gluetun no request that changes anything, whatever happens
  -- outside. What a health check reads is not among these requests.
  pub run_quiet :
      (events : List (Event F)) (q : Program F)
      → All IsUnasked events
      → q.engine.cfg.mode ≡ reconnect_none
      → (run fl p events q).1 ≡ []
  unfolding run Off
  run_quiet [] q a h = refl
  run_quiet (event ∷ events) q a h =
      let q' = (step fl p event q).0 in
      let k : q'.engine.cfg.mode ≡ reconnect_none =
        step-Keeps fl p Off Off-calm event q (Off-adds event) h in
      let first = step_quiet event q a.0 h in
      let later = run_quiet events q' a.1 k in rw (first, run) (rw (later, run) refl)

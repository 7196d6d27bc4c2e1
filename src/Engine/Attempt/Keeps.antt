-- ===== src/Engine/Attempt/Keeps.antt =====
-- internal/engine/switch.go: what a switch does to the persisted state is pins and records.
use gluetun_proton_list_upda.Prelude.{
  ℕ, suc, ◌≡◌, inl, inr, refl, String, List, [], ◌∷◌, Option, some, arith,
}
use gluetun_proton_list_upda.Platform.{Platform}
use gluetun_proton_list_upda.Scoring.{Scored, top_n}
use gluetun_proton_list_upda.Engine.Core.{Config, Engine}
use gluetun_proton_list_upda.Engine.State.{SwitchRecord, PersistedState, trim, update}
use gluetun_proton_list_upda.Engine.Remote.{
  pin, reconnect, rejected, timed_out, other, fuel_spent, ApiError, Remote,
}
use gluetun_proton_list_upda.Engine.Switch.Polling.{Reply-cases}
use gluetun_proton_list_upda.Engine.Switch.{Log, wait_for_stable_tunnel, verify_tunnel}
use gluetun_proton_list_upda.Engine.Attempt.{
  remember_pin, add_record, save_state, pin_target, reconnect_target, apply_target, switch_record,
  record_switch, refresh_server_list, forget_hostnames, confirm_target, try_each, try_candidates,
  perform_switch, flag_restart_needed, Previous, learn,
}

module _ {F : Type 0} (p : Platform) (g : Remote F) (Q : Config F → PersistedState F → Type 0)
    (pins : (c : Config F) (host : String) (s : PersistedState F)
      → Q c s
      → Q c (trim (remember_pin host s)))
    (adds : (c : Config F) (r : SwitchRecord F) (s : PersistedState F) (log : Log)
      → r.at ≡ g.clock log
      → Q c s
      → Q c (trim (add_record p g r s))) where
  abbrev pub Holds : Engine F → Type 0
  Holds e = Q e.cfg e.store.state

  pin-Holds :
      (e : Engine F) (host : String) (log : Log)
      → Holds e
      → Holds (save_state g (remember_pin host) e log).0
  unfolding update
  pin-Holds e host log h = let k = pins e.cfg host e.store.state h in ground arith

  pub record_switch-Holds :
      (e : Engine F) (previous : Previous F) (target : Scored F) (reason ip : String)
      (err : Option ApiError) (log : Log)
      → Holds e
      → Holds (record_switch p g e previous target reason ip err log).0
  unfolding record_switch update switch_record
  record_switch-Holds e previous target reason ip err log h =
      let r = switch_record p g e previous target reason ip err (g.clock log) in
      let k = adds e.cfg r e.store.state log refl h in ground arith

  pin_target-Holds :
      (e : Engine F) (target : Scored F) (log : Log)
      → Holds e
      → Holds (pin_target p g e target log).1
  unfolding pin_target
  pin_target-Holds e target log h =
      let c = target.candidate in
      let k = pin-Holds e c.hostname (pin c.hostname c.country c.city ∷ log) h in ground arith

  reconnect_target-Holds :
      (e : Engine F) (log : Log) → Holds e → Holds (reconnect_target p g e log).1
  unfolding reconnect_target
  reconnect_target-Holds e log h = let k = pin-Holds e "" (reconnect ∷ log) h in ground arith

  pub apply_target-Holds :
      (e : Engine F) (target : Scored F) (log : Log)
      → Holds e
      → Holds (apply_target p g e target log).1
  unfolding apply_target
  apply_target-Holds e target log h =
      let waited = (wait_for_stable_tunnel g log).1 in
      let a = pin_target-Holds e target waited h in
      let b = reconnect_target-Holds e waited h in ground arith

  pub learn-Holds : (err : ApiError) (e : Engine F) → Holds e → Holds (learn err e)
  unfolding learn
  learn-Holds err e h = ground arith

  pub refresh-Holds : (e : Engine F) (log : Log) → Holds e → Holds (refresh_server_list p g e log).1
  unfolding refresh_server_list forget_hostnames
  refresh-Holds e log h = ground arith

  pub confirm_target-Holds :
      (e : Engine F) (previous : Previous F) (target : Scored F) (reason ip : String) (log : Log)
      → Holds e
      → Holds (confirm_target p g e previous target reason ip log).0
  unfolding confirm_target
  confirm_target-Holds e previous target reason ip log h =
      let (public_ip, err, looked) = verify_tunnel g e target.candidate.hostname ip log in
      let k = record_switch-Holds e previous target reason public_ip err looked h in ground arith

  try_each-Holds :
      (targets : List (Scored F)) (e : Engine F) (previous : Previous F) (reason ip : String)
      (rejections skipped : ℕ) (log : Log)
      → Holds e
      → Holds (try_each p g targets e previous reason ip rejections skipped log).2
  unfolding try_each
  try_each-Holds [] e previous reason ip rejections skipped log h = h
  try_each-Holds (target ∷ rest) e previous reason ip rejections skipped log h =
      let (answer, applied, asked) = apply_target p g e target log in
      let passed_over = try_each-Holds rest e previous reason ip rejections skipped log h in
      let unknown = try_each-Holds rest e previous reason ip rejections (suc skipped) log h in
      let a = apply_target-Holds e target log h in
      let c = confirm_target-Holds applied previous target reason ip asked a in
      elim (Reply-cases answer) [
        | inl (outcome, q) ↦ ground arith
        | inr (rejected hosts, q) ↦
            let again =
              try_each-Holds rest (learn (rejected hosts) applied) previous reason ip
                (suc rejections) skipped asked (learn-Holds (rejected hosts) applied a) in
            ground arith
        | inr (timed_out text, q) ↦ ground arith
        | inr (other text, q) ↦
            let r =
              record_switch-Holds applied previous target reason "" (some (other text)) asked a in
            ground arith
        | inr (fuel_spent, q) ↦
            let r =
              record_switch-Holds applied previous target reason "" (some fuel_spent) asked a in
            ground arith
      ]

  try_candidates-Holds :
      (targets : List (Scored F)) (e : Engine F) (previous : Previous F) (reason : String)
      (log : Log)
      → Holds e
      → Holds (try_candidates p g targets e previous reason log).1
  unfolding try_candidates
  try_candidates-Holds targets e previous reason log h =
      let tried = try_each p g targets e previous reason e.gluetun.exit_ip 0 0 log in
      let a = try_each-Holds targets e previous reason e.gluetun.exit_ip 0 0 log h in
      let b = refresh-Holds tried.2 tried.3 a in ground arith

  pub perform_switch-Holds :
      (e : Engine F) (previous : Previous F) (reason : String) (log : Log)
      → Holds e
      → Holds (perform_switch p g e previous reason log).0
  unfolding perform_switch flag_restart_needed
  perform_switch-Holds e previous reason log h =
      let targets = top_n e.ranked e.cfg.candidates in
      let (switched, e1, log1) = try_candidates p g targets e previous reason log in
      let (retry, e2, log2) = refresh_server_list p g e1 log1 in
      let a = try_candidates-Holds targets e previous reason log h in
      let b = refresh-Holds e1 log1 a in
      let c = try_candidates-Holds targets e2 previous reason log2 b in ground arith

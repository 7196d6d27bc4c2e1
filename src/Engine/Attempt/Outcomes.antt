-- ===== src/Engine/Attempt/Outcomes.antt =====
-- internal/engine/switch.go: what a switch leaves behind where it fails.
use gluetun_proton_list_upda.Prelude.{
  ℕ, ◌≡◌, refl, ap, ◌∙◌, String, Bool, true, false, List, [], ◌∷◌, Option, none, some, length,
  arith, ltb, ◌==◌,
}
use gluetun_proton_list_upda.Platform.{Platform}
use gluetun_proton_list_upda.Scoring.{Scored, top_n}
use gluetun_proton_list_upda.Engine.State.{PersistedState, StateStore, update, trim}
use gluetun_proton_list_upda.Engine.Core.{Engine}
use gluetun_proton_list_upda.Engine.Remote.{ApiError, Remote}
use gluetun_proton_list_upda.Engine.Switch.{Log, verify_tunnel}
use gluetun_proton_list_upda.Engine.Attempt.{
  Previous, record_switch, switch_record, confirm_target, try_each, try_candidates,
  refresh_server_list, flag_restart_needed, perform_switch,
}

last_switch_at-update :
    {F : Type 0} (change : PersistedState F → PersistedState F) (writes : Bool) (s : StateStore F)
    → (update change writes s).0.state.last_switch_at ≡ (change s.state).last_switch_at
unfolding update trim
last_switch_at-update change true s = refl
last_switch_at-update change false s = refl

module _ {F : Type 0} (p : Platform) (g : Remote F) where
  last_switch_at-record_switch :
      (e : Engine F) (previous : Previous F) (target : Scored F) (reason ip : String)
      (err : Option ApiError) (log : Log)
      → (record_switch p g e previous target reason ip err log).0.store.state.last_switch_at
        ≡ (elim err [ none ↦ g.clock log | some _ ↦ e.store.state.last_switch_at ])
  unfolding record_switch switch_record
  last_switch_at-record_switch e previous target reason ip none log =
      last_switch_at-update _ _ e.store
  last_switch_at-record_switch e previous target reason ip (some err) log =
      last_switch_at-update _ _ e.store

  -- A target that Gluetun took starts the interval between switches anew, at the time its
  -- verification ends, if that succeeds; if it fails, the interval still counts from the switch
  -- before.
  pub confirm_target_interval :
      (e : Engine F) (previous : Previous F) (target : Scored F) (reason ip : String) (log : Log)
      → let verified : String × Option ApiError × Log =
          verify_tunnel g e target.candidate.hostname ip log in
        (confirm_target p g e previous target reason ip log).0.store.state.last_switch_at
        ≡ (elim verified.1 [ none ↦ g.clock verified.2 | some _ ↦ e.store.state.last_switch_at ])
  unfolding confirm_target
  confirm_target_interval e previous target reason ip log =
      let verified : String × Option ApiError × Log =
        verify_tunnel g e target.candidate.hostname ip log in
      let recorded =
        last_switch_at-record_switch e previous target reason verified.0 verified.1 verified.2 in
      ground arith

  try_each_cancelled :
      (first : Scored F) (rest : List (Scored F)) (e : Engine F) (previous : Previous F)
      (reason ip : String) (rejections skipped : ℕ) (log : Log)
      → g.cancelled log ≡ true
      → try_each p g (first ∷ rest) e previous reason ip rejections skipped log
        ≡ (false, ltb 0 rejections, e, log)
  unfolding try_each
  try_each_cancelled first rest e previous reason ip rejections skipped log ended = ground arith

  refresh_off :
      (e : Engine F) (log : Log)
      → e.cfg.refresh_servers_on_reject ≡ false
      → refresh_server_list p g e log ≡ (false, e, log)
  unfolding refresh_server_list
  refresh_off e log off = ground arith

  try_candidates_cancelled :
      (targets : List (Scored F)) (e : Engine F) (previous : Previous F) (reason : String)
      (log : Log)
      → g.cancelled log ≡ true
      → (length targets == 0) ≡ false
      → try_candidates p g targets e previous reason log ≡ (false, e, log)
  unfolding try_candidates
  try_candidates_cancelled [] e previous reason log ended some_left = absurd (ground arith)
  try_candidates_cancelled (first ∷ rest) e previous reason log ended some_left =
      let tried = try_each_cancelled first rest e previous reason e.gluetun.exit_ip 0 0 log ended in
      ground arith

  -- If the context has ended before a switch begins, there is a server to switch to, and the refresh
  -- of Gluetun's list on a refusal is off, then nothing is asked of Gluetun, and it is nevertheless
  -- reported that Gluetun refused every server and has to be restarted.
  pub cancelled_is_flagged :
      (e : Engine F) (previous : Previous F) (reason : String) (log : Log)
      → g.cancelled log ≡ true
      → e.cfg.refresh_servers_on_reject ≡ false
      → (length (top_n e.ranked e.cfg.candidates) == 0) ≡ false
      → perform_switch p g e previous reason log ≡ (flag_restart_needed p g e, log)
  unfolding perform_switch
  cancelled_is_flagged e previous reason log ended off some_left =
      let targets = top_n e.ranked e.cfg.candidates in
      let tried = try_candidates_cancelled targets e previous reason log ended some_left in
      let one = try_candidates p g targets e previous reason log in
      let kept : refresh_server_list p g one.1 one.2 ≡ (false, e, log) =
        ap (λ (r : Bool × Engine F × Log). refresh_server_list p g r.1 r.2) tried
        ∙ refresh_off e log off in
      ground arith

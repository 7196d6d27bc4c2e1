-- ===== src/Engine/Attempt/Moves.antt =====
-- internal/engine/switch.go: how often one switch makes Gluetun move.
use gluetun_proton_list_upda.Prelude.{
  ℕ, zero, suc, ◌+◌, ◌/◌, ◌≤◌, ◌≡◌, inl, inr, refl, String, Bool, true, false, List, [], ◌∷◌,
  str_eq, if◌then◌else◌, Bool-cases, arith,
}
use gluetun_proton_list_upda.Platform.{Platform}
use gluetun_proton_list_upda.Scoring.{Scored, top_n}
use gluetun_proton_list_upda.Engine.Core.{Engine, reconnect_settings}
use gluetun_proton_list_upda.Engine.Remote.{
  ask_status, pin, reconnect, save, sleep, rejected, timed_out, other, fuel_spent, Reply, failed,
  Remote,
}
use gluetun_proton_list_upda.Engine.Switch.{
  Log, poll_interval, settle, wait_for_stable_tunnel, best_effort_public_ip, look_running, look,
  verify_from, verify_tunnel,
}
use gluetun_proton_list_upda.Engine.Switch.Polling.{Reply-cases}
use gluetun_proton_list_upda.Engine.Attempt.{
  restart_if_kept, pin_target, reconnect_target, apply_target, record_switch, refresh_server_list,
  confirm_target, try_each, try_candidates, perform_switch, Previous, learn,
}

abbrev pub is_refusal : Reply String → Bool
is_refusal (failed (rejected _)) = true
is_refusal _ = false

module _ {F : Type 0} (g : Remote F) where
  -- the pins that Gluetun did not refuse, which move its tunnel or may do so
  unfoldable pub taken : Log → ℕ
  taken [] = 0
  taken (pin host country city ∷ log) =
      let rest = taken log in
      if is_refusal (g.pin_server (pin host country city ∷ log)) then rest else suc rest
  taken (_ ∷ log) = taken log

  taken-settle : (fuel started : ℕ) (log : Log) → taken (settle g fuel started log).1 ≡ taken log
  unfolding settle taken
  taken-settle zero started log = refl
  taken-settle (suc n) started log =
      let ih = taken-settle n started (sleep ∷ ask_status ∷ log) in ground arith

  taken-look :
      (pinned : Bool) (host ip : String) (log : Log)
      → taken (look g pinned host ip log).1 ≡ taken log
  unfolding look look_running best_effort_public_ip taken
  taken-look true host ip log = ground arith
  taken-look false host ip log = ground arith

  taken-verify_from :
      (fuel deadline : ℕ) (pinned : Bool) (host ip : String) (log : Log)
      → taken (verify_from g fuel deadline pinned host ip log).2 ≡ taken log
  unfolding verify_from taken
  taken-verify_from zero deadline pinned host ip log = refl
  taken-verify_from (suc n) deadline pinned host ip log =
      let seen = taken-look pinned host ip (sleep ∷ log) in
      let ih =
        taken-verify_from n deadline pinned host ip (look g pinned host ip (sleep ∷ log)).1 in
      ground arith

-- A restart of the tunnel is answered or fails, but is not refused the way a hostname is.
abbrev pub RestartsFreely : {F : Type 0} → Remote F → Type 0
RestartsFreely g = (log : Log) → is_refusal (g.restart log) ≡ false

module _ {F : Type 0} (p : Platform) (g : Remote F) where
  taken-confirm_target :
      (e : Engine F) (previous : Previous F) (target : Scored F) (reason ip : String) (log : Log)
      → taken g (confirm_target p g e previous target reason ip log).1 ≡ taken g log
  unfolding confirm_target verify_tunnel record_switch taken
  taken-confirm_target e previous target reason ip log =
      let v =
        taken-verify_from g (suc (e.cfg.verify_timeout / poll_interval))
          (g.clock log + e.cfg.verify_timeout) (str_eq e.cfg.mode reconnect_settings)
          target.candidate.hostname ip log in
      ground arith

  taken-refresh :
      (e : Engine F) (log : Log) → taken g (refresh_server_list p g e log).2 ≡ taken g log
  unfolding refresh_server_list taken
  taken-refresh e log = ground arith

  -- at most one pin is taken, and none where the answer is a refusal
  AtMostOne : Log → Reply String → Log → Type 0
  AtMostOne before answer after =
      (taken g after ≤ suc (taken g before))
      × (is_refusal answer ≡ true → taken g after ≡ taken g before)

  taken-pin_target :
      RestartsFreely g
      → (e : Engine F) (target : Scored F) (log : Log)
      → AtMostOne log (pin_target p g e target log).0 (pin_target p g e target log).2
  unfolding pin_target restart_if_kept taken AtMostOne
  taken-pin_target free e target log =
      let asked =
        pin target.candidate.hostname target.candidate.country target.candidate.city ∷ log in
      let restarted = free (reconnect ∷ save ∷ asked) in
      elim (Reply-cases (g.pin_server asked)) [
        | inl (outcome, q) ↦ ground arith
        | inr (err, q) ↦ ground arith
      ]

  taken-reconnect_target :
      (e : Engine F) (log : Log) → taken g (reconnect_target p g e log).2 ≡ taken g log
  unfolding reconnect_target taken
  taken-reconnect_target e log = ground arith

  taken-apply_target :
      RestartsFreely g
      → (e : Engine F) (target : Scored F) (log : Log)
      → AtMostOne log (apply_target p g e target log).0 (apply_target p g e target log).2
  unfolding apply_target wait_for_stable_tunnel AtMostOne
  taken-apply_target free e target log =
      let w = taken-settle g 24 (g.clock log) log in
      let waited = (settle g 24 (g.clock log) log).1 in
      let a = taken-pin_target free e target waited in
      let b = taken-reconnect_target e waited in ground arith

  -- at most one pin is taken, and none where nothing was switched
  OneSwitch : Log → Bool → Log → Type 0
  OneSwitch before switched after =
      (taken g after ≤ suc (taken g before)) × (switched ≡ false → taken g after ≡ taken g before)

  taken-try_each :
      RestartsFreely g
      → (targets : List (Scored F)) (e : Engine F) (previous : Previous F) (reason ip : String)
        (rejections skipped : ℕ) (log : Log)
      → OneSwitch log
          (try_each p g targets e previous reason ip rejections skipped log).0
          (try_each p g targets e previous reason ip rejections skipped log).3
  unfolding try_each record_switch taken OneSwitch AtMostOne
  taken-try_each free [] e previous reason ip rejections skipped log = (omega arith, λ _. refl)
  taken-try_each free (target ∷ rest) e previous reason ip rejections skipped log =
      let applied = apply_target p g e target log in
      let a = taken-apply_target free e target log in
      let c = taken-confirm_target applied.1 previous target reason ip applied.2 in
      let passed_over = taken-try_each free rest e previous reason ip rejections skipped log in
      let unknown = taken-try_each free rest e previous reason ip rejections (suc skipped) log in
      elim (Bool-cases (g.cancelled log)) [
        | inl stop ↦ ground arith
        | inr live ↦ elim (Reply-cases applied.0) [
          | inl (outcome, q) ↦ ground arith
          | inr (rejected hosts, q) ↦
              let again =
                taken-try_each free rest (learn (rejected hosts) applied.1) previous reason ip
                  (suc rejections) skipped applied.2 in
              ground arith
          | inr (timed_out text, q) ↦ ground arith
          | inr (other text, q) ↦ ground arith
          | inr (fuel_spent, q) ↦ ground arith
        ]
      ]

  taken-try_candidates :
      RestartsFreely g
      → (targets : List (Scored F)) (e : Engine F) (previous : Previous F) (reason : String)
        (log : Log)
      → OneSwitch log
          (try_candidates p g targets e previous reason log).0
          (try_candidates p g targets e previous reason log).2
  unfolding try_candidates OneSwitch
  taken-try_candidates free targets e previous reason log =
      let tried = try_each p g targets e previous reason e.gluetun.exit_ip 0 0 log in
      let a = taken-try_each free targets e previous reason e.gluetun.exit_ip 0 0 log in
      let b = taken-refresh tried.2 tried.3 in ground arith

-- If a restart is never refused, then a switch, whatever Gluetun answers, with both rounds over the
-- candidates and the refresh between them, makes Gluetun take at most one pin.
pub perform_switch_once :
    {F : Type 0} (p : Platform) (g : Remote F) (e : Engine F) (previous : Previous F)
    (reason : String) (log : Log)
    → RestartsFreely g
    → taken g (perform_switch p g e previous reason log).1 ≤ suc (taken g log)
unfolding perform_switch OneSwitch
perform_switch_once p g e previous reason log free =
    let targets = top_n e.ranked e.cfg.candidates in
    let one = try_candidates p g targets e previous reason log in
    let a = taken-try_candidates p g free targets e previous reason log in
    let refreshed = refresh_server_list p g one.1 one.2 in
    let b = taken-refresh p g one.1 one.2 in
    let c = taken-try_candidates p g free targets refreshed.1 previous reason refreshed.2 in
    ground arith

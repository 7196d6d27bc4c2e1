-- ===== src/Engine/Attempt/Targets.antt =====
-- internal/engine/switch.go: which servers a switch asks Gluetun for.
use gluetun_proton_list_upda.Prelude.{
  ℕ, zero, suc, ◌+◌, ◌/◌, ◌≡◌, inl, inr, refl, String, Bool, true, false, List, [], ◌∷◌, str_eq,
  Bool-cases, Memᴰ, arith,
}
use gluetun_proton_list_upda.Platform.{Platform}
use gluetun_proton_list_upda.Scoring.{Scored, top_n}
use gluetun_proton_list_upda.Engine.Core.{Engine, reconnect_settings}
use gluetun_proton_list_upda.Engine.Remote.{
  ask_status, pin, sleep, rejected, timed_out, other, fuel_spent, Remote,
}
use gluetun_proton_list_upda.Engine.Switch.Polling.{Reply-cases}
use gluetun_proton_list_upda.Engine.Switch.{
  Log, poll_interval, settle, wait_for_stable_tunnel, best_effort_public_ip, look_running, look,
  verify_from, verify_tunnel,
}
use gluetun_proton_list_upda.Engine.Attempt.{
  restart_if_kept, pin_target, reconnect_target, apply_target, record_switch, refresh_server_list,
  confirm_target, try_each, try_candidates, perform_switch, Previous, learn, is_previous,
}

module _ {F : Type 0} (g : Remote F) (Allowed : String → Type 0) where
  -- Every pin in the log is of an allowed hostname.
  unfoldable pub OnlyPins : Log → Type 0
  OnlyPins [] = Unit
  OnlyPins (pin host country city ∷ log) = Allowed host × OnlyPins log
  OnlyPins (_ ∷ log) = OnlyPins log

  settle-OnlyPins :
      (fuel started : ℕ) (log : Log) → OnlyPins log → OnlyPins (settle g fuel started log).1
  unfolding settle OnlyPins
  settle-OnlyPins zero started log h = h
  settle-OnlyPins (suc n) started log h =
      let ih = settle-OnlyPins n started (sleep ∷ ask_status ∷ log) h in ground arith

  look-OnlyPins :
      (pinned : Bool) (host ip : String) (log : Log)
      → OnlyPins log
      → OnlyPins (look g pinned host ip log).1
  unfolding look look_running best_effort_public_ip OnlyPins
  look-OnlyPins true host ip log h = ground arith
  look-OnlyPins false host ip log h = ground arith

  pub verify_from-OnlyPins :
      (fuel deadline : ℕ) (pinned : Bool) (host ip : String) (log : Log)
      → OnlyPins log
      → OnlyPins (verify_from g fuel deadline pinned host ip log).2
  unfolding verify_from OnlyPins
  verify_from-OnlyPins zero deadline pinned host ip log h = h
  verify_from-OnlyPins (suc n) deadline pinned host ip log h =
      let seen = look-OnlyPins pinned host ip (sleep ∷ log) h in
      let ih =
        verify_from-OnlyPins n deadline pinned host ip (look g pinned host ip (sleep ∷ log)).1
          seen in
      ground arith

module _ {F : Type 0} (p : Platform) (g : Remote F) (Allowed : String → Type 0) where
  confirm_target-OnlyPins :
      (e : Engine F) (previous : Previous F) (target : Scored F) (reason ip : String) (log : Log)
      → OnlyPins g Allowed log
      → OnlyPins g Allowed (confirm_target p g e previous target reason ip log).1
  unfolding confirm_target verify_tunnel record_switch OnlyPins
  confirm_target-OnlyPins e previous target reason ip log h =
      let v =
        verify_from-OnlyPins g Allowed (suc (e.cfg.verify_timeout / poll_interval))
          (g.clock log + e.cfg.verify_timeout) (str_eq e.cfg.mode reconnect_settings)
          target.candidate.hostname ip log h in
      ground arith

  pub refresh-OnlyPins :
      (e : Engine F) (log : Log)
      → OnlyPins g Allowed log
      → OnlyPins g Allowed (refresh_server_list p g e log).2
  unfolding refresh_server_list OnlyPins
  refresh-OnlyPins e log h = ground arith

  pin_target-OnlyPins :
      (e : Engine F) (target : Scored F) (log : Log)
      → Allowed target.candidate.hostname
      → OnlyPins g Allowed log
      → OnlyPins g Allowed (pin_target p g e target log).2
  unfolding pin_target restart_if_kept OnlyPins
  pin_target-OnlyPins e target log a h = ground arith

  reconnect_target-OnlyPins :
      (e : Engine F) (log : Log)
      → OnlyPins g Allowed log
      → OnlyPins g Allowed (reconnect_target p g e log).2
  unfolding reconnect_target OnlyPins
  reconnect_target-OnlyPins e log h = ground arith

  pub apply_target-OnlyPins :
      (e : Engine F) (target : Scored F) (log : Log)
      → Allowed target.candidate.hostname
      → OnlyPins g Allowed log
      → OnlyPins g Allowed (apply_target p g e target log).2
  unfolding apply_target wait_for_stable_tunnel
  apply_target-OnlyPins e target log a h =
      let w = settle-OnlyPins g Allowed 24 (g.clock log) log h in
      let waited = (settle g 24 (g.clock log) log).1 in
      let b = pin_target-OnlyPins e target waited a w in
      let c = reconnect_target-OnlyPins e waited w in ground arith

  try_each-OnlyPins :
      (targets : List (Scored F)) (e : Engine F) (previous : Previous F) (reason ip : String)
      (rejections skipped : ℕ) (log : Log)
      → ((s : Scored F)
          → Memᴰ s targets
          → is_previous p g previous s ≡ false
          → Allowed s.candidate.hostname)
      → OnlyPins g Allowed log
      → OnlyPins g Allowed (try_each p g targets e previous reason ip rejections skipped log).3
  unfolding try_each record_switch OnlyPins
  try_each-OnlyPins [] e previous reason ip rejections skipped log all h = h
  try_each-OnlyPins (target ∷ rest) e previous reason ip rejections skipped log all h =
      let applied = apply_target p g e target log in
      let others = λ (s : Scored F) (m : Memᴰ s rest). all s (Memᴰ.tail m) in
      let passed_over =
        try_each-OnlyPins rest e previous reason ip rejections skipped log others h in
      let unknown =
        try_each-OnlyPins rest e previous reason ip rejections (suc skipped) log others h in
      elim (Bool-cases (is_previous p g previous target)) [
        | inl same ↦ ground arith
        | inr differs ↦
            let a = apply_target-OnlyPins e target log (all target (Memᴰ.head refl) differs) h in
            let c = confirm_target-OnlyPins applied.1 previous target reason ip applied.2 a in
            elim (Reply-cases applied.0) [
              | inl (outcome, q) ↦ ground arith
              | inr (rejected hosts, q) ↦
                  let again =
                    try_each-OnlyPins rest (learn (rejected hosts) applied.1) previous reason ip
                      (suc rejections) skipped applied.2 others a in
                  ground arith
              | inr (timed_out text, q) ↦ ground arith
              | inr (other text, q) ↦ ground arith
              | inr (fuel_spent, q) ↦ ground arith
            ]
      ]

  try_candidates-OnlyPins :
      (targets : List (Scored F)) (e : Engine F) (previous : Previous F) (reason : String)
      (log : Log)
      → ((s : Scored F)
          → Memᴰ s targets
          → is_previous p g previous s ≡ false
          → Allowed s.candidate.hostname)
      → OnlyPins g Allowed log
      → OnlyPins g Allowed (try_candidates p g targets e previous reason log).2
  unfolding try_candidates
  try_candidates-OnlyPins targets e previous reason log all h =
      let tried = try_each p g targets e previous reason e.gluetun.exit_ip 0 0 log in
      let a = try_each-OnlyPins targets e previous reason e.gluetun.exit_ip 0 0 log all h in
      let b = refresh-OnlyPins tried.2 tried.3 a in ground arith

-- A hostname that a switch may ask for: that of one of the best servers, and not of the one the
-- tunnel is on.
abbrev pub IsTarget : {F : Type 0} → Platform → Remote F → Engine F → Previous F → String → Type 0
IsTarget p g e previous host =
    (s : _) × Memᴰ s (top_n e.ranked e.cfg.candidates)
    × (is_previous p g previous s ≡ false)
    × (s.candidate.hostname ≡ host)

-- Whatever Gluetun answers, the hostnames that a switch asks it for, in both rounds, are all of
-- the configured number of best-ranked servers, and none is that of the server the tunnel is on.
pub perform_switch_targets :
    {F : Type 0} (p : Platform) (g : Remote F) (e : Engine F) (previous : Previous F)
    (reason : String)
    → OnlyPins g (IsTarget p g e previous) (perform_switch p g e previous reason []).1
unfolding perform_switch OnlyPins
perform_switch_targets p g e previous reason =
    let targets = top_n e.ranked e.cfg.candidates in
    let Allowed = IsTarget p g e previous in
    let all : (s : _)
        → Memᴰ s targets
        → is_previous p g previous s ≡ false
        → Allowed s.candidate.hostname =
      λ s m d. (s, m, d, refl) in
    let one = try_candidates p g targets e previous reason [] in
    let a = try_candidates-OnlyPins p g Allowed targets e previous reason [] all tt in
    let refreshed = refresh_server_list p g one.1 one.2 in
    let b = refresh-OnlyPins p g Allowed one.1 one.2 a in
    let c =
      try_candidates-OnlyPins p g Allowed targets refreshed.1 previous reason refreshed.2 all b in
    ground arith

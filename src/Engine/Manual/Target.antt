-- ===== src/Engine/Manual/Target.antt =====
-- internal/engine/switch.go, `switchTo`: which server it asks Gluetun for.
use gluetun_proton_list_upda.Prelude.{
  ◌+◌, ◌/◌, suc, ◌≡◌, refl, ◌⊎◌, String, [], some, str_eq, Bool-cases, Option-cases, inl, inr,
  arith,
}
use gluetun_proton_list_upda.Platform.{Platform}
use gluetun_proton_list_upda.Scoring.{Scored, find_host}
use gluetun_proton_list_upda.Scoring.Order.{find_host_first}
use gluetun_proton_list_upda.Engine.Core.{Engine, reconnect_settings}
use gluetun_proton_list_upda.Engine.Current.{find_candidate}
use gluetun_proton_list_upda.Engine.Remote.{
  rejected, timed_out, other, fuel_spent, Reply, ok, failed, Remote,
}
use gluetun_proton_list_upda.Engine.Switch.{Log, verify_tunnel, poll_interval}
use gluetun_proton_list_upda.Engine.Switch.Polling.{Reply-cases}
use gluetun_proton_list_upda.Engine.Attempt.{
  Previous, apply_target, learn, refresh_server_list, record_switch,
}
use gluetun_proton_list_upda.Engine.Attempt.Targets.{
  OnlyPins, verify_from-OnlyPins, apply_target-OnlyPins, refresh-OnlyPins,
}
use gluetun_proton_list_upda.Engine.Manual.{
  previous_of, confirm_manual, settle_manual, retry_manual, switch_to,
}

module _ {F : Type 0} (p : Platform) (g : Remote F) (Allowed : String → Type 0) where
  confirm-OnlyPins :
      (e : Engine F) (previous : Previous F) (target : Scored F) (ip : String) (log : Log)
      → OnlyPins g Allowed log
      → OnlyPins g Allowed (confirm_manual p g e previous target ip log).2
  unfolding confirm_manual verify_tunnel record_switch OnlyPins
  confirm-OnlyPins e previous target ip log h =
      let v =
        verify_from-OnlyPins g Allowed (suc (e.cfg.verify_timeout / poll_interval))
          (g.clock log + e.cfg.verify_timeout) (str_eq e.cfg.mode reconnect_settings)
          target.candidate.hostname ip log h in
      ground arith

  settle-OnlyPins :
      (answer : Reply String) (e : Engine F) (previous : Previous F) (target : Scored F)
      (ip : String) (log : Log)
      → OnlyPins g Allowed log
      → OnlyPins g Allowed (settle_manual p g answer e previous target ip log).2
  unfolding settle_manual record_switch OnlyPins
  settle-OnlyPins (ok outcome) e previous target ip log h =
      confirm-OnlyPins e previous target ip log h
  settle-OnlyPins (failed err) e previous target ip log h = h

  retry-OnlyPins :
      (answer : Reply String) (e : Engine F) (previous : Previous F) (target : Scored F)
      (ip : String) (log : Log)
      → Allowed target.candidate.hostname
      → OnlyPins g Allowed log
      → OnlyPins g Allowed (retry_manual p g answer e previous target ip log).2
  unfolding retry_manual
  retry-OnlyPins (ok outcome) e previous target ip log a h =
      settle-OnlyPins (ok outcome) e previous target ip log h
  retry-OnlyPins (failed (timed_out text)) e previous target ip log a h =
      settle-OnlyPins (failed (timed_out text)) e previous target ip log h
  retry-OnlyPins (failed (other text)) e previous target ip log a h =
      settle-OnlyPins (failed (other text)) e previous target ip log h
  retry-OnlyPins (failed fuel_spent) e previous target ip log a h =
      settle-OnlyPins (failed fuel_spent) e previous target ip log h
  retry-OnlyPins (failed (rejected hosts)) e previous target ip log a h =
      let (retry, e1, log1) = refresh_server_list p g (learn (rejected hosts) e) log in
      let (answer, e2, log2) = apply_target p g e1 target log1 in
      let b = refresh-OnlyPins p g Allowed (learn (rejected hosts) e) log h in
      let c = apply_target-OnlyPins p g Allowed e1 target log1 a b in
      let done = λ (r : Reply String). settle-OnlyPins r e2 previous target ip log2 c in
      elim (Bool-cases retry) [
        | inr n ↦ rw (n, retry_manual) b
        | inl t ↦ elim (Reply-cases answer) [
          | inl (outcome, n) ↦ rw (t, retry_manual) (rw (n, retry_manual) (done (ok outcome)))
          | inr (rejected again, n) ↦ rw (t, retry_manual) (rw (n, retry_manual) c)
          | inr (timed_out text, n) ↦
              rw (t, retry_manual) (rw (n, retry_manual) (done (failed (timed_out text))))
          | inr (other text, n) ↦
              rw (t, retry_manual) (rw (n, retry_manual) (done (failed (other text))))
          | inr (fuel_spent, n) ↦
              rw (t, retry_manual) (rw (n, retry_manual) (done (failed fuel_spent)))
        ]
      ]

-- A switch that the operator asked for: every hostname it asks Gluetun for is the one named, and
-- either it sends no request at all or that hostname is ranked.
pub switch_to_asked :
    {F : Type 0} (p : Platform) (g : Remote F) (e : Engine F) (host : String)
    → OnlyPins g (λ h. h ≡ host) (switch_to p g e host []).2
      × (((switch_to p g e host []).2 ≡ [])
          ⊎ ((target : Scored F) × (find_host e.ranked host ≡ some target)))
unfolding switch_to OnlyPins
switch_to_asked p g e host = elim (Option-cases (find_host e.ranked host)) [
  | inl n ↦ elim (Option-cases (find_candidate host e.blocked)) [
    | inl m ↦ rw (n, switch_to) (rw (m, switch_to) (tt, inl refl))
    | inr (c, m) ↦ rw (n, switch_to) (rw (m, switch_to) (tt, inl refl))
  ]
  | inr (target, n) ↦
      let (before, after, split, named, others) = (find_host_first e.ranked host).0 target n in
      let (answer, e', asked) = apply_target p g e target [] in
      let a = apply_target-OnlyPins p g (λ h. h ≡ host) e target [] named tt in
      rw (n, switch_to)
        (
          retry-OnlyPins p g (λ h. h ≡ host) answer e' (previous_of p e) target e.gluetun.exit_ip
              asked named a,
          inr (target, refl),
        )
]

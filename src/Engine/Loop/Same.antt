-- ===== src/Engine/Loop/Same.antt =====
-- internal/engine/switch.go: what an evaluation leaves as it was before it moves the tunnel.
use gluetun_proton_list_upda.Prelude.{
  ℕ, ◌≡◌, refl, ap, String, Bool, Option, Bool-cases, List-cases, inl, inr, arith, ◌⊎◌,
}
use gluetun_proton_list_upda.Prelude.Real.{Float}
use gluetun_proton_list_upda.Scoring.{Scored, find_host}
use gluetun_proton_list_upda.Engine.Core.{Engine}
use gluetun_proton_list_upda.Engine.Decide.{
  Stay, Verdict, stay, go, no_candidates, mode_none, unreachable, bad_status, other_provider,
  auto_off, held_back, on_best, too_soon, cooling_down, little_gain, evaluate_verdict,
  evaluate_with, decide, auto_switch_enabled,
}
use gluetun_proton_list_upda.Engine.Transfer.{blocks_switch}
use gluetun_proton_list_upda.Engine.Decide.Rules.{blocks_switch-engine}
use gluetun_proton_list_upda.Engine.Health.{note_stay}

pub Verdict-cases : (v : Verdict) → ((s : Stay) × (v ≡ stay s)) ⊎ ((r : _) × (v ≡ go r))
Verdict-cases (stay s) = inl (s, refl)
Verdict-cases (go r) = inr (r, refl)

module _ {F : Type 0} where
  abbrev pub IsSame : Engine F → Engine F → Type 0
  IsSame e e' = (e'.cfg ≡ e.cfg) × (e'.store ≡ e.store)

  blocks_switch-IsSame : (e : Engine F) (now : ℕ) → IsSame e (blocks_switch e now).0
  blocks_switch-IsSame e now = elim (blocks_switch-engine e now) [
    | inl q ↦ (ap (λ (x : Engine F). x.cfg) q, ap (λ (x : Engine F). x.store) q)
    | inr q ↦ (ap (λ (x : Engine F). x.cfg) q, ap (λ (x : Engine F). x.store) q)
  ]

  decide-IsSame :
      (fl : Float F) (e : Engine F) (now : ℕ) (current : Option (Scored F)) (best : Scored F)
      (force : Bool)
      → IsSame e (decide fl e now current best force).0
  unfolding decide
  decide-IsSame fl e now current best force =
      let k = blocks_switch-IsSame e now in
      elim (Bool-cases force) [
        | inl t ↦ rw (t, decide) (refl, refl)
        | inr f ↦ elim (Bool-cases (auto_switch_enabled e)) [
          | inl on ↦ rw (f, decide) (rw (on, decide) k)
          | inr off ↦ rw (f, decide) (rw (off, decide) (refl, refl))
        ]
      ]

  evaluate_with-IsSame :
      (fl : Float F) (e : Engine F) (now : ℕ) (host : String) (best : Scored F) (force : Bool)
      → IsSame e (evaluate_with fl e now host best force).0
  unfolding evaluate_with
  evaluate_with-IsSame fl e now host best force =
      let k = decide-IsSame fl e now (find_host e.ranked host) best force in ground arith

  -- an evaluation changes neither the configuration nor the state before it moves the tunnel
  pub evaluate_verdict-IsSame :
      (fl : Float F) (e : Engine F) (now : ℕ) (host : String) (force : Bool)
      → IsSame e (evaluate_verdict fl e now host force).0
  unfolding evaluate_verdict
  evaluate_verdict-IsSame fl e now host force = elim (List-cases e.ranked) [
    | inl n ↦ rw (n, evaluate_verdict) (refl, refl)
    | inr (best, rest, n) ↦ rw (n, evaluate_verdict) (evaluate_with-IsSame fl e now host best force)
  ]

  pub note_stay-IsSame : (why : Stay) (e : Engine F) → IsSame e (note_stay why e)
  note_stay-IsSame no_candidates e = (refl, refl)
  note_stay-IsSame mode_none e = (refl, refl)
  note_stay-IsSame unreachable e = (refl, refl)
  note_stay-IsSame (bad_status status) e = (refl, refl)
  note_stay-IsSame other_provider e = (refl, refl)
  note_stay-IsSame auto_off e = (refl, refl)
  note_stay-IsSame (held_back b) e = (refl, refl)
  note_stay-IsSame on_best e = (refl, refl)
  note_stay-IsSame (too_soon n) e = (refl, refl)
  note_stay-IsSame (cooling_down n) e = (refl, refl)
  note_stay-IsSame little_gain e = (refl, refl)

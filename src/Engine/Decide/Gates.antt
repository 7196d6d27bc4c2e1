-- ===== src/Engine/Decide/Gates.antt =====
-- internal/engine/switch.go, `evaluate`: the guards before the hysteresis rules.
use gluetun_proton_list_upda.Prelude.{
  ℕ, ◌≡◌, ◌≢◌, ◌↔◌, ◌⊎◌, inl, inr, refl, sym, subst, String, Bool, true, false, not, ◌&&◌, List, [],
  ◌∷◌, str_eq, str_eq_iff, if◌then◌else◌, arith,
}
use gluetun_proton_list_upda.Prelude.Real.{Float}
use gluetun_proton_list_upda.Scoring.{Scored, find_host}
use gluetun_proton_list_upda.Engine.Core.{
  Engine, GluetunStatus, status_running, status_crashed, reconnect_none,
}
use gluetun_proton_list_upda.Engine.Transfer.{blocks_switch}
use gluetun_proton_list_upda.Engine.Decide.{
  Verdict, stay, Stay, no_candidates, mode_none, unreachable, bad_status, other_provider,
  auto_switch_enabled, decide, evaluate_with, evaluate_verdict,
}
use gluetun_proton_list_upda.Engine.Decide.Rules.{MovesOn, MayMove, unforced-MayMove}

-- Gluetun answers, and has Proton as its provider.
abbrev pub Ready : GluetunStatus → Type 0
Ready g = (g.reachable ≡ true) × (g.provider_mismatch ≡ false)

-- What a user's own instruction goes past.
abbrev pub Automatic : {F : Type 0} → Float F → Engine F → ℕ → String → Scored F → Type 0
Automatic fl e now host best =
    (e.cfg.mode ≢ reconnect_none)
    × ((e.gluetun.status ≡ status_running) ⊎ (e.gluetun.status ≡ status_crashed))
    × (auto_switch_enabled e ≡ true)
    × MayMove fl e now (blocks_switch e now).1 (find_host e.ranked host) best

module _ {F : Type 0} (s : Stay) (e : Engine F) (v : Engine F × Verdict) where
  passes : (c : Bool) → MovesOn {F = F} (if c then (e, stay s) else v) ↔ ((c ≡ false) × MovesOn v)
  passes true = ground arith
  passes false = ground arith

mode_iff : (s t : String) → ((str_eq s t && not false) ≡ false) ↔ (s ≢ t)
mode_iff s t = let i = str_eq_iff s t in ground arith

status_iff :
    (s t u : String)
    → ((not (str_eq s t) && not (str_eq s u) && not false) ≡ false) ↔ ((s ≡ t) ⊎ (s ≡ u))
status_iff s t u = let i = str_eq_iff s t in let j = str_eq_iff s u in ground arith

module _ {F : Type 0} (fl : Float F) (e : Engine F) (now : ℕ) (host : String)
    (best : Scored F) where
  forced_iff : MovesOn (evaluate_with fl e now host best true) ↔ Ready e.gluetun
  unfolding evaluate_with decide
  forced_iff = ground arith

  unforced_iff :
      MovesOn (evaluate_with fl e now host best false)
      ↔ (Ready e.gluetun × Automatic fl e now host best)
  unfolding evaluate_with
  unforced_iff =
      let last = decide fl e now (find_host e.ranked host) best false in
      let after4 = if e.gluetun.provider_mismatch then (e, stay other_provider) else last in
      let after3 =
        if not (str_eq e.gluetun.status status_running)
          && not (str_eq e.gluetun.status status_crashed)
          && not false
        then (e, stay (bad_status e.gluetun.status))
        else after4 in
      let after2 = if not e.gluetun.reachable then (e, stay unreachable) else after3 in
      let a = passes mode_none e after2 (str_eq e.cfg.mode reconnect_none && not false) in
      let b = passes unreachable e after3 (not e.gluetun.reachable) in
      let c = passes (bad_status e.gluetun.status) e after4 (
        not (str_eq e.gluetun.status status_running)
        && not (str_eq e.gluetun.status status_crashed)
        && not false) in
      let d = passes other_provider e last e.gluetun.provider_mismatch in
      let mode = mode_iff e.cfg.mode reconnect_none in
      let status = status_iff e.gluetun.status status_running status_crashed in
      let rules = unforced-MayMove fl e now (find_host e.ranked host) best in
      (
        λ h.
            let (m, h2) = a.0 h in
            let (r, h3) = b.0 h2 in
            let (t, h4) = c.0 h3 in
            let (p, h5) = d.0 h4 in
            ((ground arith, p), (mode.0 m, status.0 t, (rules.0 h5).0, (rules.0 h5).1)),
        λ ((r, p), (m, t, on, may)).
            a.1 (mode.1 m, b.1 (ground arith, c.1 (status.1 t, d.1 (p, rules.1 (on, may))))),
      )

with_iff :
    {F : Type 0} (fl : Float F) (e : Engine F) (now : ℕ) (host : String) (best : Scored F)
    (force : Bool)
    → MovesOn (evaluate_with fl e now host best force)
      ↔ (Ready e.gluetun × ((force ≡ true) ⊎ Automatic fl e now host best))
with_iff fl e now host best true =
    let i = forced_iff fl e now host best in (λ h. (i.0 h, inl refl), λ (r, _). i.1 r)
with_iff fl e now host best false =
    let i = unforced_iff fl e now host best in
    (
      λ h. let (r, a) = i.0 h in (r, inr a),
      λ (r, w). i.1 (r, elim w [ inl q ↦ absurd (ground arith) | inr a ↦ a ]),
    )

ranked_iff :
    {F : Type 0} (fl : Float F) (e : Engine F) (now : ℕ) (host : String) (force : Bool)
    (l : List (Scored F))
    → MovesOn {F = F} (elim l [
      | [] ↦ (e, stay no_candidates)
      | best ∷ rest ↦ evaluate_with fl e now host best force
    ])
      ↔ ((best : Scored F) × (rest : List (Scored F)) × (l ≡ best ∷ rest)
          × Ready e.gluetun
          × ((force ≡ true) ⊎ Automatic fl e now host best))
ranked_iff fl e now host force [] = (λ h. absurd h, λ (b, r, q, _, _). absurd (ground arith))
ranked_iff fl e now host force (best ∷ rest) =
    let i = with_iff fl e now host best force in
    (
      λ h. let (r, w) = i.0 h in (best, rest, refl, r, w),
      λ (b, l, q, r, w).
          i.1 (r, subst (λ x. (force ≡ true) ⊎ Automatic fl e now host x) (sym (ground arith)) w),
    )

-- An evaluation moves the tunnel exactly when there is a server to move to, Gluetun answers and has
-- Proton as its provider, and either it was forced, or reconnecting is not disabled, the tunnel is
-- running or crashed, and the rules of `decide` ask for it.
pub evaluate_verdict-Moves :
    {F : Type 0} (fl : Float F) (e : Engine F) (now : ℕ) (host : String) (force : Bool)
    → MovesOn (evaluate_verdict fl e now host force) ↔ (
        (best : Scored F) × (rest : List (Scored F)) × (e.ranked ≡ best ∷ rest)
        × Ready e.gluetun
        × ((force ≡ true) ⊎ Automatic fl e now host best))
unfolding evaluate_verdict
evaluate_verdict-Moves fl e now host force = ranked_iff fl e now host force e.ranked

-- ===== src/Engine/Decide/Rules.antt =====
-- internal/engine/switch.go, `decide`: exactly when an evaluation that nobody forced moves the
-- tunnel.
use gluetun_proton_list_upda.Prelude.{
  ℕ, ◌+◌, ◌≤◌, ◌<◌, ◌≡◌, ◌≢◌, ◌↔◌, ◌⊎◌, inl, inr, refl, sym, ap, ◌∙◌, subst, String, Bool, true,
  false, not, ◌&&◌, Option, none, some, ltb, str_eq, str_eq_iff, if◌then◌else◌, arith,
}
use gluetun_proton_list_upda.Prelude.Real.{Float}
use gluetun_proton_list_upda.Scoring.{Scored}
use gluetun_proton_list_upda.Engine.Core.{Config, Engine}
use gluetun_proton_list_upda.Engine.Transfer.{Block, blocks_switch}
use gluetun_proton_list_upda.Engine.Decide.{
  Verdict, stay, go, Reason, Stay, auto_off, on_best, too_soon, cooling_down, little_gain,
  overloaded_server, better_score, auto_switch_enabled, remaining_since, min_interval_remaining,
  cooldown_remaining, is_overloaded, is_same_server, decide_move, decide_unforced, decide,
}

abbrev pub Moves : Verdict → Type 0
Moves (stay _) = ⊥
Moves (go _) = Unit

abbrev pub MovesOn : {F : Type 0} → Engine F × Verdict → Type 0
MovesOn p = Moves p.1

-- A span of time since the last switch is over, or is not asked for, or there was no switch.
abbrev pub Elapsed : ℕ → ℕ → ℕ → Type 0
Elapsed last now window = (last ≡ 0) ⊎ (window ≡ 0) ⊎ (last + window ≤ now)

-- the current server is too busy and the best one is not
abbrev pub Relieves : {F : Type 0} → Config F → Scored F → Scored F → Type 0
Relieves cfg current best =
    (0 < cfg.load_trigger)
    × (cfg.load_trigger < current.candidate.load)
    × (best.candidate.load ≤ cfg.load_trigger)

-- What has to hold of the current server for a move to be worth it.
abbrev pub WorthIt : {F : Type 0} → Float F → Engine F → ℕ → Option (Scored F) → Scored F → Type 0
WorthIt fl e now none best = Unit
WorthIt fl e now (some current) best =
    (current.candidate.hostname ≢ best.candidate.hostname)
    × (Relieves e.cfg current best
        ⊎ (Elapsed e.store.state.last_switch_at now e.cfg.cooldown
            × (fl.lt (fl.sub current.score best.score) e.cfg.min_improvement ≡ false)))

remaining_none :
    (last now window : ℕ)
    → (ltb 0 (remaining_since last now window) ≡ false) ↔ Elapsed last now window
unfolding remaining_since
remaining_none last now window = ground arith

overloaded_iff :
    {F : Type 0} (cfg : Config F) (current best : Scored F)
    → (is_overloaded cfg current best ≡ true) ↔ Relieves cfg current best
unfolding is_overloaded
overloaded_iff cfg current best = ground arith

-- The hysteresis rules, on what `transferBlocksSwitch` says.
pub record MayMove {F : Type 0} (fl : Float F) (e : Engine F) (now : ℕ) (block : Option Block)
    (current : Option (Scored F)) (best : Scored F) : Type 0 where
  pub unblocked : block ≡ none
  pub floor : Elapsed e.store.state.last_switch_at now e.cfg.min_interval
  pub worth_it : WorthIt fl e now current best

Moves-unless :
    (c : Bool) (s : Stay) (v : Verdict) → Moves (if c then stay s else v) ↔ ((c ≡ false) × Moves v)
Moves-unless true s v = ground arith
Moves-unless false s v = ground arith

Moves-relieved :
    (cooling over little : Bool) (s s' : Stay) (r r' : Reason)
    → Moves (
        if cooling && not over
        then stay s
        else if over
        then go r
        else if little
        then stay s'
        else go r')
      ↔ ((over ≡ true) ⊎ ((cooling ≡ false) × (little ≡ false)))
Moves-relieved true true little s s' r r' = ground arith
Moves-relieved true false little s s' r r' = ground arith
Moves-relieved false true little s s' r r' = ground arith
Moves-relieved false false true s s' r r' = ground arith
Moves-relieved false false false s s' r r' = ground arith

Moves-if_on :
    {F : Type 0} (on : Bool) (e e' : Engine F) (v : Verdict)
    → MovesOn {F = F} (if not on then (e, stay auto_off) else (e', v)) ↔ ((on ≡ true) × Moves v)
Moves-if_on true e e' v = ground arith
Moves-if_on false e e' v = ground arith

differs_iff : (s t : String) → (str_eq s t ≡ false) ↔ (s ≢ t)
differs_iff s t = let i = str_eq_iff s t in ground arith

pub blocks_switch-engine :
    {F : Type 0} (e : Engine F) (now : ℕ)
    → ((blocks_switch e now).0 ≡ e)
      ⊎ ((blocks_switch e now).0
          ≡ record e { transfer = record e.transfer { grace_expired = true } })
unfolding blocks_switch
blocks_switch-engine e now = ground arith

module _ {F : Type 0} (fl : Float F) (e : Engine F) (now : ℕ) where
  move_iff :
      (current : Option (Scored F)) (best : Scored F)
      → ((is_same_server current best ≡ false) × Moves (decide_move fl e now current best))
        ↔ WorthIt fl e now current best
  unfolding decide_move cooldown_remaining
  move_iff none best = ground arith
  move_iff (some current) best =
      let i = differs_iff current.candidate.hostname best.candidate.hostname in
      let j = overloaded_iff e.cfg current best in
      let k = remaining_none e.store.state.last_switch_at now e.cfg.cooldown in
      let m =
        Moves-relieved (ltb 0 (cooldown_remaining e now)) (is_overloaded e.cfg current best)
          (fl.lt (fl.sub current.score best.score) e.cfg.min_improvement)
          (cooling_down (cooldown_remaining e now)) little_gain
          (overloaded_server current.candidate.load e.cfg.load_trigger best.candidate.load)
          better_score in
      (
        λ (same, moves). (
          i.0 same,
          elim (m.0 moves) [ inl over ↦ inl (j.0 over) | inr (cool, gain) ↦ inr (k.0 cool, gain) ],
        ),
        λ (differ, worth). (
          i.1 differ,
          m.1 (elim worth [ inl over ↦ inl (j.1 over) | inr (cool, gain) ↦ inr (k.1 cool, gain) ]),
        ),
      )

  unforced_iff :
      (block : Option Block) (current : Option (Scored F)) (best : Scored F)
      → Moves (decide_unforced fl e now block current best) ↔ MayMove fl e now block current best
  unfolding decide_unforced min_interval_remaining
  unforced_iff (some b) current best =
      (λ h. absurd h, λ m. absurd (let u = m.unblocked in ground arith))
  unforced_iff none current best =
      let f = remaining_none e.store.state.last_switch_at now e.cfg.min_interval in
      let m = move_iff current best in
      let a = Moves-unless (is_same_server current best) on_best (
        if ltb 0 (min_interval_remaining e now)
        then stay (too_soon (min_interval_remaining e now))
        else decide_move fl e now current best) in
      let b =
        Moves-unless (ltb 0 (min_interval_remaining e now))
          (too_soon (min_interval_remaining e now)) (decide_move fl e now current best) in
      (
        λ h.
            let (same, h1) = a.0 h in
            let (early, h2) = b.0 h1 in
            record { unblocked = refl; floor = f.0 early; worth_it = m.0 (same, h2) },
        λ r. let (same, moves) = m.1 r.worth_it in a.1 (same, b.1 (f.1 r.floor, moves)),
      )

decide_unforced-noted :
    {F : Type 0} (fl : Float F) (e : Engine F) (now : ℕ) (b : Option Block)
    (current : Option (Scored F)) (best : Scored F)
    → decide_unforced fl
        (record e { transfer = record e.transfer { grace_expired = true } })
        now
        b
        current
        best
      ≡ decide_unforced fl e now b current best
unfolding decide_unforced decide_move cooldown_remaining min_interval_remaining
decide_unforced-noted fl e now (some b) current best = refl
decide_unforced-noted fl e now none none best = refl
decide_unforced-noted fl e now none (some current) best = refl

-- `transferBlocksSwitch` leaves all that `decide` reads as it was.
decide_unforced-blocks_switch :
    {F : Type 0} (fl : Float F) (e : Engine F) (now : ℕ) (b : Option Block)
    (current : Option (Scored F)) (best : Scored F)
    → decide_unforced fl (blocks_switch e now).0 now b current best
      ≡ decide_unforced fl e now b current best
decide_unforced-blocks_switch fl e now b current best = elim (blocks_switch-engine e now) [
  | inl same ↦ ap (λ x. decide_unforced fl x now b current best) same
  | inr noted ↦
      ap (λ x. decide_unforced fl x now b current best) noted
      ∙ decide_unforced-noted fl e now b current best
]

-- `decide`, where nobody forces it, moves the tunnel exactly when automatic switching is on, no
-- transfer blocks it, the minimum interval since a last switch is over, if there are both, and
-- either the current server is unknown, or it is another one than the best and is overloaded where
-- the best one is not, or is left after the cooldown for a gain that is not below the configured
-- improvement.
pub unforced-MayMove :
    {F : Type 0} (fl : Float F) (e : Engine F) (now : ℕ) (current : Option (Scored F))
    (best : Scored F)
    → MovesOn (decide fl e now current best false)
      ↔ ((auto_switch_enabled e ≡ true) × MayMove fl e now (blocks_switch e now).1 current best)
unfolding decide
unforced-MayMove fl e now current best =
    let block = (blocks_switch e now).1 in
    let same = decide_unforced-blocks_switch fl e now block current best in
    let rules = unforced_iff fl e now block current best in
    let switched =
      Moves-if_on (auto_switch_enabled e) e (blocks_switch e now).0
        (decide_unforced fl (blocks_switch e now).0 now block current best) in
    (
      λ h. let (on, moves) = switched.0 h in (on, rules.0 (subst Moves same moves)),
      λ (on, may). switched.1 (on, subst Moves (sym same) (rules.1 may)),
    )

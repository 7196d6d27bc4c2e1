-- ===== src/Engine/Decide.antt =====
-- internal/engine/switch.go, `decide` and `evaluate`: whether the tunnel is moved, and why not.
pub mod Rules
pub mod Gates
use gluetun_proton_list_upda.Prelude.{
  ℕ, ◌+◌, ◌-◌, String, Bool, true, false, not, ◌&&◌, ◌||◌, List, [], ◌∷◌, Option, none, some, ltb,
  leb, ◌==◌, str_eq, is_some, if◌then◌else◌,
}
use gluetun_proton_list_upda.Prelude.Real.{Float}
use gluetun_proton_list_upda.Scoring.{Scored, find_host}
use gluetun_proton_list_upda.Engine.State.{PersistedState}
use gluetun_proton_list_upda.Engine.Core.{
  Config, Engine, status_running, status_crashed, reconnect_none,
}
use gluetun_proton_list_upda.Engine.Transfer.{Block, blocks_switch}

-- The reasons of the dashboard, each with what its text is made of.
pub data Reason : Type 0 where
  manual : Reason
  unknown_server : Reason
  overloaded_server : ℕ → ℕ → ℕ → Reason
  better_score : Reason

pub data Stay : Type 0 where
  no_candidates : Stay
  mode_none : Stay
  unreachable : Stay
  bad_status : String → Stay
  other_provider : Stay
  auto_off : Stay
  held_back : Block → Stay
  on_best : Stay
  too_soon : ℕ → Stay
  cooling_down : ℕ → Stay
  little_gain : Stay

pub data Verdict : Type 0 where
  stay : Stay → Verdict
  go : Reason → Verdict

module _ {F : Type 0} where
  unfoldable pub auto_switch_enabled : Engine F → Bool
  auto_switch_enabled e = elim e.store.state.auto_switch [
    | none ↦ e.cfg.auto
    | some override ↦ override
  ]

-- `window - time.Since(last)`, and 0 where that is negative; with the parts added first, since `-`
-- stops at 0
unfoldable pub remaining_since : ℕ → ℕ → ℕ → ℕ
remaining_since last now window = if last == 0 || window == 0 then 0 else last + window - now

module _ {F : Type 0} where
  unfoldable pub cooldown_remaining : Engine F → ℕ → ℕ
  unfolding remaining_since
  cooldown_remaining e now = remaining_since e.store.state.last_switch_at now e.cfg.cooldown

  unfoldable pub min_interval_remaining : Engine F → ℕ → ℕ
  unfolding remaining_since
  min_interval_remaining e now = remaining_since e.store.state.last_switch_at now e.cfg.min_interval

  -- the current server is over the load trigger and the best one is not
  unfoldable pub is_overloaded : Config F → Scored F → Scored F → Bool
  is_overloaded cfg current best =
      ltb 0 cfg.load_trigger
      && ltb cfg.load_trigger current.candidate.load
      && leb best.candidate.load cfg.load_trigger

  abbrev pub is_same_server : Option (Scored F) → Scored F → Bool
  is_same_server none best = false
  is_same_server (some current) best = str_eq current.candidate.hostname best.candidate.hostname

  -- lines 189 to 226, where the current server is not the best one
  unfoldable pub decide_move : Float F → Engine F → ℕ → Option (Scored F) → Scored F → Verdict
  unfolding cooldown_remaining is_overloaded
  decide_move fl e now none best = go unknown_server
  decide_move fl e now (some current) best =
      let overloaded = is_overloaded e.cfg current best in
      if ltb 0 (cooldown_remaining e now) && not overloaded
      then stay (cooling_down (cooldown_remaining e now))
      else if overloaded
      then go (overloaded_server current.candidate.load e.cfg.load_trigger best.candidate.load)
      else if fl.lt (fl.sub current.score best.score) e.cfg.min_improvement
      then stay little_gain
      else go better_score

  -- lines 146 to 187, without the force and automatic-switching tests, on what `blocks_switch` said
  unfoldable pub decide_unforced :
      Float F → Engine F → ℕ → Option Block → Option (Scored F) → Scored F → Verdict
  unfolding min_interval_remaining
  decide_unforced fl e now (some block) current best = stay (held_back block)
  decide_unforced fl e now none current best =
      if is_same_server current best
      then stay on_best
      else if ltb 0 (min_interval_remaining e now)
      then stay (too_soon (min_interval_remaining e now))
      else decide_move fl e now current best

  -- `decide`: `current` is `none` where the source has no current server in the ranking
  unfoldable pub decide :
      Float F → Engine F → ℕ → Option (Scored F) → Scored F → Bool → Engine F × Verdict
  unfolding auto_switch_enabled
  decide fl e now current best force =
      let (e', block) = blocks_switch e now in
      if force
      then (e, go manual)
      else if not (auto_switch_enabled e)
      then (e, stay auto_off)
      else (e', decide_unforced fl e' now block current best)

  -- The guards of `evaluate`, lines 43 to 91, and then `decide` on the current hostname: the engine,
  -- and the verdict with the current and the best server.
  unfoldable pub evaluate_with :
      Float F → Engine F → ℕ → String → Scored F → Bool → Engine F × Verdict
  evaluate_with fl e now current_hostname best force =
      if str_eq e.cfg.mode reconnect_none && not force
      then (e, stay mode_none)
      else if not e.gluetun.reachable
      then (e, stay unreachable)
      else if not (str_eq e.gluetun.status status_running)
          && not (str_eq e.gluetun.status status_crashed)
          && not force
      then (e, stay (bad_status e.gluetun.status))
      else if e.gluetun.provider_mismatch
      then (e, stay other_provider)
      else decide fl e now (find_host e.ranked current_hostname) best force

  unfoldable pub evaluate_verdict : Float F → Engine F → ℕ → String → Bool → Engine F × Verdict
  unfolding evaluate_with
  evaluate_verdict fl e now current_hostname force = elim e.ranked [
    | [] ↦ (e, stay no_candidates)
    | best ∷ rest ↦ evaluate_with fl e now current_hostname best force
  ]

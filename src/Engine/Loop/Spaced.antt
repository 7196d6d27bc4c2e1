-- ===== src/Engine/Loop/Spaced.antt =====
-- internal/engine: how often a run of the loop moves the tunnel of its own accord.
use gluetun_proton_list_upda.Prelude.{
  ℕ, suc, ◌+◌, ◌*◌, ◌≤◌, ◌<◌, ◌≡◌, ◌≢◌, refl, sym, subst, ◌∙◌, Bool, false, ◌&&◌, List, [], ◌∷◌,
  some, ◌==◌, ==_iff, Bool-cases, Option-cases, inl, inr, arith, ◌⊎◌, if◌then◌else◌, All, String,
}
use native.Mathlib.Nat.{suc-mul}
use gluetun_proton_list_upda.Prelude.Real.{Float}
use gluetun_proton_list_upda.Platform.{Platform}
use gluetun_proton_list_upda.Engine.State.{PersistedState, SwitchRecord, trim}
use gluetun_proton_list_upda.Engine.Core.{Config}
use gluetun_proton_list_upda.Engine.Current.{current_hostname}
use gluetun_proton_list_upda.Engine.Decide.{go, evaluate_verdict}
use gluetun_proton_list_upda.Engine.Decide.Gates.{evaluate_verdict-Moves}
use gluetun_proton_list_upda.Engine.Decide.Rules.{Moves, MovesOn}
use gluetun_proton_list_upda.Engine.Attempt.{add_record}
use gluetun_proton_list_upda.Engine.Switch.{Log}
use gluetun_proton_list_upda.Engine.Program.{Program, World}
use gluetun_proton_list_upda.Engine.Tasks.{refresh_server_list}
use gluetun_proton_list_upda.Engine.Health.{
  Checkup, evaluate, check_gluetun, note_gluetun, became_usable, has_ranked,
}
use gluetun_proton_list_upda.Engine.Loop.{
  Event, list_due, loads_due, latency_due, evaluation_due, health_due, transfer_due, flush_due,
  best_asked, server_asked, write_asked, auto_asked, clear_asked, updater_asked, loop_asked,
  set_loop_status, step, run,
}
use gluetun_proton_list_upda.Engine.Loop.Frame.{
  Keeps, list-Keeps, loads-Keeps, latency-Keeps, transfer-Keeps, flush-Keeps, write-Keeps,
  change-Keeps, note_gluetun-Keeps,
}
use gluetun_proton_list_upda.Engine.Loop.Rounds.{stay-Keeps, evaluate-Keeps}
use gluetun_proton_list_upda.Engine.Loop.Same.{Verdict-cases}
use gluetun_proton_list_upda.Engine.Loop.Runs.{world_of}

-- The rounds that nobody asked a move or a fetch of Gluetun in.
abbrev pub IsAutomatic : {F : Type 0} → Event F → Type 0
IsAutomatic (best_asked _) = ⊥
IsAutomatic (server_asked _ _) = ⊥
IsAutomatic (updater_asked _ _) = ⊥
IsAutomatic _ = Unit

-- the clock of a round does not run behind its beginning
abbrev pub IsTimely : {F : Type 0} → Event F → Type 0
IsTimely event = (log : Log) → (world_of event).now ≤ (world_of event).remote.clock log

module _ {F : Type 0} (interval last : ℕ) where
  -- the interval is that of the configuration, and the last switch is the given one
  Still : Config F → PersistedState F → Type 0
  Still c s = (c.min_interval ≡ interval) × (s.last_switch_at ≡ last)

  -- or is that one or a later one by the interval
  Spaced : Config F → PersistedState F → Type 0
  Spaced c s =
      (c.min_interval ≡ interval)
      × ((s.last_switch_at ≡ last) ⊎ (last + interval ≤ s.last_switch_at))

  Still-calm :
      (c : Config F) (s t : PersistedState F)
      → t.last_switch_at ≡ s.last_switch_at
      → Still c s
      → Still c (trim t)
  unfolding Still trim
  Still-calm c s t e h = (h.0, e ∙ h.1)

  Spaced-calm :
      (c : Config F) (s t : PersistedState F)
      → t.last_switch_at ≡ s.last_switch_at
      → Spaced c s
      → Spaced c (trim t)
  unfolding Spaced trim
  Spaced-calm c s t e h =
      (h.0, elim h.1 [ inl q ↦ inl (e ∙ q) | inr q ↦ inr (omega (arith, e, q)) ])

  Spaced_of_still : (c : Config F) (s : PersistedState F) → Still c s → Spaced c s
  unfolding Still Spaced
  Spaced_of_still c s h = (h.0, inl h.1)

  module _ (fl : Float F) (p : Platform) (w : World F)
      (timely : (log : Log) → w.now ≤ w.remote.clock log) (set : last ≢ 0)
      (positive : 0 < interval) where
    Spaced-adds :
        last + interval ≤ w.now
        → (c : Config F) (r : SwitchRecord F) (s : PersistedState F) (log : Log)
        → r.at ≡ w.remote.clock log
        → Spaced c s
        → Spaced c (trim (add_record p w.remote r s))
    unfolding Spaced trim
    Spaced-adds over c r s log e h = (
      h.0,
      elim (Bool-cases r.succeeded) [
        | inl t ↦ rw t (inr (omega (arith, timely log, e, over)))
        | inr f ↦ rw f h.1
      ],
    )

    go-elapsed :
        (q : Program F) (r : _)
        → Still q.engine.cfg q.engine.store.state
        → (evaluate_verdict fl q.engine w.now (current_hostname p q.engine) false).1 ≡ go r
        → last + interval ≤ w.now
    unfolding Still
    go-elapsed q r h e =
        let host = current_hostname p q.engine in
        let moves : MovesOn (evaluate_verdict fl q.engine w.now host false) =
          subst Moves (sym e) tt in
        let (best, rest, ranked, ready, why) =
          (evaluate_verdict-Moves fl q.engine w.now host false).0 moves in
        elim why [
          | inl forced ↦ cc
          | inr (mode, status, on, may) ↦ elim may.floor [
            | inl none_yet ↦ absurd (set (sym h.1 ∙ none_yet))
            | inr (inl off) ↦ absurd (omega (arith, off, h.0))
            | inr (inr over) ↦ omega (arith, over, h.0, h.1)
          ]
        ]

    evaluate-Spaced :
        (q : Program F)
        → Still q.engine.cfg q.engine.store.state
        → Keeps Spaced Spaced-calm (evaluate fl p w false q).0.engine
    evaluate-Spaced q h =
        let k = Spaced_of_still q.engine.cfg q.engine.store.state h in
        elim (Verdict-cases
          (evaluate_verdict fl q.engine w.now (current_hostname p q.engine) false).1) [
            | inl (why, e) ↦ stay-Keeps Spaced Spaced-calm fl p w false q why e k
            | inr (r, e) ↦
                evaluate-Keeps fl p Spaced Spaced-calm w (Spaced-adds (go-elapsed q r h e)) false q
                  k
          ]

    check-Spaced :
        (c : Checkup) (q : Program F)
        → Still q.engine.cfg q.engine.store.state
        → Keeps Spaced Spaced-calm (check_gluetun fl p w c q).0.engine
    unfolding check_gluetun
    check-Spaced c q h = elim (Option-cases c.status) [
      | inl n ↦ rw (n, check_gluetun) (Spaced_of_still q.engine.cfg q.engine.store.state h)
      | inr (status, n) ↦
          let q' = note_gluetun fl p w status c q in
          let k = note_gluetun-Keeps Still Still-calm fl p w status c q h in
          elim (Bool-cases
            (became_usable q.engine.gluetun q'.engine.gluetun && has_ranked q'.engine.ranked)) [
              | inl t ↦ rw (n, check_gluetun) (rw t (evaluate-Spaced q' k))
              | inr f ↦
                  rw (n, check_gluetun)
                    (rw f (Spaced_of_still q'.engine.cfg q'.engine.store.state k))
            ]
    ]

    loop_status-Spaced :
        (status : String) (accepted : Bool) (c : Checkup) (q : Program F)
        → Still q.engine.cfg q.engine.store.state
        → Keeps Spaced Spaced-calm (set_loop_status fl p w status accepted c q).0.engine
    unfolding set_loop_status
    loop_status-Spaced status accepted c q h =
        let j = check-Spaced c q h in
        let k = Spaced_of_still q.engine.cfg q.engine.store.state h in ground arith

  step-Spaced :
      (fl : Float F) (p : Platform) (event : Event F) (q : Program F)
      → IsAutomatic event
      → IsTimely event
      → last ≢ 0
      → 0 < interval
      → Still q.engine.cfg q.engine.store.state
      → Keeps Spaced Spaced-calm (step fl p event q).0.engine
  unfolding step
  step-Spaced fl p (list_due w account answer) q a t set pos h =
      evaluate-Spaced fl p w t set pos (refresh_server_list fl p w account answer q)
        (list-Keeps Still Still-calm fl p w account answer q h)
  step-Spaced fl p (loads_due w answer) q a t set pos h =
      Spaced_of_still _ _ (loads-Keeps Still Still-calm fl w answer q h)
  step-Spaced fl p (latency_due w dials) q a t set pos h =
      Spaced_of_still _ _ (latency-Keeps Still Still-calm fl w dials q h)
  step-Spaced fl p (evaluation_due w) q a t set pos h = evaluate-Spaced fl p w t set pos q h
  step-Spaced fl p (health_due w c) q a t set pos h = check-Spaced fl p w t set pos c q h
  step-Spaced fl p (transfer_due w answers) q a t set pos h =
      Spaced_of_still _ _ (transfer-Keeps Still Still-calm p w answers q h)
  step-Spaced fl p (flush_due w) q a t set pos h =
      Spaced_of_still _ _ (flush-Keeps Still Still-calm w q h)
  step-Spaced fl p (best_asked w) q a t set pos h = absurd a
  step-Spaced fl p (server_asked w host) q a t set pos h = absurd a
  step-Spaced fl p (write_asked w) q a t set pos h =
      Spaced_of_still _ _ (write-Keeps Still Still-calm p w q h)
  step-Spaced fl p (auto_asked w enabled) q a t set pos h =
      Spaced_of_still _ _
        (change-Keeps Still Still-calm w (λ s. record s { auto_switch = some enabled }) q refl h)
  step-Spaced fl p (clear_asked w) q a t set pos h =
      Spaced_of_still _ _
        (change-Keeps Still Still-calm w (λ s. record s { history = [] }) q refl h)
  step-Spaced fl p (updater_asked w c) q a t set pos h = absurd a
  step-Spaced fl p (loop_asked w status accepted c) q a t set pos h =
      loop_status-Spaced fl p w t set pos status accepted c q h

later_set : (l l' m : ℕ) → l ≢ 0 → (l' ≡ l) ⊎ (l + m ≤ l') → l' ≢ 0
later_set l l' m set (inl e) z = set (sym e ∙ z)
later_set l l' m set (inr le) z = set (omega arith)

later : (l l' m n final : ℕ) → l + m ≤ l' → l' + n * m ≤ final → l + suc n * m ≤ final
later l l' m n final h k = omega (arith, suc-mul n m, h, k)

module _ {F : Type 0} (fl : Float F) (p : Platform) where
  abbrev pub last_of : Program F → ℕ
  last_of q = q.engine.store.state.last_switch_at

  -- the rounds of a run in which a switch succeeded
  unfoldable pub switches : List (Event F) → Program F → ℕ
  switches [] q = 0
  switches (event ∷ events) q =
      let q' = (step fl p event q).0 in
      let more = switches events q' in if last_of q' == last_of q then more else suc more

  -- In a run of rounds that nobody asked a move or a fetch in, with clocks that do not run backwards
  -- within a round, a minimum interval configured and a switch made before: each successful switch
  -- is at least that interval after the one before it, so that the last is later than that by the
  -- interval for each switch made.
  pub run_spaced :
      (events : List (Event F)) (q : Program F)
      → All IsAutomatic events
      → All IsTimely events
      → last_of q ≢ 0
      → 0 < q.engine.cfg.min_interval
      → last_of q + switches events q * q.engine.cfg.min_interval ≤ last_of (run fl p events q).0
  unfolding run switches Still Spaced
  run_spaced [] q a t set pos = omega arith
  run_spaced (event ∷ events) q a t set pos =
      let q' = (step fl p event q).0 in
      let s =
        step-Spaced q.engine.cfg.min_interval (last_of q) fl p event q a.0 t.0 set pos
          (refl, refl) in
      let n = switches events q' in
      let interval = q.engine.cfg.min_interval in
      let set' : last_of q' ≢ 0 = later_set (last_of q) (last_of q') interval set s.1 in
      let pos' : 0 < q'.engine.cfg.min_interval = omega (arith, s.0, pos) in
      let ih = run_spaced events q' a.1 t.1 set' pos' in
      let k : last_of q' + n * interval ≤ last_of (run fl p events q').0 =
        subst (λ m. last_of q' + n * m ≤ last_of (run fl p events q').0) s.0 ih in
      elim s.1 [
        | inl e ↦ rw ((==_iff (last_of q') (last_of q)).1 e) (omega (arith, e, k))
        | inr le ↦
            let moved : (last_of q' == last_of q) ≡ false = ground (arith, pos) in
            rw moved (later (last_of q) (last_of q') interval n _ le k)
      ]

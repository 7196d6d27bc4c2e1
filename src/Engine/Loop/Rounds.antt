-- ===== src/Engine/Loop/Rounds.antt =====
-- internal/engine: what the rounds of the loop that may move the tunnel do to the persisted state.
use gluetun_proton_list_upda.Engine.Loop.Same.{
  Verdict-cases, IsSame, evaluate_verdict-IsSame, note_stay-IsSame,
}
use gluetun_proton_list_upda.Prelude.{
  ◌≡◌, refl, sym, subst, String, Bool, false, [], some, Bool-cases, Option-cases, ◌&&◌, inl, inr,
  arith,
}
use gluetun_proton_list_upda.Prelude.Real.{Float}
use gluetun_proton_list_upda.Platform.{Platform}
use gluetun_proton_list_upda.Scoring.{Scored, find_host}
use gluetun_proton_list_upda.Engine.State.{PersistedState, SwitchRecord, trim}
use gluetun_proton_list_upda.Engine.Core.{Config, Engine}
use gluetun_proton_list_upda.Engine.Current.{current_hostname, find_candidate}
use gluetun_proton_list_upda.Engine.Decide.{Stay, stay, evaluate_verdict}
use gluetun_proton_list_upda.Engine.Remote.{
  rejected, timed_out, other, fuel_spent, Reply, ok, failed,
}
use gluetun_proton_list_upda.Engine.Switch.{Log, verify_tunnel}
use gluetun_proton_list_upda.Engine.Switch.Polling.{Reply-cases}
use gluetun_proton_list_upda.Engine.Attempt.{
  Previous, remember_pin, add_record, apply_target, learn, perform_switch, record_switch,
  flag_restart_needed,
}
use gluetun_proton_list_upda.Engine.Attempt
use gluetun_proton_list_upda.Engine.Attempt.Keeps.{
  perform_switch-Holds, apply_target-Holds, record_switch-Holds, refresh-Holds, learn-Holds,
}
use gluetun_proton_list_upda.Engine.Manual.{
  previous_of, confirm_manual, settle_manual, retry_manual, switch_to,
}
use gluetun_proton_list_upda.Engine.Program.{Program, World}
use gluetun_proton_list_upda.Engine.Health.{
  Checkup, replay_writes, note_stay, note_go, evaluate, check_gluetun, note_gluetun, became_usable,
  has_ranked,
}
use gluetun_proton_list_upda.Engine.Loop.{move_to, run_updater, set_loop_status}
use gluetun_proton_list_upda.Engine.Loop.Frame.{Keeps, replay-Keeps, note_gluetun-Keeps}

module _ {F : Type 0} (Q : Config F → PersistedState F → Type 0)
    (calm : (c : Config F) (s t : PersistedState F)
      → t.last_switch_at ≡ s.last_switch_at
      → Q c s
      → Q c (trim t)) where
  Keeps-IsSame : (e e' : Engine F) → IsSame e e' → Keeps Q calm e → Keeps Q calm e'
  Keeps-IsSame e e' same h =
      subst (λ c. Q c e'.store.state) (sym same.0) (subst (λ s. Q e.cfg s.state) (sym same.1) h)

  pub stay-Keeps :
      (fl : Float F) (p : Platform) (w : World F) (force : Bool) (q : Program F) (why : Stay)
      → (evaluate_verdict fl q.engine w.now (current_hostname p q.engine) force).1 ≡ stay why
      → Keeps Q calm q.engine
      → Keeps Q calm (evaluate fl p w force q).0.engine
  unfolding evaluate
  stay-Keeps fl p w force q why n h =
      let host = current_hostname p q.engine in
      let e = (evaluate_verdict fl q.engine w.now host force).0 in
      rw (n, evaluate)
        (Keeps-IsSame e (note_stay why e) (note_stay-IsSame why e)
          (Keeps-IsSame q.engine e (evaluate_verdict-IsSame fl q.engine w.now host force) h))

module _ {F : Type 0} (fl : Float F) (p : Platform) (Q : Config F → PersistedState F → Type 0)
    (calm : (c : Config F) (s t : PersistedState F)
      → t.last_switch_at ≡ s.last_switch_at
      → Q c s
      → Q c (trim t))
    (w : World F)
    (adds : (c : Config F) (r : SwitchRecord F) (s : PersistedState F) (log : Log)
      → r.at ≡ w.remote.clock log
      → Q c s
      → Q c (trim (add_record p w.remote r s))) where
  pins :
      (c : Config F) (host : String) (s : PersistedState F)
      → Q c s
      → Q c (trim (remember_pin host s))
  pins c host s h = calm c s (remember_pin host s) refl h

  pub evaluate-Keeps :
      (force : Bool) (q : Program F)
      → Keeps Q calm q.engine
      → Keeps Q calm (evaluate fl p w force q).0.engine
  unfolding evaluate pins
  evaluate-Keeps force q h =
      let host = current_hostname p q.engine in
      let judged = evaluate_verdict fl q.engine w.now host force in
      let e = judged.0 in
      let k =
        Keeps-IsSame Q calm q.engine e (evaluate_verdict-IsSame fl q.engine w.now host force) h in
      elim (Verdict-cases judged.1) [
        | inl (why, n) ↦ stay-Keeps Q calm fl p w force q why n h
        | inr (reason, n) ↦
            let (moved, log) =
              perform_switch p w.remote (note_go e) (previous_of p q.engine) (w.describe reason)
                [] in
            let m =
              perform_switch-Holds p w.remote Q pins adds (note_go e) (previous_of p q.engine)
                (w.describe reason) [] k in
            rw (n, evaluate) (replay-Keeps Q calm p w log (record q { engine = moved }) m)
      ]

  pub check_gluetun-Keeps :
      (c : Checkup) (q : Program F)
      → Keeps Q calm q.engine
      → Keeps Q calm (check_gluetun fl p w c q).0.engine
  unfolding check_gluetun pins
  check_gluetun-Keeps c q h = elim (Option-cases c.status) [
    | inl n ↦ rw (n, check_gluetun) h
    | inr (status, n) ↦
        let q' = note_gluetun fl p w status c q in
        let k = note_gluetun-Keeps Q calm fl p w status c q h in
        let m = evaluate-Keeps false q' k in
        elim (Bool-cases
          (became_usable q.engine.gluetun q'.engine.gluetun && has_ranked q'.engine.ranked)) [
            | inl t ↦ rw (n, check_gluetun) (rw t m)
            | inr f ↦ rw (n, check_gluetun) (rw f k)
          ]
  ]

  pub run_updater-Keeps :
      (c : Checkup) (q : Program F)
      → Keeps Q calm q.engine
      → Keeps Q calm (run_updater fl p w c q).0.engine
  unfolding run_updater pins
  run_updater-Keeps c q h =
      let (retry, e, asked) = Attempt.refresh_server_list p w.remote q.engine [] in
      check_gluetun-Keeps c (replay_writes p w asked (record q { engine = e })) (
        replay-Keeps Q calm p w asked (record q { engine = e })
          (refresh-Holds p w.remote Q pins adds q.engine [] h))

  pub loop_status-Keeps :
      (status : String) (accepted : Bool) (c : Checkup) (q : Program F)
      → Keeps Q calm q.engine
      → Keeps Q calm (set_loop_status fl p w status accepted c q).0.engine
  unfolding set_loop_status
  loop_status-Keeps status accepted c q h = let k = check_gluetun-Keeps c q h in ground arith

  confirm_manual-Keeps :
      (e : Engine F) (previous : Previous F) (target : Scored F) (ip : String) (log : Log)
      → Keeps Q calm e
      → Keeps Q calm (confirm_manual p w.remote e previous target ip log).1
  unfolding confirm_manual pins
  confirm_manual-Keeps e previous target ip log h =
      let (public_ip, err, looked) = verify_tunnel w.remote e target.candidate.hostname ip log in
      let k =
        record_switch-Holds p w.remote Q pins adds e previous target "manual" public_ip err looked
          h in
      elim (Option-cases err) [
        | inl n ↦ rw (n, confirm_manual) k
        | inr (failure, n) ↦ rw (n, confirm_manual) k
      ]

  settle_manual-Keeps :
      (answer : Reply String) (e : Engine F) (previous : Previous F) (target : Scored F)
      (ip : String) (log : Log)
      → Keeps Q calm e
      → Keeps Q calm (settle_manual p w.remote answer e previous target ip log).1
  unfolding settle_manual pins
  settle_manual-Keeps (ok outcome) e previous target ip log h =
      confirm_manual-Keeps e previous target ip log h
  settle_manual-Keeps (failed err) e previous target ip log h =
      record_switch-Holds p w.remote Q pins adds e previous target "manual" "" (some err) log h

  retry_manual-Keeps :
      (answer : Reply String) (e : Engine F) (previous : Previous F) (target : Scored F)
      (ip : String) (log : Log)
      → Keeps Q calm e
      → Keeps Q calm (retry_manual p w.remote answer e previous target ip log).1
  unfolding retry_manual pins flag_restart_needed
  retry_manual-Keeps (ok outcome) e previous target ip log h =
      settle_manual-Keeps (ok outcome) e previous target ip log h
  retry_manual-Keeps (failed (timed_out text)) e previous target ip log h =
      settle_manual-Keeps (failed (timed_out text)) e previous target ip log h
  retry_manual-Keeps (failed (other text)) e previous target ip log h =
      settle_manual-Keeps (failed (other text)) e previous target ip log h
  retry_manual-Keeps (failed fuel_spent) e previous target ip log h =
      settle_manual-Keeps (failed fuel_spent) e previous target ip log h
  retry_manual-Keeps (failed (rejected hosts)) e previous target ip log h =
      let (retry, e1, log1) =
        Attempt.refresh_server_list p w.remote (learn (rejected hosts) e) log in
      let (answer, e2, log2) = apply_target p w.remote e1 target log1 in
      let a =
        refresh-Holds p w.remote Q pins adds (learn (rejected hosts) e) log
          (learn-Holds p w.remote Q pins adds (rejected hosts) e h) in
      let b = apply_target-Holds p w.remote Q pins adds e1 target log1 a in
      elim (Bool-cases retry) [
        | inr n ↦ rw (n, retry_manual) a
        | inl t ↦ elim (Reply-cases answer) [
          | inl (outcome, n) ↦
              rw (t, retry_manual)
                (rw (n, retry_manual)
                  (settle_manual-Keeps (ok outcome) e2 previous target ip log2 b))
          | inr (rejected again, n) ↦ rw (t, retry_manual) (rw (n, retry_manual) b)
          | inr (timed_out text, n) ↦
              rw (t, retry_manual)
                (rw (n, retry_manual)
                  (settle_manual-Keeps (failed (timed_out text)) e2 previous target ip log2 b))
          | inr (other text, n) ↦
              rw (t, retry_manual)
                (rw (n, retry_manual)
                  (settle_manual-Keeps (failed (other text)) e2 previous target ip log2 b))
          | inr (fuel_spent, n) ↦
              rw (t, retry_manual)
                (rw (n, retry_manual)
                  (settle_manual-Keeps (failed fuel_spent) e2 previous target ip log2 b))
        ]
      ]

  switch_to-Keeps :
      (e : Engine F) (host : String) (log : Log)
      → Keeps Q calm e
      → Keeps Q calm (switch_to p w.remote e host log).1
  unfolding switch_to pins
  switch_to-Keeps e host log h = elim (Option-cases (find_host e.ranked host)) [
    | inl n ↦ elim (Option-cases (find_candidate host e.blocked)) [
      | inl m ↦ rw (n, switch_to) (rw (m, switch_to) h)
      | inr (c, m) ↦ rw (n, switch_to) (rw (m, switch_to) h)
    ]
    | inr (target, n) ↦
        let (answer, e', asked) = apply_target p w.remote e target log in
        rw (n, switch_to)
          (retry_manual-Keeps answer e' (previous_of p e) target e.gluetun.exit_ip asked
            (apply_target-Holds p w.remote Q pins adds e target log h))
  ]

  pub move_to-Keeps :
      (host : String) (q : Program F)
      → Keeps Q calm q.engine
      → Keeps Q calm (move_to p w host q).0.engine
  unfolding move_to
  move_to-Keeps host q h =
      let (told, e, log) = switch_to p w.remote q.engine host [] in
      replay-Keeps Q calm p w log (record q { engine = e }) (switch_to-Keeps q.engine host [] h)

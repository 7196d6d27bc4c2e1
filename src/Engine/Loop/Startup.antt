-- ===== src/Engine/Loop/Startup.antt =====
-- internal/engine/engine.go, the start of `Run`, while Proton's list cannot be fetched and Gluetun does
-- not answer.
use gluetun_proton_list_upda.Prelude.{
  ℕ, ◌≡◌, refl, sym, ap, subst, ◌∙◌, String, false, not, ◌&&◌, List, [], ◌∷◌, Option, none, some,
  str_eq, List-cases, Bool-cases, Option-cases, inl, inr, arith,
}
use gluetun_proton_list_upda.Prelude.Addr.{Addr}
use gluetun_proton_list_upda.Prelude.Real.{Float}
use gluetun_proton_list_upda.Platform.{Platform}
use gluetun_proton_list_upda.Latency.{Dial}
use gluetun_proton_list_upda.Scoring.{Scored}
use gluetun_proton_list_upda.Engine.Core.{Engine, Reading, reconnect_none}
use gluetun_proton_list_upda.Engine.Current.{current_hostname}
use gluetun_proton_list_upda.Engine.History.{record_transfer}
use gluetun_proton_list_upda.Engine.Sets.{rerank}
use gluetun_proton_list_upda.Engine.Transfer.{Answer, read_rates, accept_reading}
use gluetun_proton_list_upda.Engine.Decide.{
  Verdict, Stay, stay, no_candidates, mode_none, unreachable, bad_status, other_provider, auto_off,
  held_back, on_best, too_soon, cooling_down, little_gain, evaluate_with, evaluate_verdict,
}
use gluetun_proton_list_upda.Engine.Program.{FetchError, Program, World}
use gluetun_proton_list_upda.Engine.Tasks.{
  Account, refused, refresh_account_info, refresh_server_list, probe_latency, find_schema_version,
  load_cached_logicals,
}
use gluetun_proton_list_upda.Engine.Health.{Checkup, note_stay, evaluate, check_gluetun}
use gluetun_proton_list_upda.Engine.Loop.{refresh_transfer, start}

module _ {F : Type 0} where
  -- the servers that are held, and the files that Gluetun reads, are the same
  abbrev pub Held : Program F → Program F → Type 0
  Held q q' =
      (q'.engine.candidates ≡ q.engine.candidates)
      × (q'.engine.file_candidates ≡ q.engine.file_candidates)
      × (q'.engine.blocked ≡ q.engine.blocked)
      × (q'.files ≡ q.files)

  Held-trans : (a b c : Program F) → Held a b → Held b c → Held a c
  Held-trans a b c (k1, k2, k3, k4) (m1, m2, m3, m4) = (m1 ∙ k1, m2 ∙ k2, m3 ∙ k3, m4 ∙ k4)

  Held-note_stay :
      (why : Stay) (q : Program F) → Held q (record q { engine = note_stay why q.engine })
  Held-note_stay no_candidates q = (refl, refl, refl, refl)
  Held-note_stay mode_none q = (refl, refl, refl, refl)
  Held-note_stay unreachable q = (refl, refl, refl, refl)
  Held-note_stay (bad_status status) q = (refl, refl, refl, refl)
  Held-note_stay other_provider q = (refl, refl, refl, refl)
  Held-note_stay auto_off q = (refl, refl, refl, refl)
  Held-note_stay (held_back b) q = (refl, refl, refl, refl)
  Held-note_stay on_best q = (refl, refl, refl, refl)
  Held-note_stay (too_soon n) q = (refl, refl, refl, refl)
  Held-note_stay (cooling_down n) q = (refl, refl, refl, refl)
  Held-note_stay little_gain q = (refl, refl, refl, refl)

  Held-record_transfer :
      (now : ℕ) (host : String) (r : Reading) (e : Engine F) (q : Program F)
      → Held q (record q { engine = e })
      → Held q (record q { engine = record_transfer now host r e })
  unfolding record_transfer
  Held-record_transfer now host r e q h = ground arith

  Held-refresh_transfer :
      (p : Platform) (w : World F) (answers : List (String × Answer)) (q : Program F)
      → Held q (refresh_transfer p w answers q)
  unfolding refresh_transfer
  Held-refresh_transfer p w [] q = (refl, refl, refl, refl)
  Held-refresh_transfer p w (source ∷ sources) q =
      elim (Option-cases (read_rates (source ∷ sources)).0) [
        | inl n ↦ rw (n, refresh_transfer) (refl, refl, refl, refl)
        | inr ((name, r), n) ↦
            let e = q.engine in
            let read_engine = record e {
              transfer = accept_reading e.cfg w.now name r e.transfer;
            } in
            rw (n, refresh_transfer)
              (Held-record_transfer w.now (current_hostname p e) r read_engine q
                (refl, refl, refl, refl))
      ]

  Held-probe_latency :
      (fl : Float F) (w : World F) (dials : Addr → List Dial) (q : Program F)
      → Held q (probe_latency fl w dials q)
        × ((probe_latency fl w dials q).engine.gluetun ≡ q.engine.gluetun)
  unfolding probe_latency rerank
  Held-probe_latency fl w dials q = ground arith

module _ {F : Type 0} (fl : Float F) (p : Platform) where
  with_unreachable :
      (e : Engine F) (now : ℕ) (host : String) (best : Scored F)
      → e.gluetun.reachable ≡ false
      → (why : Stay) × (evaluate_with fl e now host best false ≡ (e, stay why))
  unfolding evaluate_with
  with_unreachable e now host best r =
      elim (Bool-cases (str_eq e.cfg.mode reconnect_none && not false)) [
        | inl t ↦ (mode_none, ground arith)
        | inr f ↦ (unreachable, ground arith)
      ]

  verdict_unreachable :
      (e : Engine F) (now : ℕ) (host : String)
      → e.gluetun.reachable ≡ false
      → (why : Stay) × (evaluate_verdict fl e now host false ≡ (e, stay why))
  unfolding evaluate_verdict
  verdict_unreachable e now host r = elim (List-cases e.ranked) [
    | inl n ↦ (no_candidates, simp (n, evaluate_verdict))
    | inr (best, rest, n) ↦
        let (why, k) = with_unreachable e now host best r in
        let a : evaluate_verdict fl e now host false ≡ evaluate_with fl e now host best false =
          simp (n, evaluate_verdict) in
        (why, a ∙ k)
  ]

  evaluate_unreachable :
      (w : World F) (q : Program F)
      → q.engine.gluetun.reachable ≡ false
      → ((evaluate fl p w false q).1 ≡ []) × Held q (evaluate fl p w false q).0
  unfolding evaluate
  evaluate_unreachable w q r =
      let (why, n) = verdict_unreachable q.engine w.now (current_hostname p q.engine) r in
      let judged : (evaluate_verdict fl q.engine w.now (current_hostname p q.engine) false).1
          ≡ stay why =
        ap (λ (x : Engine F × Verdict). x.1) n in
      let e = ap (λ (x : Engine F × Verdict). x.0) n in
      rw (judged, evaluate)
        (
          refl,
          subst (λ (x : Engine F). Held q (record q { engine = note_stay why x })) (sym e)
              (Held-note_stay why q),
        )

  check_unreachable :
      (w : World F) (c : Checkup) (q : Program F)
      → c.status ≡ none
      → ((check_gluetun fl p w c q).1 ≡ [])
        × Held q (check_gluetun fl p w c q).0
        × ((check_gluetun fl p w c q).0.engine.gluetun.reachable ≡ false)
  unfolding check_gluetun
  check_unreachable w c q n = rw (n, check_gluetun) (refl, (refl, refl, refl, refl), refl)

  Held-refused :
      (w : World F) (account : Option Account) (err : FetchError) (q : Program F)
      → Held q (refresh_server_list fl p w account (refused err) q)
        × ((refresh_server_list fl p w account (refused err) q).engine.gluetun ≡ q.engine.gluetun)
  unfolding refresh_server_list refresh_account_info
  Held-refused w none err q = ((refl, refl, refl, refl), refl)
  Held-refused w (some info) err q = ((refl, refl, refl, refl), refl)

  -- A start while the list cannot be fetched and Gluetun does not answer, whatever the account, the
  -- rates and the probes are: no request that changes anything is sent to Gluetun, and the servers
  -- held and the files are those that the cached list gave. What the check of Gluetun reads is not
  -- among these requests.
  pub start_offline :
      (w0 w1 : World F) (answers : List (String × Answer)) (w2 : World F) (c : Checkup)
      (w3 : World F) (account : Option Account) (err : FetchError) (w4 : World F)
      (dials : Addr → List Dial) (w5 : World F) (q : Program F)
      → c.status ≡ none
      → ((start fl p w0 w1 answers w2 c w3 account (refused err) w4 dials w5 q).1 ≡ [])
        × Held
            (load_cached_logicals fl p w0 (find_schema_version p w0 q))
            (start fl p w0 w1 answers w2 c w3 account (refused err) w4 dials w5 q).0
  unfolding start
  start_offline w0 w1 answers w2 c w3 account err w4 dials w5 q n =
      let seeded = load_cached_logicals fl p w0 (find_schema_version p w0 q) in
      let read = refresh_transfer p w1 answers seeded in
      let checked = (check_gluetun fl p w2 c read).0 in
      let listed = refresh_server_list fl p w3 account (refused err) checked in
      let probed = probe_latency fl w4 dials listed in
      let (quiet, held, down) = check_unreachable w2 c read n in
      let (kept, same) = Held-refused w3 account err checked in
      let (measured, same') = Held-probe_latency fl w4 dials listed in
      let down' : probed.engine.gluetun.reachable ≡ false = rw same' (rw same down) in
      let (still, last) = evaluate_unreachable w5 probed down' in
      let ended = (evaluate fl p w5 false probed).0 in
      (
        rw still (rw quiet refl),
        Held-trans seeded read ended (Held-refresh_transfer p w1 answers seeded) (
            Held-trans read checked ended held (
              Held-trans checked listed ended kept (Held-trans listed probed ended measured last))),
      )

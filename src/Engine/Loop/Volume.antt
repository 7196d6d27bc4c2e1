-- ===== src/Engine/Loop/Volume.antt =====
-- internal/engine: the volume shared with Gluetun changes by whole writes of the servers file only.
use gluetun_proton_list_upda.Prelude.{
  ◌≡◌, ◌≢◌, refl, sym, subst, ◌∙◌, String, Bool, true, false, List, [], ◌∷◌, Option, none, some,
  Bool-cases, Option-cases, inl, inr, arith, ◌&&◌,
}
use gluetun_proton_list_upda.Prelude.Real.{Float}
use gluetun_proton_list_upda.Platform.{Platform}
use gluetun_proton_list_upda.Serversfile.{
  Server, Paths, FileSystem, provider_path, manifest_path, has_gluetun_data, detect_layout,
}
use gluetun_proton_list_upda.Serversfile.Write.{WriteOptions, write}
use gluetun_proton_list_upda.Serversfile.Foreign.{has_gluetun_data-write}
use gluetun_proton_list_upda.Engine.Switch.{Log}
use gluetun_proton_list_upda.Engine.Program.{
  Settings, Program, World, write_servers_file, options_for_write,
}
use gluetun_proton_list_upda.Engine.Attempt.{perform_switch}
use gluetun_proton_list_upda.Engine.Attempt
use gluetun_proton_list_upda.Engine.Manual.{previous_of, switch_to}
use gluetun_proton_list_upda.Engine.Sets.{servers_for_file}
use gluetun_proton_list_upda.Catalog.Render.{to_gluetun_servers}
use gluetun_proton_list_upda.Engine.Decide.{evaluate_verdict}
use gluetun_proton_list_upda.Engine.Current.{current_hostname}
use gluetun_proton_list_upda.Engine.Tasks.{
  Account, ListAnswer, not_modified, refused, fetched, refresh_account_info, refresh_server_list,
  refresh_loads, probe_latency, refresh_data_observation,
}
use gluetun_proton_list_upda.Engine.Health.{
  Checkup, GluetunSettings, adopt_settings, check_server_data, note_gluetun, replay_writes, note_go,
  evaluate, check_gluetun, became_usable, has_ranked,
}
use gluetun_proton_list_upda.Engine.Transfer.{Answer, read_rates}
use gluetun_proton_list_upda.Engine.Loop.{
  Event, list_due, loads_due, latency_due, evaluation_due, health_due, transfer_due, flush_due,
  best_asked, server_asked, write_asked, auto_asked, clear_asked, updater_asked, loop_asked,
  refresh_transfer, flush_state, move_to, run_updater, set_loop_status, step, run,
}
use gluetun_proton_list_upda.Engine.Loop.Same.{Verdict-cases}

-- the paths are the given ones, and what looks like Gluetun's data was there before
Unforged : {F : Type 0} → Platform → Paths → FileSystem → Settings F → FileSystem → Type 0
Unforged p paths before s fs =
    (s.paths ≡ paths)
    × (has_gluetun_data p fs paths ≡ true → has_gluetun_data p before paths ≡ true)

Unforged-write :
    {F : Type 0} (p : Platform) (paths : Paths) (before : FileSystem)
    → provider_path p paths ≢ manifest_path p paths
    → paths.legacy_file ≢ manifest_path p paths
    → provider_path p paths ≢ paths.legacy_file
    → (s : Settings F) (fs : FileSystem) (can : String → Bool) (servers : List Server)
      (o : WriteOptions)
    → o.paths ≡ s.paths
    → Unforged p paths before s fs
    → Unforged p paths before s (write p can fs servers o).0
unfolding Unforged
Unforged-write p paths before a b c s fs can servers o same h =
    let eq : paths ≡ o.paths = sym (same ∙ h.0) in
    let kept : has_gluetun_data p (write p can fs servers o).0 paths ≡ true
        → has_gluetun_data p fs paths ≡ true =
      subst
        (λ x.
          has_gluetun_data p (write p can fs servers o).0 x ≡ true → has_gluetun_data p fs x ≡ true)
        (sym eq)
        (has_gluetun_data-write p can fs servers o
          (subst (λ x. provider_path p x ≢ manifest_path p x) eq a)
          (subst (λ (x : Paths). x.legacy_file ≢ manifest_path p x) eq b)
          (subst (λ (x : Paths). provider_path p x ≢ x.legacy_file) eq c)).0 in
    (h.0, λ k. h.1 (kept k))

module _ {F : Type 0} (p : Platform) (P : Settings F → FileSystem → Type 0)
    (writes : (s : Settings F) (fs : FileSystem) (can : String → Bool) (servers : List Server)
        (o : WriteOptions)
      → o.paths ≡ s.paths
      → P s fs
      → P s (write p can fs servers o).0) where
  abbrev On : Program F → Type 0
  On q = P q.settings q.files

  write-On : (w : World F) (q : Program F) → On q → On (write_servers_file p w q)
  unfolding write_servers_file
  write-On w q h =
      let layout = detect_layout p q.files q.settings.paths in
      let k =
        writes q.settings q.files w.can (to_gluetun_servers (servers_for_file q.engine))
          (options_for_write w q layout) refl h in
      ground arith

  replay-On : (w : World F) (log : Log) (q : Program F) → On q → On (replay_writes p w log q)
  unfolding replay_writes
  replay-On w [] q h = h
  replay-On w (request ∷ log) q h =
      let k = replay-On w log q h in let l = write-On w (replay_writes p w log q) k in ground arith

  list-On :
      (fl : Float F) (w : World F) (account : Option Account) (answer : ListAnswer F)
      (q : Program F)
      → On q
      → On (refresh_server_list fl p w account answer q)
  unfolding refresh_server_list refresh_account_info
  list-On fl w none not_modified q h = write-On w _ h
  list-On fl w (some info) not_modified q h = write-On w _ h
  list-On fl w none (refused err) q h = h
  list-On fl w (some info) (refused err) q h = h
  list-On fl w none (fetched logicals modified) q h = write-On w _ h
  list-On fl w (some info) (fetched logicals modified) q h = write-On w _ h

  evaluate-On :
      (fl : Float F) (w : World F) (force : Bool) (q : Program F)
      → On q
      → On (evaluate fl p w force q).0
  unfolding evaluate
  evaluate-On fl w force q h =
      let judged = evaluate_verdict fl q.engine w.now (current_hostname p q.engine) force in
      elim (Verdict-cases judged.1) [
        | inl (why, n) ↦ rw (n, evaluate) h
        | inr (reason, n) ↦
            let (moved, log) =
              perform_switch p w.remote (note_go judged.0) (previous_of p q.engine)
                (w.describe reason) [] in
            rw (n, evaluate) (replay-On w log (record q { engine = moved }) h)
      ]

  data_observation-On : (w : World F) (q : Program F) → On q → On (refresh_data_observation p w q)
  unfolding refresh_data_observation
  data_observation-On w q h = ground arith

  check_data-On : (w : World F) (q : Program F) → On q → On (check_server_data p w q)
  unfolding check_server_data
  check_data-On w q h = let k = data_observation-On w q h in ground arith

  adopt-On :
      (fl : Float F) (settings : Option GluetunSettings) (q : Program F)
      → On q
      → On (adopt_settings fl p settings q)
  unfolding adopt_settings
  adopt-On fl none q h = h
  adopt-On fl (some settings) q h = h

  check-On :
      (fl : Float F) (w : World F) (c : Checkup) (q : Program F)
      → On q
      → On (check_gluetun fl p w c q).0
  unfolding check_gluetun note_gluetun
  check-On fl w c q h = elim (Option-cases c.status) [
    | inl n ↦ rw (n, check_gluetun) h
    | inr (status, n) ↦
        let q' = note_gluetun fl p w status c q in
        let k : On q' = check_data-On w _ (adopt-On fl c.settings q h) in
        elim (Bool-cases
          (became_usable q.engine.gluetun q'.engine.gluetun && has_ranked q'.engine.ranked)) [
            | inl t ↦ rw (n, check_gluetun) (rw t (evaluate-On fl w false q' k))
            | inr f ↦ rw (n, check_gluetun) (rw f k)
          ]
  ]

  transfer-On :
      (w : World F) (answers : List (String × Answer)) (q : Program F)
      → On q
      → On (refresh_transfer p w answers q)
  unfolding refresh_transfer
  transfer-On w [] q h = h
  transfer-On w (source ∷ sources) q h = elim (Option-cases (read_rates (source ∷ sources)).0) [
    | inl n ↦ rw (n, refresh_transfer) h
    | inr ((name, r), n) ↦ rw (n, refresh_transfer) h
  ]

  step-On : (fl : Float F) (event : Event F) (q : Program F) → On q → On (step fl p event q).0
  unfolding step move_to run_updater set_loop_status flush_state refresh_loads probe_latency
  step-On fl (list_due w account answer) q h =
      evaluate-On fl w false (refresh_server_list fl p w account answer q)
        (list-On fl w account answer q h)
  step-On fl (loads_due w none) q h = ground arith
  step-On fl (loads_due w (some loads)) q h = ground arith
  step-On fl (latency_due w dials) q h = ground arith
  step-On fl (evaluation_due w) q h = evaluate-On fl w false q h
  step-On fl (health_due w c) q h = check-On fl w c q h
  step-On fl (transfer_due w answers) q h = transfer-On w answers q h
  step-On fl (flush_due w) q h = h
  step-On fl (best_asked w) q h = evaluate-On fl w true q h
  step-On fl (server_asked w host) q h =
      let (told, e, log) = switch_to p w.remote q.engine host [] in
      replay-On w log (record q { engine = e }) h
  step-On fl (write_asked w) q h = write-On w q h
  step-On fl (auto_asked w enabled) q h = h
  step-On fl (clear_asked w) q h = h
  step-On fl (updater_asked w c) q h =
      let (retry, e, asked) = Attempt.refresh_server_list p w.remote q.engine [] in
      check-On fl w c (replay_writes p w asked (record q { engine = e }))
        (replay-On w asked (record q { engine = e }) h)
  step-On fl (loop_asked w status accepted c) q h = let k = check-On fl w c q h in ground arith

  run-On :
      (fl : Float F) (events : List (Event F)) (q : Program F) → On q → On (run fl p events q).0
  unfolding run
  run-On fl [] q h = h
  run-On fl (event ∷ events) q h = run-On fl events (step fl p event q).0 (step-On fl event q h)

module _ {F : Type 0} (fl : Float F) (p : Platform) where
  -- No run of the loop makes what counts as Gluetun's own data: where the volume has it after a run,
  -- it had it before. The three files are assumed to be different ones.
  pub run_unforged :
      (events : List (Event F)) (q : Program F)
      → provider_path p q.settings.paths ≢ manifest_path p q.settings.paths
      → q.settings.paths.legacy_file ≢ manifest_path p q.settings.paths
      → provider_path p q.settings.paths ≢ q.settings.paths.legacy_file
      → has_gluetun_data p (run fl p events q).0.files q.settings.paths ≡ true
      → has_gluetun_data p q.files q.settings.paths ≡ true
  unfolding Unforged
  run_unforged events q a b c =
      (run-On p (Unforged p q.settings.paths q.files)
        (Unforged-write p q.settings.paths q.files a b c) fl events q (refl, λ h. h)).1

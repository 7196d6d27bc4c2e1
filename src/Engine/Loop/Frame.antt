-- ===== src/Engine/Loop/Frame.antt =====
-- internal/engine: what the tasks of the loop leave alone. A property of the configuration and of the
-- persisted state that every trimmed change preserves which keeps the time of the last switch is
-- preserved by every task that does not move the tunnel.
use gluetun_proton_list_upda.Prelude.{
  ℕ, ◌≡◌, refl, String, Bool, true, false, List, [], ◌∷◌, Option, none, some, Option-cases, inl,
  inr, arith, if◌then◌else◌, ◌==◌, length, List-cases, str_eq, not,
}
use gluetun_proton_list_upda.Prelude.Addr.{Addr}
use gluetun_proton_list_upda.Prelude.Real.{Float}
use gluetun_proton_list_upda.Platform.{Platform}
use gluetun_proton_list_upda.Proton.{LogicalServer, ServerLoad}
use gluetun_proton_list_upda.Latency.{Dial}
use gluetun_proton_list_upda.Engine.State.{StateStore, PersistedState, trim, update, mutate, flush}
use gluetun_proton_list_upda.Engine.Core.{Config, Engine, Reading}
use gluetun_proton_list_upda.Engine.Current.{verify_pin, current_hostname}
use gluetun_proton_list_upda.Engine.History.{
  record_samples, record_transfer, forget_retired, forget_hosts, retired, listed, credit_state,
  transferred_since,
}
use gluetun_proton_list_upda.Engine.Sets.{
  Enforced, adopted, reason_for, apply_logicals, refresh_sets, rerank, settle_requirements,
  abandon_inference, build_sets, rebuild_from_cache, update_requirements, update_vpn_type,
}
use gluetun_proton_list_upda.Engine.Transfer.{Answer, read_rates, accept_reading}
use gluetun_proton_list_upda.Engine.Program.{Program, World, write_servers_file}
use gluetun_proton_list_upda.Engine.Tasks.{
  Account, ListAnswer, not_modified, refused, fetched, refresh_account_info, refresh_server_list,
  refresh_loads, probe_latency, refresh_data_observation,
}
use gluetun_proton_list_upda.Engine.Health.{
  Checkup, GluetunSettings, adopt_settings, check_server_data, note_gluetun, note_checkup,
  replay_writes, servers_of,
}
use gluetun_proton_list_upda.Engine.Switch.{Log}
use gluetun_proton_list_upda.Engine.Loop.{refresh_transfer, flush_state, change_state}

module _ {F : Type 0} (Q : Config F → PersistedState F → Type 0)
    (calm : (c : Config F) (s t : PersistedState F)
      → t.last_switch_at ≡ s.last_switch_at
      → Q c s
      → Q c (trim t)) where
  abbrev pub Keeps : Engine F → Type 0
  Keeps e = Q e.cfg e.store.state

  update-Keeps :
      (c : Config F) (change : PersistedState F → PersistedState F) (writes : Bool)
      (store : StateStore F)
      → (change store.state).last_switch_at ≡ store.state.last_switch_at
      → Q c store.state
      → Q c (update change writes store).0.state
  unfolding update
  update-Keeps c change writes store e h =
      let k = calm c store.state (change store.state) e h in ground arith

  record_samples-Keeps :
      (writes : Bool) (now : ℕ) (e : Engine F) → Keeps e → Keeps (record_samples writes now e)
  unfolding record_samples
  record_samples-Keeps writes now e h = elim (List-cases e.ranked) [
    | inl n ↦ rw (n, record_samples) h
    | inr (x, xs, n) ↦ rw (n, record_samples) (update-Keeps e.cfg _ writes e.store refl h)
  ]

  forget_hosts-Keeps :
      (writes : Bool) (hosts : List String) (e : Engine F)
      → Keeps e
      → Keeps (forget_hosts writes hosts e)
  unfolding forget_hosts
  forget_hosts-Keeps writes [] e h = h
  forget_hosts-Keeps writes (host ∷ rest) e h = update-Keeps e.cfg _ writes e.store refl h

  forget_retired-Keeps :
      (writes : Bool) (logicals : List (LogicalServer F)) (e : Engine F)
      → Keeps e
      → Keeps (forget_retired writes logicals e)
  unfolding forget_retired
  forget_retired-Keeps writes logicals e h =
      let k = forget_hosts-Keeps writes (retired (listed logicals []) e.store.state.stats) e h in
      ground arith

  settle-Keeps :
      (p : Platform) (e : Engine F) (logicals : List (LogicalServer F))
      → Keeps e
      → Keeps (settle_requirements p e logicals)
  unfolding settle_requirements abandon_inference
  settle-Keeps p e logicals h = ground arith

  apply_logicals-Keeps :
      (fl : Float F) (p : Platform) (writes : Bool) (logicals : List (LogicalServer F))
      (from_cache : Bool) (e : Engine F)
      → Keeps e
      → Keeps (apply_logicals fl p writes logicals from_cache e)
  unfolding apply_logicals build_sets refresh_sets rerank
  apply_logicals-Keeps fl p writes logicals from_cache e h =
      let built = build_sets p (settle_requirements p e logicals) logicals in
      let loaded =
        if length built.latest_loads == 0 then built else refresh_sets built.latest_loads built in
      let k : Keeps built = settle-Keeps p e logicals h in
      let l : Keeps loaded = ground arith in
      let r = forget_retired-Keeps writes logicals (rerank fl loaded) l in ground arith

  rebuild-Keeps :
      (fl : Float F) (p : Platform) (cached : Option (List (LogicalServer F))) (e : Engine F)
      → Keeps e
      → Keeps (rebuild_from_cache fl p cached e)
  unfolding rebuild_from_cache
  rebuild-Keeps fl p none e h = h
  rebuild-Keeps fl p (some logicals) e h = apply_logicals-Keeps fl p true logicals true e h

  requirements-Keeps :
      (fl : Float F) (p : Platform) (cached : Option (List (LogicalServer F))) (from : Enforced)
      (e : Engine F)
      → Keeps e
      → Keeps (update_requirements fl p cached from e)
  unfolding update_requirements
  requirements-Keeps fl p cached from e h =
      let reasoned = record e { port_forward_reason = reason_for from e } in
      let k = rebuild-Keeps fl p cached (record reasoned { requirements = adopted from e }) h in
      ground arith

  vpn_type-Keeps :
      (fl : Float F) (p : Platform) (cached : Option (List (LogicalServer F))) (vpn_type : String)
      (e : Engine F)
      → Keeps e
      → Keeps (update_vpn_type fl p cached vpn_type e)
  unfolding update_vpn_type
  vpn_type-Keeps fl p cached vpn_type e h =
      let k = rebuild-Keeps fl p cached (record e { vpn_type = vpn_type }) h in ground arith

  verify_pin-Keeps : (writes : Bool) (e : Engine F) → Keeps e → Keeps (verify_pin writes e)
  unfolding verify_pin
  verify_pin-Keeps writes e h =
      let k = update-Keeps e.cfg (λ s. record s { pinned_hostname = "" }) writes e.store refl h in
      ground arith

  pub write-Keeps :
      (p : Platform) (w : World F) (q : Program F)
      → Keeps q.engine
      → Keeps (write_servers_file p w q).engine
  unfolding write_servers_file
  write-Keeps p w q h = ground arith

  pub replay-Keeps :
      (p : Platform) (w : World F) (log : Log) (q : Program F)
      → Keeps q.engine
      → Keeps (replay_writes p w log q).engine
  unfolding replay_writes
  replay-Keeps p w [] q h = h
  replay-Keeps p w (request ∷ log) q h =
      let k = replay-Keeps p w log q h in
      let l = write-Keeps p w (replay_writes p w log q) k in ground arith

  account-Keeps :
      (w : World F) (account : Option Account) (q : Program F)
      → Keeps q.engine
      → Keeps (refresh_account_info w account q).engine
  unfolding refresh_account_info
  account-Keeps w none q h = h
  account-Keeps w (some info) q h =
      let e = q.engine in
      let k =
        update-Keeps e.cfg
          (λ s. record s { account_tier = some info.tier; account_plan = info.plan_name }) w.saves
          e.store refl h in
      ground arith

  pub list-Keeps :
      (fl : Float F) (p : Platform) (w : World F) (account : Option Account) (answer : ListAnswer F)
      (q : Program F)
      → Keeps q.engine
      → Keeps (refresh_server_list fl p w account answer q).engine
  unfolding refresh_server_list
  list-Keeps fl p w account not_modified q h = write-Keeps p w _ (account-Keeps w account q h)
  list-Keeps fl p w account (refused err) q h = account-Keeps w account q h
  list-Keeps fl p w account (fetched logicals modified) q h =
      let q' = refresh_account_info w account q in
      write-Keeps p w _ (
        record_samples-Keeps w.saves w.now _ (
          apply_logicals-Keeps fl p w.saves logicals false q'.engine (account-Keeps w account q h)))

  pub loads-Keeps :
      (fl : Float F) (w : World F) (answer : Option (List (ServerLoad F))) (q : Program F)
      → Keeps q.engine
      → Keeps (refresh_loads fl w answer q).engine
  unfolding refresh_loads refresh_sets rerank
  loads-Keeps fl w none q h = ground arith
  loads-Keeps fl w (some loads) q h =
      let refreshed = rerank fl (refresh_sets loads (record q.engine { latest_loads = loads })) in
      let k = record_samples-Keeps w.saves w.now refreshed h in ground arith

  pub latency-Keeps :
      (fl : Float F) (w : World F) (dials : Addr → List Dial) (q : Program F)
      → Keeps q.engine
      → Keeps (probe_latency fl w dials q).engine
  unfolding probe_latency rerank
  latency-Keeps fl w dials q h = ground arith

  observation-Keeps :
      (p : Platform) (w : World F) (q : Program F)
      → Keeps q.engine
      → Keeps (refresh_data_observation p w q).engine
  unfolding refresh_data_observation
  observation-Keeps p w q h =
      let k =
        update-Keeps q.engine.cfg (λ s. record s { gluetun_had_server_data = true }) w.saves
          q.engine.store refl h in
      ground arith

  check_data-Keeps :
      (p : Platform) (w : World F) (q : Program F)
      → Keeps q.engine
      → Keeps (check_server_data p w q).engine
  unfolding check_server_data
  check_data-Keeps p w q h = let k = observation-Keeps p w q h in ground arith

  adopt-Keeps :
      (fl : Float F) (p : Platform) (settings : Option GluetunSettings) (q : Program F)
      → Keeps q.engine
      → Keeps (adopt_settings fl p settings q).engine
  unfolding adopt_settings
  adopt-Keeps fl p none q h = h
  adopt-Keeps fl p (some settings) q h =
      let cached = servers_of q.cached in
      let typed =
        if str_eq settings.vpn_type ""
        then q.engine
        else update_vpn_type fl p cached settings.vpn_type q.engine in
      let a = vpn_type-Keeps fl p cached settings.vpn_type q.engine h in
      let b : Keeps typed = ground arith in requirements-Keeps fl p cached settings.enforced typed b

  pub note_gluetun-Keeps :
      (fl : Float F) (p : Platform) (w : World F) (status : String) (c : Checkup) (q : Program F)
      → Keeps q.engine
      → Keeps (note_gluetun fl p w status c q).engine
  unfolding note_gluetun
  note_gluetun-Keeps fl p w status c q h =
      let adopted = adopt_settings fl p c.settings q in
      let e = record adopted.engine {
        gluetun = note_checkup status c.settings c.public_ip adopted.engine.gluetun;
      } in
      let k : Keeps e = adopt-Keeps fl p c.settings q h in
      check_data-Keeps p w (record adopted { engine = verify_pin w.saves e })
        (verify_pin-Keeps w.saves e k)

  mutate-Keeps :
      (c : Config F) (change : PersistedState F → PersistedState F) (store : StateStore F)
      → (change store.state).last_switch_at ≡ store.state.last_switch_at
      → Q c store.state
      → Q c (mutate change store).state
  unfolding mutate
  mutate-Keeps c change store e h = calm c store.state (change store.state) e h

  record_transfer-Keeps :
      (now : ℕ) (host : String) (r : Reading) (e : Engine F)
      → Keeps e
      → Keeps (record_transfer now host r e)
  unfolding record_transfer
  record_transfer-Keeps now host r e h =
      let stay = not (str_eq host e.store.state.measuring_host) in
      let moved = (transferred_since host r e.transfer).0 in
      let k = mutate-Keeps e.cfg (credit_state now host stay r moved) e.store refl h in ground arith

  pub transfer-Keeps :
      (p : Platform) (w : World F) (answers : List (String × Answer)) (q : Program F)
      → Keeps q.engine
      → Keeps (refresh_transfer p w answers q).engine
  unfolding refresh_transfer
  transfer-Keeps p w [] q h = h
  transfer-Keeps p w (source ∷ sources) q h =
      elim (Option-cases (read_rates (source ∷ sources)).0) [
        | inl n ↦ rw (n, refresh_transfer) h
        | inr ((name, r), n) ↦
            let e = q.engine in
            let read_engine = record e {
              transfer = accept_reading e.cfg w.now name r e.transfer;
            } in
            rw (n, refresh_transfer)
              (record_transfer-Keeps w.now (current_hostname p e) r read_engine h)
      ]

  pub flush-Keeps : (w : World F) (q : Program F) → Keeps q.engine → Keeps (flush_state w q).engine
  unfolding flush_state flush
  flush-Keeps w q h = ground arith

  pub change-Keeps :
      (w : World F) (change : PersistedState F → PersistedState F) (q : Program F)
      → (change q.engine.store.state).last_switch_at ≡ q.engine.store.state.last_switch_at
      → Keeps q.engine
      → Keeps (change_state w change q).engine
  change-Keeps w change q e h = update-Keeps q.engine.cfg change w.saves q.engine.store e h

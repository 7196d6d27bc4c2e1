-- ===== src/Engine/Tasks.antt =====
-- internal/engine/tasks.go and engine.go: the tasks of the run loop that ask Proton or measure.
pub mod Lists
use gluetun_proton_list_upda.Prelude.{
  ℕ, ◌+◌, String, Bool, true, false, not, ◌&&◌, ◌||◌, List, [], ◌∷◌, Option, none, some, ltb, ◌==◌,
  str_eq, if◌then◌else◌, length, map, take,
}
use gluetun_proton_list_upda.Prelude.Addr.{Addr, addr_eq}
use gluetun_proton_list_upda.Prelude.Real.{Float}
use gluetun_proton_list_upda.Platform.{Platform}
use gluetun_proton_list_upda.Proton.{LogicalServer, ServerLoad}
use gluetun_proton_list_upda.Catalog.{Candidate}
use gluetun_proton_list_upda.Latency.{History, Dial, probe_one, store, forget, is_wanted}
use gluetun_proton_list_upda.Scoring.{Scored, rank}
use gluetun_proton_list_upda.Serversfile.{
  detect_layout, has_gluetun_data, Detected, decode_error, undetected, detected,
  detect_schema_version,
}
use gluetun_proton_list_upda.Engine.State.{update}
use gluetun_proton_list_upda.Engine.Core.{Engine}
use gluetun_proton_list_upda.Engine.History.{record_samples}
use gluetun_proton_list_upda.Engine.Sets.{apply_logicals, refresh_sets, rerank, has_none}
use gluetun_proton_list_upda.Engine.Program.{
  Settings, CachedLogicals, CachedLoads, FetchError, totp_required, invalid_credentials,
  not_fetched, ProtonStatus, Program, World, write_servers_file, loaded_logicals, loaded_loads,
}

-- `AccountInfo`
pub record Account : Type 0 where
  pub tier : ℕ
  pub plan_name : String
  pub plan_title : String
  pub max_connections : ℕ
  pub delinquent : ℕ

abbrev pub is_tier : Option ℕ → ℕ → Bool
is_tier none tier = false
is_tier (some t) tier = t == tier

-- Proton's answer to the request for the list.
pub data ListAnswer (F : Type 0) : Type 0 where
  not_modified : ListAnswer F
  refused : FetchError → ListAnswer F
  fetched : List (LogicalServer F) → String → ListAnswer F

abbrev pub is_totp : FetchError → Bool
is_totp totp_required = true
is_totp _ = false

abbrev pub note_refused : FetchError → ProtonStatus → ProtonStatus
note_refused err s = record s {
  last_fetch_error = some err;
  needs_totp = if is_totp err then true else s.needs_totp;
}

abbrev pub note_account : Account → ProtonStatus → ProtonStatus
note_account info s = record s {
  account_plan = if str_eq info.plan_title "" then info.plan_name else info.plan_title;
  account_free = info.tier == 0;
  max_connections = info.max_connections;
  delinquent = not (info.delinquent == 0);
}

abbrev pub note_fetched : ℕ → ℕ → String → ProtonStatus → ProtonStatus
note_fetched now count modified s = record s {
  last_fetch = now;
  last_fetch_error = none;
  logicals_count = count;
  list_last_modified = modified;
  from_cache = false;
  needs_totp = false;
  last_load_refresh = now;
  load_failed = false;
  cache_stale = false;
}

abbrev pub note_loads : ℕ → ProtonStatus → ProtonStatus
note_loads now s = record s { last_load_refresh = now; load_failed = false; cache_stale = false }

abbrev pub note_cached : ℕ → ℕ → ℕ → ℕ → String → ProtonStatus → ProtonStatus
note_cached now max_age fetched_at count modified s = record s {
  from_cache = true;
  last_fetch = fetched_at;
  list_last_modified = modified;
  logicals_count = count;
  cache_stale = ltb 0 max_age && ltb (fetched_at + max_age) now;
}

-- the first of equal addresses
abbrev pub distinct_addresses : List Addr → List Addr → List Addr
distinct_addresses [] seen = []
distinct_addresses (ip ∷ rest) seen =
    let more = distinct_addresses rest (ip ∷ seen) in
    let skipped = distinct_addresses rest seen in if is_wanted ip seen then skipped else ip ∷ more

module _ {F : Type 0} where
  -- `refreshAccountInfo`; no answer is an error
  unfoldable pub refresh_account_info : World F → Option Account → Program F → Program F
  refresh_account_info w none q = q
  refresh_account_info w (some info) q =
      let e = q.engine in
      record q {
        proton = note_account info q.proton;
        engine = record e {
          account_tier = some info.tier;
          store =
              if is_tier e.account_tier info.tier
              then e.store
              else (update
                  (λ s. record s { account_tier = some info.tier; account_plan = info.plan_name })
                  w.saves e.store).0;
        };
      }

abbrev pub version_or_default : Detected → ℕ
version_or_default (detected n) = n
version_or_default undetected = 4
version_or_default decode_error = 4

module _ {F : Type 0} where
  abbrev pub all_entry_ips : Engine F → List Addr
  all_entry_ips e = map (λ (c : Candidate F). c.entry_ip) e.candidates

module _ {F : Type 0} (fl : Float F) where
  -- `refreshLoads`; no answer is an error
  unfoldable pub refresh_loads : World F → Option (List (ServerLoad F)) → Program F → Program F
  unfolding refresh_sets rerank record_samples
  refresh_loads w answer q = if has_none q.engine.candidates then q else elim answer [
    | none ↦ record q { proton = record q.proton { load_failed = true } }
    | some loads ↦
        let refreshed = rerank fl (refresh_sets loads (record q.engine { latest_loads = loads })) in
        record q {
          engine = record_samples w.saves w.now refreshed;
          cached_loads =
              if w.saves
              then some (record { updated_at = w.now; loads = loads })
              else q.cached_loads;
          proton = note_loads w.now q.proton;
        }
  ]

  -- `entryIPs`: ranked without what was measured
  unfoldable pub entry_ips : ℕ → Engine F → List Addr
  entry_ips limit e =
      let blind = record e.cfg.score { latency_weight = fl.naught } in
      let ranked = rank fl e.candidates [] blind in
      let best = if ltb 0 limit && ltb limit (length ranked) then take limit ranked else ranked in
      distinct_addresses (map (λ (s : Scored F). s.candidate.entry_ip) best) []

  -- `Probe`, as far as its results are concerned, on the dials to each address.
  unfoldable pub probe_all : F → ℕ → (Addr → List Dial) → List Addr → History → History
  unfolding store probe_one
  probe_all smoothing now dials [] h = h
  probe_all smoothing now dials (ip ∷ rest) h =
      probe_all smoothing now dials rest (store fl smoothing h ip (probe_one now (dials ip))).0

  -- `probeLatency`
  unfoldable pub probe_latency : World F → (Addr → List Dial) → Program F → Program F
  unfolding entry_ips probe_all rerank
  probe_latency w dials q =
      let e = q.engine in
      let addresses = entry_ips q.settings.latency_top_n e in
      let probed = probe_all q.settings.smoothing w.now dials addresses e.probes in
      if not q.settings.latency_enabled || has_none e.candidates
      then q
      else if length addresses == 0
      then q
      else record q {
        engine = rerank fl (record e { probes = (forget probed (all_entry_ips e)).0 });
      }

  -- `applyCachedLoads`, on the age of the cached list
  unfoldable pub apply_cached_loads : ℕ → Program F → Program F
  unfolding refresh_sets rerank
  apply_cached_loads list_fetched_at q = elim (loaded_loads q.cached_loads) [
    | none ↦ q
    | some c ↦ if not (ltb list_fetched_at c.updated_at) then q else record q {
      engine = rerank fl (refresh_sets c.loads (record q.engine { latest_loads = c.loads }));
      proton = record q.proton { last_load_refresh = c.updated_at };
    }
  ]

module _ {F : Type 0} (p : Platform) where
  -- `refreshGluetunDataObservation`
  unfoldable pub refresh_data_observation : World F → Program F → Program F
  unfolding has_gluetun_data
  refresh_data_observation w q =
      if q.wrote_server_data
      then q
      else if q.engine.store.state.gluetun_had_server_data
      then record q { wrote_server_data = true }
      else if not (has_gluetun_data p q.files q.settings.paths)
      then q
      else record q {
        wrote_server_data = true;
        engine = record q.engine {
          store =
              (update (λ s. record s { gluetun_had_server_data = true }) w.saves q.engine.store).0;
        };
      }

  -- `detectSchemaVersion`
  unfoldable pub find_schema_version : World F → Program F → Program F
  unfolding refresh_data_observation detect_layout detect_schema_version
  find_schema_version w q =
      let q' = refresh_data_observation w q in
      record q' {
        layout = some (detect_layout p q'.files q'.settings.paths);
        schema_version =
            if ltb 0 q'.settings.schema_version
            then q'.settings.schema_version
            else version_or_default (detect_schema_version p q'.files q'.settings.paths);
      }

module _ {F : Type 0} (fl : Float F) (p : Platform) where
  -- `refreshServerList`
  unfoldable pub refresh_server_list :
      World F → Option Account → ListAnswer F → Program F → Program F
  unfolding refresh_account_info write_servers_file apply_logicals record_samples
  refresh_server_list w account answer q =
      let q' = refresh_account_info w account q in
      elim answer [
        | not_modified ↦ write_servers_file p w (record q' {
          proton = record q'.proton { last_fetch = w.now; last_fetch_error = none };
        })
        | refused err ↦ record q' { proton = note_refused err q'.proton }
        | fetched logicals modified ↦
            let applied = apply_logicals fl p w.saves logicals false q'.engine in
            write_servers_file p w (record q' {
              engine = record_samples w.saves w.now applied;
              cached =
                  if w.saves
                  then some
                      (record { fetched_at = w.now; last_modified = modified; servers = logicals })
                  else q'.cached;
              proton = note_fetched w.now (length logicals) modified q'.proton;
            })
      ]

  -- `loadCachedLogicals`
  unfoldable pub load_cached_logicals : World F → Program F → Program F
  unfolding apply_logicals apply_cached_loads write_servers_file
  load_cached_logicals w q = elim (loaded_logicals q.cached) [
    | none ↦ q
    | some c ↦ write_servers_file p w (
        apply_cached_loads fl c.fetched_at (record q {
          engine = apply_logicals fl p w.saves c.servers true q.engine;
          proton =
              note_cached w.now q.settings.cache_max_age c.fetched_at (length c.servers)
                c.last_modified q.proton;
        }))
  ]

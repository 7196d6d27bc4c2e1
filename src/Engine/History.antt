-- ===== src/Engine/History.antt =====
-- internal/engine/history.go: what is recorded of each server.
pub mod Credit
pub mod Records
use gluetun_proton_list_upda.Prelude.{
  ℕ, suc, ◌+◌, ◌-◌, ◌/◌, min, max, String, Bool, true, false, not, ◌&&◌, ◌||◌, List, [], ◌∷◌, ◌++◌,
  Option, none, some, ltb, ◌==◌, str_eq, string_eq, is_some, if◌then◌else◌, length, map,
}
use gluetun_proton_list_upda.Prelude.Table.{Table, find, put, remove}
use gluetun_proton_list_upda.Proton.{PhysicalServer, LogicalServer}
use gluetun_proton_list_upda.Catalog.{Candidate, contains}
use gluetun_proton_list_upda.Latency.{lookup, History}
use gluetun_proton_list_upda.Scoring.{Scored}
use gluetun_proton_list_upda.Engine.State.{
  ServerStats, StatsTable, zero_stats, unix, observe_load, observe_rtt, PersistedState, mutate,
  update,
}
use gluetun_proton_list_upda.Engine.Core.{Reading, Transfer, Engine, status_running}
use gluetun_proton_list_upda.Engine.Transfer.{u64}
use gluetun_proton_list_upda.Engine.Current.{on_current_since}

-- `state.Stats[hostname]`
abbrev pub stats_of : String → StatsTable → ServerStats
stats_of host stats = elim (find host stats) [ some s ↦ s | none ↦ zero_stats ]

module _ {F : Type 0} where
  -- whole milliseconds, at most those of a uint16
  abbrev pub observed_rtt : History → Scored F → ServerStats → ServerStats
  observed_rtt probes entry s = elim (lookup probes entry.candidate.entry_ip) [
    | none ↦ s
    | some r ↦
        if is_some r.err
        then s
        else if r.rtt / 1000000 == 0
        then s
        else observe_rtt s (min (r.rtt / 1000000) 65535)
  ]

  -- The loop of `recordSamples` over the ranking.
  unfoldable pub sample_all : History → ℕ → List (Scored F) → StatsTable → StatsTable
  unfolding lookup observe_load observe_rtt
  sample_all probes now [] stats = stats
  sample_all probes now (entry ∷ rest) stats =
      let host = entry.candidate.hostname in
      let s = observe_load (stats_of host stats) entry.candidate.load now in
      sample_all probes now rest (put host (observed_rtt probes entry s) stats)

  unfoldable pub record_samples : Bool → ℕ → Engine F → Engine F
  unfolding sample_all
  record_samples writes now e = elim e.ranked [
    | [] ↦ e
    | _ ∷ _ ↦ record e {
      store =
          (update (λ s. record s { stats = sample_all e.probes now e.ranked s.stats }) writes
            e.store).0;
    }
  ]

-- `a - b` of uint64, which wraps below 0
unfoldable pub sub_u64 : ℕ → ℕ → ℕ
sub_u64 a b = if ltb a b then a + 18446744073709551616 - b else a - b

-- `transferredSince`: the bytes moved since the last reading on the server, and the new baseline.
unfoldable pub transferred_since : String → Reading → Transfer → (ℕ × ℕ) × Transfer
unfolding sub_u64
transferred_since host r t = (
  (if not (str_eq t.baseline_host host)
      then (0, 0)
      else if ltb r.downloaded_bytes t.baseline_down || ltb r.uploaded_bytes t.baseline_up
      then (0, 0)
      else (sub_u64 r.downloaded_bytes t.baseline_down, sub_u64 r.uploaded_bytes t.baseline_up)),
  record t {
    baseline_host = host;
    baseline_down = r.downloaded_bytes;
    baseline_up = r.uploaded_bytes;
  },
)

-- The volumes; uint64 sums wrap.
unfoldable pub credit_volume : ℕ → ℕ × ℕ → ServerStats → ServerStats
credit_volume now (down, up) s =
    if ltb 0 down || ltb 0 up
    then record s {
      downloaded_bytes = u64 (s.downloaded_bytes + down);
      uploaded_bytes = u64 (s.uploaded_bytes + up);
      last_transfer_unix = unix now;
    }
    else s

unfoldable pub credit_rates : ℕ → Bool → Reading → ServerStats → ServerStats
credit_rates now new_stay r s =
    if ltb 0 r.download || ltb 0 r.upload
    then record s {
      max_download_rate = if new_stay then r.download else max s.max_download_rate r.download;
      max_upload_rate = if new_stay then r.upload else max s.max_upload_rate r.upload;
      transfer_readings = suc s.transfer_readings;
      last_seen_unix = unix now;
    }
    else s

-- The change of one record in `recordTransfer`.
unfoldable pub credit : ℕ → Bool → Reading → ℕ × ℕ → ServerStats → ServerStats
unfolding credit_volume credit_rates
credit now new_stay r moved s = credit_rates now new_stay r (
    credit_volume now moved (record s {
      visits = if new_stay then suc s.visits else s.visits;
      first_seen_unix = if s.first_seen_unix == 0 then unix now else s.first_seen_unix;
    }))

module _ {F : Type 0} where
  abbrev pub credit_state :
      ℕ → String → Bool → Reading → ℕ × ℕ → PersistedState F → PersistedState F
  credit_state now host new_stay r moved s = record s {
    stats = put host (credit now new_stay r moved (stats_of host s.stats)) s.stats;
    measuring_host = if ltb 0 r.download || ltb 0 r.upload then host else s.measuring_host;
  }

  -- the guards of `recordTransfer` before the baseline is moved
  unfoldable pub is_attributable : Engine F → ℕ → String → Bool
  unfolding on_current_since
  is_attributable e now host =
      if str_eq host ""
      then false
      else if not (str_eq e.gluetun.status "") && not (str_eq e.gluetun.status status_running)
      then false
      else if not (on_current_since e host == 0)
          && ltb 0 e.cfg.poll_interval
          && ltb (now - on_current_since e host) e.cfg.poll_interval
      then false
      else true

  -- `recordTransfer` on what `currentHostname` says
  unfoldable pub record_transfer : ℕ → String → Reading → Engine F → Engine F
  unfolding is_attributable transferred_since credit
  record_transfer now host r e =
      if not (is_attributable e now host)
      then record e { transfer = record e.transfer { baseline_host = "" } }
      else let (moved, t) = transferred_since host r e.transfer in
        if moved.0 == 0 && moved.1 == 0 && r.download == 0 && r.upload == 0
        then record e { transfer = t }
        else let new_stay = not (str_eq host e.store.state.measuring_host) in
          record e {
            store = mutate (credit_state now host new_stay r moved) e.store;
            transfer = if new_stay then record t { throughput_host = host } else t;
          }

-- the domains of every machine of every logical server, each once
unfoldable pub domains_of : List PhysicalServer → List String → List String
domains_of [] seen = seen
domains_of (s ∷ rest) seen =
    domains_of rest (if contains s.domain seen then seen else s.domain ∷ seen)

-- the hosts that have a record and are not listed
unfoldable pub retired : List String → StatsTable → List String
retired hosts [] = []
retired hosts ((host, s) ∷ rest) =
    let others = retired hosts rest in if contains host hosts then others else host ∷ others

unfoldable pub remove_all : List String → StatsTable → StatsTable
remove_all [] stats = stats
remove_all (host ∷ rest) stats = remove_all rest (remove host stats)

module _ {F : Type 0} where
  unfoldable pub listed : List (LogicalServer F) → List String → List String
  unfolding domains_of
  listed [] seen = seen
  listed (l ∷ rest) seen = listed rest (domains_of l.servers seen)

  -- the update of `forgetRetiredServers`, which is left out where there is nothing to delete
  unfoldable pub forget_hosts : Bool → List String → Engine F → Engine F
  unfolding remove_all
  forget_hosts writes [] e = e
  forget_hosts writes (host ∷ rest) e = record e {
    store = (update (λ s. record s { stats = remove_all (host ∷ rest) s.stats }) writes e.store).0;
  }

  -- `forgetRetiredServers`
  unfoldable pub forget_retired : Bool → List (LogicalServer F) → Engine F → Engine F
  unfolding listed retired forget_hosts
  forget_retired writes logicals e =
      let held = e.store.state.stats in
      let hosts = listed logicals [] in
      if length held == 0
      then e
      else if ltb (length hosts) (length held)
      then e
      else forget_hosts writes (retired hosts held) e

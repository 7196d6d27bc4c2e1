-- ===== src/Engine/State.antt =====
-- internal/engine/state.go: what survives a restart, and the store that writes it.
-- Times are nanoseconds, and 0 is the zero `time.Time`; `Unix()` is whole seconds.
pub mod Extremes
pub mod Caps
pub mod Saved
use gluetun_proton_list_upda.Prelude.{
  ℕ, zero, suc, ◌+◌, ◌-◌, ◌/◌, String, Bool, true, false, not, ◌&&◌, ◌||◌, List, [], ◌∷◌, ◌++◌,
  Option, none, some, ltb, leb, ◌==◌, str_eq, string_eq, if◌then◌else◌, length, drop,
}
use gluetun_proton_list_upda.Prelude.Table.{Table, find, put, remove}

abbrev pub max_history : ℕ
max_history = 100

abbrev pub max_server_stats : ℕ
max_server_stats = 600

-- One entry of the switch history; `F` is float64, and scores are as `round` leaves them.
pub record SwitchRecord (F : Type 0) : Type 0 where
  pub at : ℕ
  pub from : String
  pub to : String
  pub reason : String
  pub score_before : F
  pub score_after : F
  pub load_before : ℕ
  pub load_after : ℕ
  pub rtt_after_ms : ℕ
  pub country : String
  pub city : String
  pub succeeded : Bool
  pub error : String
  pub public_ip : String

pub record ServerStats : Type 0 where
  pub load_last : ℕ
  pub load_lowest : ℕ
  pub load_highest : ℕ
  pub rtt_last_ms : ℕ
  pub rtt_lowest_ms : ℕ
  pub rtt_highest_ms : ℕ
  pub downloaded_bytes : ℕ
  pub uploaded_bytes : ℕ
  pub max_download_rate : ℕ
  pub max_upload_rate : ℕ
  pub samples : ℕ
  pub transfer_readings : ℕ
  pub visits : ℕ
  pub first_seen_unix : ℕ
  pub last_seen_unix : ℕ
  pub last_transfer_unix : ℕ

-- what reading a missing key of the map gives
abbrev pub zero_stats : ServerStats
zero_stats = record {
  load_last = 0;
  load_lowest = 0;
  load_highest = 0;
  rtt_last_ms = 0;
  rtt_lowest_ms = 0;
  rtt_highest_ms = 0;
  downloaded_bytes = 0;
  uploaded_bytes = 0;
  max_download_rate = 0;
  max_upload_rate = 0;
  samples = 0;
  transfer_readings = 0;
  visits = 0;
  first_seen_unix = 0;
  last_seen_unix = 0;
  last_transfer_unix = 0;
}

abbrev pub unix : ℕ → ℕ
unix t = t / 1000000000

unfoldable pub observe_load : ServerStats → ℕ → ℕ → ServerStats
observe_load s load at = record s {
  load_last = load;
  load_lowest = if s.load_lowest == 0 || ltb load s.load_lowest then load else s.load_lowest;
  load_highest = if ltb s.load_highest load then load else s.load_highest;
  samples = suc s.samples;
  first_seen_unix = if s.first_seen_unix == 0 then unix at else s.first_seen_unix;
  last_seen_unix = unix at;
}

unfoldable pub observe_rtt : ServerStats → ℕ → ServerStats
observe_rtt s milliseconds = if milliseconds == 0 then s else record s {
  rtt_last_ms = milliseconds;
  rtt_lowest_ms =
      if s.rtt_lowest_ms == 0 || ltb milliseconds s.rtt_lowest_ms
      then milliseconds
      else s.rtt_lowest_ms;
  rtt_highest_ms = if ltb s.rtt_highest_ms milliseconds then milliseconds else s.rtt_highest_ms;
}

unfoldable pub is_measured : ServerStats → Bool
is_measured s =
    ltb 0 s.samples
    || ltb 0 s.transfer_readings
    || ltb 0 s.downloaded_bytes
    || ltb 0 s.uploaded_bytes

abbrev pub StatsTable : Type 0
StatsTable = Table String ServerStats

pub record PersistedState (F : Type 0) : Type 0 where
  pub pinned_hostname : String
  pub last_switch_at : ℕ
  pub auto_switch : Option Bool
  pub account_tier : Option ℕ
  pub account_plan : String
  pub gluetun_had_server_data : Bool
  pub history : List (SwitchRecord F)
  pub measuring_host : String
  pub stats : StatsTable

-- The loop of `pruneStats` that finds the least recently seen record, in the map's order.
unfoldable pub oldest_from : String → ℕ → StatsTable → String × ℕ
oldest_from host oldest [] = (host, oldest)
oldest_from host oldest ((h, r) ∷ rest) =
    let older = str_eq host "" || ltb r.last_seen_unix oldest in
    oldest_from (if older then h else host) (if older then r.last_seen_unix else oldest) rest

-- `pruneStats`, a round of the loop for each unit of fuel; each round deletes a record.
unfoldable pub prune_rounds : ℕ → StatsTable → StatsTable
unfolding oldest_from
prune_rounds zero stats = stats
prune_rounds (suc fuel) stats =
    let rest = prune_rounds fuel (remove (oldest_from "" 0 stats).0 stats) in
    if ltb max_server_stats (length stats) then rest else stats

unfoldable pub prune_stats : StatsTable → StatsTable
unfolding prune_rounds
prune_stats stats = prune_rounds (length stats) stats

-- `stateStore`, with the content of its file.
pub record StateStore (F : Type 0) : Type 0 where
  pub state : PersistedState F
  pub dirty : Bool
  pub file : Option (PersistedState F)

module _ {F : Type 0} where
  unfoldable pub trim : PersistedState F → PersistedState F
  trim s = record s {
    history =
        if ltb max_history (length s.history)
        then drop (length s.history - max_history) s.history
        else s.history;
    stats = prune_stats s.stats;
  }

  unfoldable pub mutate : (PersistedState F → PersistedState F) → StateStore F → StateStore F
  unfolding trim
  mutate change s = record s { state = trim (change s.state); dirty = true }

  -- `writes` says whether the file could be replaced; the result whether the call succeeded.
  unfoldable pub update :
      (PersistedState F → PersistedState F) → Bool → StateStore F → StateStore F × Bool
  unfolding trim
  update change writes s =
      let changed = record s { state = trim (change s.state); dirty = false } in
      if writes
      then (record changed { file = some changed.state }, true)
      else (record changed { dirty = true }, false)

  -- the result says whether anything was written
  unfoldable pub flush : Bool → StateStore F → StateStore F × Bool
  flush writes s =
      if not s.dirty
      then (s, false)
      else if writes
      then (record s { dirty = false; file = some s.state }, true)
      else (record s { dirty = true }, false)

  -- `load`, given the content of the file; an error of the read changes nothing
  unfoldable pub load : StateStore F → StateStore F
  load s = elim s.file [ none ↦ s | some state ↦ record s { state = state } ]

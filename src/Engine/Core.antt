-- ===== src/Engine/Core.antt =====
-- The part of `Engine`, of its configuration and of its published snapshot that the modelled
-- operations read and write. Times and durations are nanoseconds, 0 is the zero `time.Time`, and
-- the configuration admits no negative duration.
use gluetun_proton_list_upda.Prelude.{ℕ, String, Bool, List, Option}
use gluetun_proton_list_upda.Proton.{ServerLoad}
use gluetun_proton_list_upda.Catalog.{Candidate, Requirements, Options, Stats}
use gluetun_proton_list_upda.Latency.{History}
use gluetun_proton_list_upda.Scoring.{Scored, Weights}
use gluetun_proton_list_upda.Engine.State.{StateStore}

abbrev pub status_running : String
status_running = "running"

abbrev pub status_crashed : String
status_crashed = "crashed"

abbrev pub status_starting : String
status_starting = "starting"

abbrev pub status_stopping : String
status_stopping = "stopping"

abbrev pub reconnect_settings : String
reconnect_settings = "settings"

abbrev pub reconnect_status : String
reconnect_status = "status"

abbrev pub reconnect_none : String
reconnect_none = "none"

-- `cfg.Switch`, `cfg.QBittorrent`, `cfg.Gluetun`, `cfg.Score`, and as `Options` what `cfg.Filter` and
-- `cfg.Servers` say of the catalog; `load_trigger` and `candidates` are ints, and a
-- value that is not positive is given as 0.
pub record Config (F : Type 0) : Type 0 where
  pub auto : Bool
  pub mode : String
  pub candidates : ℕ
  pub min_improvement : F
  pub cooldown : ℕ
  pub min_interval : ℕ
  pub load_trigger : ℕ
  pub verify_timeout : ℕ
  pub qbittorrent : Bool
  pub poll_interval : ℕ
  pub busy_download : ℕ
  pub busy_upload : ℕ
  pub busy_window : ℕ
  pub max_defer : ℕ
  pub refresh_servers_on_reject : Bool
  pub filter : Options
  pub only_allowed_countries : Bool
  pub score : Weights F

-- `rateReading`: rates in bits per second, counters in bytes.
pub record Reading : Type 0 where
  pub download : ℕ
  pub upload : ℕ
  pub downloaded_bytes : ℕ
  pub uploaded_bytes : ℕ

-- `transferSample`
pub record Sample : Type 0 where
  pub at : ℕ
  pub download : ℕ
  pub upload : ℕ

-- The engine's fields on transfers.
pub record Transfer : Type 0 where
  pub reading : Reading
  pub samples : List Sample
  pub checked_at : ℕ
  pub busy_since : ℕ
  pub reachable : Bool
  pub err : String
  pub source : String
  pub grace_expired : Bool
  pub baseline_host : String
  pub baseline_down : ℕ
  pub baseline_up : ℕ
  pub throughput_host : String

-- `snapshot.Gluetun`, with the hostnames of its server selection.
pub record GluetunStatus : Type 0 where
  pub reachable : Bool
  pub status : String
  pub provider_mismatch : Bool
  pub settings_readable : Bool
  pub exit_ip : String
  pub hostnames : List String

-- `snapshot.Selection`
pub record Selection : Type 0 where
  pub explanation : String
  pub last_error : String
  pub needs_gluetun_restart : Bool

pub record Engine (F : Type 0) : Type 0 where
  pub cfg : Config F
  pub store : StateStore F
  pub started_at : ℕ
  pub candidates : List (Candidate F)
  pub file_candidates : List (Candidate F)
  pub blocked : List (Candidate F)
  pub ranked : List (Scored F)
  pub stats : Stats
  pub latest_loads : List (ServerLoad F)
  pub probes : History
  pub requirements : Requirements
  pub port_forward_reason : String
  pub inference_abandoned : Bool
  pub vpn_type : String
  pub account_tier : Option ℕ
  -- the learned set, empty when nothing is learned
  pub known_hosts : List String
  pub transfer : Transfer
  pub gluetun : GluetunStatus
  pub selection : Selection

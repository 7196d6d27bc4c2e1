-- ===== src/Engine/Program.antt =====
-- internal/engine: the whole state that the run loop owns, the answers that one round of it gets, and
-- the write of the servers file.
use gluetun_proton_list_upda.Prelude.{
  ℕ, String, Bool, List, Option, none, some, str_eq, if◌then◌else◌, length, ◌==◌,
}
use gluetun_proton_list_upda.Platform.{Platform}
use gluetun_proton_list_upda.Proton.{LogicalServer, ServerLoad}
use gluetun_proton_list_upda.Catalog.Render.{to_gluetun_servers}
use gluetun_proton_list_upda.Serversfile.{Layout, Paths, FileSystem, detect_layout}
use gluetun_proton_list_upda.Serversfile.Write.{WriteOptions, WriteResult, Written, done, write}
use gluetun_proton_list_upda.Engine.Core.{Engine}
use gluetun_proton_list_upda.Engine.Decide.{Reason}
use gluetun_proton_list_upda.Engine.Remote.{Remote}
use gluetun_proton_list_upda.Engine.Sets.{has_none, servers_for_file}

abbrev pub write_mode_none : String
write_mode_none = "none"

abbrev pub write_mode_update : String
write_mode_update = "update"

-- `cfg.Servers`, `cfg.Latency` and `cfg.Proton.CacheMaxAge`; a `schema_version` of 0 is to be detected.
pub record Settings (F : Type 0) : Type 0 where
  pub write_mode : String
  pub preferred : Bool
  pub schema_version : ℕ
  pub paths : Paths
  pub latency_enabled : Bool
  pub latency_top_n : ℕ
  pub smoothing : F
  pub cache_max_age : ℕ

-- `cachedLogicals`
pub record CachedLogicals (F : Type 0) : Type 0 where
  pub fetched_at : ℕ
  pub last_modified : String
  pub servers : List (LogicalServer F)

-- `logicalsCache.load`: a list without servers counts as none
abbrev pub loaded_logicals : {F : Type 0} → Option (CachedLogicals F) → Option (CachedLogicals F)
loaded_logicals none = none
loaded_logicals (some c) = if length c.servers == 0 then none else some c

-- `cachedLoads`
pub record CachedLoads (F : Type 0) : Type 0 where
  pub updated_at : ℕ
  pub loads : List (ServerLoad F)

-- `loadsCache.load`
abbrev pub loaded_loads : {F : Type 0} → Option (CachedLoads F) → Option (CachedLoads F)
loaded_loads none = none
loaded_loads (some c) = if length c.loads == 0 then none else some c

pub data FetchError : Type 0 where
  totp_required : FetchError
  invalid_credentials : FetchError
  not_fetched : FetchError

-- `snapshot.Proton`, as far as the tasks set it
pub record ProtonStatus : Type 0 where
  pub last_fetch : ℕ
  pub last_fetch_error : Option FetchError
  pub list_last_modified : String
  pub logicals_count : ℕ
  pub from_cache : Bool
  pub needs_totp : Bool
  pub last_load_refresh : ℕ
  pub load_failed : Bool
  pub cache_stale : Bool
  pub account_plan : String
  pub account_free : Bool
  pub max_connections : ℕ
  pub delinquent : Bool

-- `snapshot.Servers`
pub record ServersStatus : Type 0 where
  pub last_write : ℕ
  pub server_count : ℕ
  pub schema_version : ℕ
  pub preserved_keys : List String
  pub layout : Option Layout
  pub paths : List String
  pub preferred : Bool
  pub last_error : Option Written
  pub ignored : Bool

-- `files` is the volume shared with Gluetun; the two caches are files of the state directory.
pub record Program (F : Type 0) : Type 0 where
  pub engine : Engine F
  pub settings : Settings F
  pub files : FileSystem
  pub schema_version : ℕ
  pub layout : Option Layout
  pub wrote_server_data : Bool
  pub cached : Option (CachedLogicals F)
  pub cached_loads : Option (CachedLoads F)
  pub proton : ProtonStatus
  pub servers : ServersStatus

-- What one round of the loop meets: its time, Gluetun's answers to a switch, which files can be
-- replaced, whether the state directory can be written, and the texts of the reasons.
pub record World (F : Type 0) : Type 0 where
  pub now : ℕ
  pub remote : Remote F
  pub can : String → Bool
  pub saves : Bool
  pub describe : Reason → String

abbrev pub note_written : WriteResult → ServersStatus → ServersStatus
note_written r s = record s {
  last_write = r.timestamp;
  server_count = r.server_count;
  schema_version = r.schema_version;
  preserved_keys = r.preserved_keys;
  layout = some r.layout;
  paths = r.written;
  preferred = r.preferred;
  last_error = none;
}

abbrev pub note_outcome : Written → ServersStatus → ServersStatus
note_outcome (done r) s = note_written r s
note_outcome why s = record s { last_error = some why }

module _ {F : Type 0} where
  abbrev pub options_for_write : World F → Program F → Layout → WriteOptions
  options_for_write w q layout = record {
    paths = q.settings.paths;
    layout = some layout;
    schema_version = q.schema_version;
    preferred = q.settings.preferred;
    preserve_other_providers = str_eq q.settings.write_mode write_mode_update;
    now = w.now;
  }

  -- `writeServersFile`
  unfoldable pub write_servers_file : Platform → World F → Program F → Program F
  unfolding servers_for_file to_gluetun_servers detect_layout write
  write_servers_file p w q =
      let layout = detect_layout p q.files q.settings.paths in
      let (files, outcome) =
        write p w.can q.files (to_gluetun_servers (servers_for_file q.engine))
          (options_for_write w q layout) in
      if str_eq q.settings.write_mode write_mode_none
      then q
      else if has_none q.engine.candidates
      then q
      else record q {
        layout = some layout;
        files = files;
        servers = note_outcome outcome q.servers;
      }

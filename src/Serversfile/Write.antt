-- ===== src/Serversfile/Write.antt =====
-- internal/serversfile/serversfile.go, `Write`: the order of the servers, and the write of the two
-- layouts.
use gluetun_proton_list_upda.Prelude.{
  ℕ, ◌/◌, String, Bool, true, not, List, [], ◌∷◌, ◌++◌, Option, none, some, ◌==◌, str_eq, string_eq,
  if◌then◌else◌, length, keep, map,
}
use gluetun_proton_list_upda.Prelude.Sort.{sort_stable}
use gluetun_proton_list_upda.Prelude.Table.{Table, put}
use gluetun_proton_list_upda.Prelude.Text.{str_ltb}
use gluetun_proton_list_upda.Platform.{Platform}
use gluetun_proton_list_upda.Serversfile.{
  provider, top_level_schema_version, Layout, directory, legacy, both, Server, ProviderServers,
  Json, number, flag, entries, section, File, object, FileSystem, Paths, are_valid, provider_path,
  detect_layout, read_raw_file, is_foreign,
}

-- the comparison of `sortServers`
unfoldable pub server_less : Server → Server → Bool
server_less a b =
    if not (str_eq a.country b.country)
    then str_ltb a.country b.country
    else if not (str_eq a.city b.city)
    then str_ltb a.city b.city
    else if not (str_eq a.server_name b.server_name)
    then str_ltb a.server_name b.server_name
    else if not (str_eq a.hostname b.hostname)
    then str_ltb a.hostname b.hostname
    else str_ltb a.vpn b.vpn

unfoldable pub sort_servers : List Server → List Server
sort_servers servers = sort_stable server_less servers

pub record WriteOptions : Type 0 where
  pub paths : Paths
  pub layout : Option Layout
  pub schema_version : ℕ
  pub preferred : Bool
  pub preserve_other_providers : Bool
  pub now : ℕ

pub record WriteResult : Type 0 where
  pub written : List String
  pub layout : Layout
  pub server_count : ℕ
  pub schema_version : ℕ
  pub preferred : Bool
  pub timestamp : ℕ
  pub preserved_keys : List String

pub data Written : Type 0 where
  no_servers : Written
  no_schema_version : Written
  bad_path : Written
  not_read : Written
  not_written : Written
  done : WriteResult → Written

-- a per-provider file, with `preferred` left out where it is false
abbrev pub section_fields : ProviderServers → Table String Json
section_fields s =
    ("version", number s.version)
    ∷ ("timestamp", number s.timestamp)
    ∷ (if s.preferred
        then ("preferred", flag true) ∷ ("servers", entries s.servers) ∷ []
        else ("servers", entries s.servers) ∷ [])

abbrev pub foreign_fields : Table String Json → Table String Json
foreign_fields fields = keep (λ (f : String × Json). is_foreign f.0) fields

abbrev pub keys_of : Table String Json → List String
keys_of fields = map (λ (f : String × Json). f.0) fields

-- `atomicfile.Write`; `can` says which files can be replaced
unfoldable pub replace_file : (String → Bool) → FileSystem → String → File → Option FileSystem
replace_file can fs path file = if can path then some (put path file fs) else none

unfoldable pub kept_fields : Bool → FileSystem → String → Option (Table String Json)
unfolding read_raw_file
kept_fields preserve fs path =
    if preserve
    then elim (read_raw_file fs path) [ none ↦ none | some fields ↦ some (foreign_fields fields) ]
    else some []

-- The files after `writeLegacy` with the preserved keys, or why it failed.
pub data Legacy : Type 0 where
  replaced : FileSystem → List String → Legacy
  refused : Written → Legacy

unfoldable pub write_legacy :
    (String → Bool) → FileSystem → String → ProviderServers → Bool → Legacy
unfolding kept_fields replace_file
write_legacy can fs path s preserve = elim (kept_fields preserve fs path) [
  | none ↦ refused not_read
  | some others ↦
      elim (replace_file can fs path
        (object ((provider, section s) ∷ ("version", number top_level_schema_version) ∷ others))) [
          | none ↦ refused not_written
          | some fs' ↦ replaced fs' (sort_stable str_ltb (keys_of others))
        ]
]

abbrev pub layout_of : Platform → FileSystem → WriteOptions → Layout
layout_of p fs o = elim o.layout [ none ↦ detect_layout p fs o.paths | some layout ↦ layout ]

abbrev pub section_of : List Server → WriteOptions → ProviderServers
section_of servers o = record {
  version = o.schema_version;
  timestamp = o.now / 1000000000;
  preferred = o.preferred;
  servers = sort_servers servers;
}

abbrev pub result_of : Layout → List Server → WriteOptions → List String → List String → WriteResult
result_of layout servers o written preserved = record {
  written = written;
  layout = layout;
  server_count = length servers;
  schema_version = o.schema_version;
  preferred = o.preferred;
  timestamp = o.now;
  preserved_keys = preserved;
}

-- The legacy half of `Write`, after the files that are written already.
unfoldable pub write_fat :
    (String → Bool)
    → FileSystem
    → Layout
    → List Server
    → WriteOptions
    → List String
    → FileSystem × Written
unfolding write_legacy sort_servers
write_fat can fs layout servers o before =
    elim (write_legacy can fs o.paths.legacy_file (section_of servers o)
      o.preserve_other_providers) [
        | refused why ↦ (fs, why)
        | replaced fs' preserved ↦
            (fs', done (result_of layout servers o (before ++ o.paths.legacy_file ∷ []) preserved))
      ]

-- The two halves for a layout: the directory's file is replaced first.
unfoldable pub write_layout :
    Platform
    → (String → Bool)
    → FileSystem
    → Layout
    → List Server
    → WriteOptions
    → FileSystem × Written
unfolding write_fat replace_file sort_servers
write_layout p can fs legacy servers o = write_fat can fs legacy servers o []
write_layout p can fs directory servers o =
    let path = provider_path p o.paths in
    elim (replace_file can fs path (object (section_fields (section_of servers o)))) [
      | none ↦ (fs, not_written)
      | some fs' ↦ (fs', done (result_of directory servers o (path ∷ []) []))
    ]
write_layout p can fs both servers o =
    let path = provider_path p o.paths in
    elim (replace_file can fs path (object (section_fields (section_of servers o)))) [
      | none ↦ (fs, not_written)
      | some fs' ↦ write_fat can fs' both servers o (path ∷ [])
    ]

-- `Write`
unfoldable pub write :
    Platform → (String → Bool) → FileSystem → List Server → WriteOptions → FileSystem × Written
unfolding are_valid detect_layout write_layout
write p can fs servers o =
    if length servers == 0
    then (fs, no_servers)
    else if o.schema_version == 0
    then (fs, no_schema_version)
    else if not (are_valid p o.paths)
    then (fs, bad_path)
    else write_layout p can fs (layout_of p fs o) servers o

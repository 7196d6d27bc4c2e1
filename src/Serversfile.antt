-- ===== src/Serversfile.antt =====
-- internal/serversfile/serversfile.go: the server data that Gluetun reads. A file holds the JSON
-- object that its text stands for; what only Gluetun writes into it stays a raw text.
pub mod Write
pub mod Sorted
pub mod Disk
pub mod Promises
pub mod Foreign
pub mod Preserve
use gluetun_proton_list_upda.Prelude.{
  ℕ, ◌/◌, String, Bool, true, false, not, ◌&&◌, ◌||◌, List, [], ◌∷◌, ◌++◌, Option, none, some, ltb,
  ◌==◌, str_eq, string_eq, is_some, if◌then◌else◌, length, keep, map,
}
use gluetun_proton_list_upda.Prelude.Addr.{Addr}
use gluetun_proton_list_upda.Prelude.Sort.{sort_stable}
use gluetun_proton_list_upda.Prelude.Table.{Table, find, put}
use gluetun_proton_list_upda.Prelude.Text.{str_ltb}
use gluetun_proton_list_upda.Platform.{Platform}

abbrev pub provider : String
provider = "protonvpn"

abbrev pub manifest_filename : String
manifest_filename = "manifest.json"

abbrev pub top_level_schema_version : ℕ
top_level_schema_version = 1

pub data Layout : Type 0 where
  directory : Layout
  legacy : Layout
  both : Layout

pub record Server : Type 0 where
  pub vpn : String
  pub country : String
  pub region : String
  pub city : String
  pub server_name : String
  pub hostname : String
  pub tcp : Bool
  pub udp : Bool
  pub wg_pub_key : String
  pub free : Bool
  pub stream : Bool
  pub secure_core : Bool
  pub tor : Bool
  pub port_forward : Bool
  pub ips : List Addr

pub record ProviderServers : Type 0 where
  pub version : ℕ
  pub timestamp : ℕ
  pub preferred : Bool
  pub servers : List Server

pub data Json : Type 0 where
  number : ℕ → Json
  flag : Bool → Json
  entries : List Server → Json
  section : ProviderServers → Json
  raw : String → Json

-- `broken` is a text that decodes to no object, and `null` the JSON value that decodes to an empty one.
pub data File : Type 0 where
  folder : File
  empty : File
  broken : File
  null : File
  object : Table String Json → File

abbrev pub FileSystem : Type 0
FileSystem = Table String File

pub record Paths : Type 0 where
  pub directory_path : String
  pub legacy_file : String

-- `validate`
unfoldable pub are_valid : Platform → Paths → Bool
are_valid p paths =
    not (not (str_eq paths.directory_path "") && not (p.is_abs paths.directory_path))
    && not (not (str_eq paths.legacy_file "") && not (p.is_abs paths.legacy_file))
    && not (str_eq paths.directory_path "" && str_eq paths.legacy_file "")

abbrev pub manifest_path : Platform → Paths → String
manifest_path p paths = p.join paths.directory_path manifest_filename

abbrev pub provider_path : Platform → Paths → String
provider_path p paths = p.join paths.directory_path "protonvpn.json"

abbrev pub is_file : Option File → Bool
is_file none = false
is_file (some folder) = false
is_file (some _) = true

unfoldable pub file_exists : FileSystem → String → Bool
file_exists fs path = is_file (find path fs)

unfoldable pub detect_layout : Platform → FileSystem → Paths → Layout
unfolding file_exists
detect_layout p fs paths =
    let has_manifest =
      not (str_eq paths.directory_path "") && file_exists fs (manifest_path p paths) in
    let has_legacy = not (str_eq paths.legacy_file "") && file_exists fs paths.legacy_file in
    if has_manifest && has_legacy
    then both
    else if has_manifest
    then directory
    else if has_legacy
    then legacy
    else both

-- the keys of a file; `none` is an error
abbrev pub fields_of : Option File → Option (Table String Json)
fields_of none = some []
fields_of (some folder) = none
fields_of (some empty) = some []
fields_of (some broken) = none
fields_of (some null) = some []
fields_of (some (object fields)) = some fields

unfoldable pub read_raw_file : FileSystem → String → Option (Table String Json)
read_raw_file fs path = fields_of (find path fs)

-- a key that this tool does not write
abbrev pub is_foreign : String → Bool
is_foreign name = not (str_eq name "version") && not (str_eq name provider)

unfoldable pub has_foreign : Table String Json → Bool
has_foreign [] = false
has_foreign ((name, v) ∷ rest) = is_foreign name || has_foreign rest

-- a file that cannot be read is not taken for Gluetun's
abbrev pub foreign_in : Option (Table String Json) → Bool
unfolding has_foreign
foreign_in none = false
foreign_in (some fields) = has_foreign fields

unfoldable pub has_gluetun_data : Platform → FileSystem → Paths → Bool
unfolding file_exists read_raw_file
has_gluetun_data p fs paths =
    if not (str_eq paths.directory_path "") && file_exists fs (manifest_path p paths)
    then true
    else if str_eq paths.legacy_file ""
    then false
    else foreign_in (read_raw_file fs paths.legacy_file)

-- What an object decodes to as a struct with a uint16 `version`; `none` is an error.
abbrev pub as_version : Option Json → Option ℕ
as_version none = some 0
as_version (some (number n)) = if ltb n 65536 then some n else none
as_version (some _) = none

abbrev pub section_version : Platform → Json → Option ℕ
section_version p (section s) = some s.version
section_version p (raw text) = p.raw_version text
section_version p _ = none

pub data Detected : Type 0 where
  decode_error : Detected
  undetected : Detected
  detected : ℕ → Detected

abbrev pub found_version : Option ℕ → Detected
found_version none = decode_error
found_version (some n) = if n == 0 then undetected else detected n

abbrev pub version_in_object : Option File → Detected
version_in_object none = undetected
version_in_object (some folder) = decode_error
version_in_object (some empty) = undetected
version_in_object (some broken) = decode_error
version_in_object (some null) = undetected
version_in_object (some (object fields)) = found_version (as_version (find "version" fields))

unfoldable pub provider_file_version : FileSystem → String → Detected
provider_file_version fs path = version_in_object (find path fs)

unfoldable pub legacy_file_version : Platform → FileSystem → String → Detected
unfolding read_raw_file
legacy_file_version p fs path = elim (read_raw_file fs path) [
  | none ↦ decode_error
  | some fields ↦ elim (find provider fields) [
    | none ↦ undetected
    | some j ↦ found_version (section_version p j)
  ]
]

-- `DetectSchemaVersion`: the version, without the path that it was read from.
unfoldable pub detect_schema_version : Platform → FileSystem → Paths → Detected
unfolding provider_file_version legacy_file_version
detect_schema_version p fs paths =
    let from_legacy =
      if str_eq paths.legacy_file ""
      then undetected
      else legacy_file_version p fs paths.legacy_file in
    if str_eq paths.directory_path ""
    then from_legacy
    else elim (provider_file_version fs (provider_path p paths)) [
      | decode_error ↦ decode_error
      | undetected ↦ from_legacy
      | detected n ↦ detected n
    ]

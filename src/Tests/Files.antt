-- ===== src/Tests/Files.antt =====
-- The servers file and the explanations at concrete disks and lists.
use gluetun_proton_list_upda.Prelude.{
  ℕ, ◌≡◌, ◌≢◌, refl, true, false, List, [], ◌∷◌, none, str_eq_iff, string_eq, arith,
}
use gluetun_proton_list_upda.Prelude.Sort.{sort_stable, insert}
use gluetun_proton_list_upda.Prelude.Table.{find, put}
use gluetun_proton_list_upda.Prelude.Text.{str_ltb}
use gluetun_proton_list_upda.Catalog.{Candidate}
use gluetun_proton_list_upda.Catalog.Render.{to_gluetun_servers}
use gluetun_proton_list_upda.Serversfile.{
  both, Server, raw, number, object, FileSystem, Paths, are_valid, file_exists, detect_layout,
  read_raw_file, provider_path, detect_schema_version, detected,
}
use gluetun_proton_list_upda.Serversfile.Write.{
  server_less, sort_servers, WriteOptions, WriteResult, done, replace_file, kept_fields,
  write_legacy, write_fat, write_layout, write,
}
use gluetun_proton_list_upda.Serversfile.Promises.{write_detected, find-put_ne}
use gluetun_proton_list_upda.Serversfile.Preserve.{IsPreserved, write-IsPreserved, write_failed}
use gluetun_proton_list_upda.Tests.Samples.{plain, candidate}

abbrev two_candidates : List (Candidate ℕ)
two_candidates =
    candidate "se-2.example" 2 40 ∷ record (candidate "se-1.example" 1 10) { wg_pub_key = "" } ∷ []

abbrev three_servers : List Server
unfolding to_gluetun_servers
three_servers = to_gluetun_servers two_candidates

-- A disk on which a Gluetun has been with both layouts.
abbrev pub used_disk : FileSystem
used_disk =
    ("manifest.json", object [])
    ∷ ("servers.json", object (("nordvpn", raw "{}") ∷ ("version", number 1) ∷ []))
    ∷ []

abbrev pub sample_paths : Paths
sample_paths = record { directory_path = "/gluetun/servers/"; legacy_file = "servers.json" }

abbrev write_options : WriteOptions
write_options = record {
  paths = sample_paths;
  layout = none;
  schema_version = 4;
  preferred = true;
  preserve_other_providers = true;
  now = 5000000000;
}

abbrev all_written : WriteResult
all_written = record {
  written = "protonvpn.json" ∷ "servers.json" ∷ [];
  layout = both;
  server_count = 3;
  schema_version = 4;
  preferred = true;
  timestamp = 5000000000;
  preserved_keys = "nordvpn" ∷ [];
}

abbrev disk_after : FileSystem
disk_after = (write plain (λ _. true) used_disk three_servers write_options).0

write_done :
    write plain (λ _. true) used_disk three_servers write_options ≡ (disk_after, done all_written)
unfolding to_gluetun_servers write are_valid detect_layout file_exists find put write_layout
    write_fat write_legacy kept_fields read_raw_file replace_file sort_servers server_less str_ltb
    sort_stable insert
write_done = refl

pub provider_not_legacy : provider_path plain sample_paths ≢ "servers.json"
provider_not_legacy e = ground (arith, str_eq_iff "protonvpn.json" "servers.json")

legacy_not_provider : "servers.json" ≢ provider_path plain sample_paths
legacy_not_provider e = ground (arith, str_eq_iff "servers.json" "protonvpn.json")

-- With the legacy file gone afterwards.
write_detected_example :
    detect_schema_version plain (put "servers.json" (object []) disk_after) sample_paths
    ≡ detected 4
write_detected_example =
    write_detected plain (λ _. true) used_disk three_servers write_options disk_after
      (put "servers.json" (object []) disk_after) all_written write_done (λ e. cc) (omega arith)
      (λ e. ground (arith, str_eq_iff "/gluetun/servers/" "")) legacy_not_provider
      (find-put_ne "servers.json" "protonvpn.json" (object []) disk_after legacy_not_provider)

write-IsPreserved_example :
    IsPreserved used_disk disk_after "servers.json" three_servers write_options
write-IsPreserved_example =
    write-IsPreserved plain (λ _. true) used_disk three_servers write_options disk_after all_written
      write_done (λ e. cc) refl provider_not_legacy

-- No file can be replaced.
write_failed_example :
    find "servers.json" (write plain (λ _. false) used_disk three_servers write_options).0
    ≡ find "servers.json" used_disk
unfolding to_gluetun_servers write are_valid detect_layout file_exists find put write_layout
    write_fat write_legacy kept_fields read_raw_file replace_file sort_servers server_less str_ltb
    sort_stable insert
write_failed_example =
    write_failed plain (λ _. false) used_disk three_servers write_options "servers.json" tt
      provider_not_legacy

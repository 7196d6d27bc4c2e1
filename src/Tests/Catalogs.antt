-- ===== src/Tests/Catalogs.antt =====
-- The catalog and the latency history at concrete lists.
use gluetun_proton_list_upda.Prelude.{
  ℕ, ◌≡◌, refl, String, List, [], ◌∷◌, some, All, Memᴰ, length, get_elem?, map, keep, is_some,
}
use gluetun_proton_list_upda.Prelude.Table.{find, put}
use gluetun_proton_list_upda.Countries.{name, code_to_name}
use gluetun_proton_list_upda.Proton.{
  ServerLoad, enabled, machine_enabled, free, secure_core, tor, p2p, streaming, ipv6,
}
use gluetun_proton_list_upda.Catalog.{
  Candidate, features_allowed, feature_allowed, satisfied, unmet, above_tier, country_refused,
  city_refused, resolve_country, deref, contains, is_empty, secure_core_exit, to_lower_set,
  machine_has_ipv6,
}
use gluetun_proton_list_upda.Catalog.Build.{
  build, build_all, build_logical, count_logical, build_located, build_machines, place,
  replace_if_quieter, connectable, to_candidate,
}
use gluetun_proton_list_upda.Catalog.Build.Eligible.{
  eligible, admitted, candidates_of, usable, nothing, offer_all, build-eligible,
}
use gluetun_proton_list_upda.Catalog.Build.Kept.{Covered, build_complete, build_unique}
use gluetun_proton_list_upda.Catalog.Build.Respects.{Respects, build-Respects}
use gluetun_proton_list_upda.Catalog.Loads.{
  apply_loads, refreshed, switched_off, latest, apply_loads-latest,
}
use gluetun_proton_list_upda.Tests.Samples.{plain, sample_list, open_options, candidate}

abbrev built_hosts : List (Candidate ℕ) → List String
built_hosts [] = []
built_hosts (c ∷ cs) = c.hostname ∷ built_hosts cs

-- The quieter server takes the place of the machine that it shares.
quieter_replaces :
    built_hosts (build plain open_options sample_list).0 ≡ "se-3.example" ∷ "se-2.example" ∷ []
unfolding build build_all build_logical count_logical build_located build_machines place
    replace_if_quieter enabled features_allowed feature_allowed satisfied unmet above_tier
    country_refused city_refused machine_enabled connectable to_candidate resolve_country deref free
    secure_core tor p2p streaming ipv6 name find code_to_name contains is_empty secure_core_exit
    to_lower_set put machine_has_ipv6
quieter_replaces = refl

build-eligible_example :
    ((build plain open_options sample_list).0
      ≡ (offer_all nothing (eligible plain open_options sample_list)).candidates)
    × ((build plain open_options sample_list).1.duplicate_skipped
        ≡ (offer_all nothing (eligible plain open_options sample_list)).duplicates)
    × ((build plain open_options sample_list).1.physical_kept
        ≡ length (build plain open_options sample_list).0)
build-eligible_example = build-eligible plain open_options sample_list

abbrev busy_machine : Candidate ℕ
busy_machine = candidate "se-1.example" 1 40

busy_machine_eligible :
    Memᴰ
      (record busy_machine { server_name = "SE#1"; logical_id = "SE#1" })
      (eligible plain open_options sample_list)
unfolding eligible admitted enabled features_allowed feature_allowed satisfied unmet above_tier
    country_refused city_refused candidates_of usable machine_enabled connectable to_candidate
    resolve_country deref free secure_core tor p2p streaming ipv6 name find code_to_name contains
    is_empty secure_core_exit to_lower_set put machine_has_ipv6
busy_machine_eligible = Memᴰ.head refl

build_complete_example :
    Covered
      (record busy_machine { server_name = "SE#1"; logical_id = "SE#1" })
      (build plain open_options sample_list).0
build_complete_example =
    build_complete plain open_options sample_list
      (record busy_machine { server_name = "SE#1"; logical_id = "SE#1" }) busy_machine_eligible

abbrev quiet_machine : Candidate ℕ
quiet_machine = record (candidate "se-3.example" 1 10) { server_name = "SE#2"; logical_id = "SE#2" }

quiet_machine_first : get_elem? (build plain open_options sample_list).0 0 ≡ some quiet_machine
unfolding build build_all build_logical count_logical build_located build_machines place
    replace_if_quieter enabled features_allowed feature_allowed satisfied unmet above_tier
    country_refused city_refused machine_enabled connectable to_candidate resolve_country deref free
    secure_core tor p2p streaming ipv6 name find code_to_name contains is_empty secure_core_exit
    to_lower_set put machine_has_ipv6
quiet_machine_first = refl

abbrev first_place : ℕ
first_place = 0

build_unique_example : first_place ≡ first_place
build_unique_example =
    build_unique plain open_options sample_list first_place first_place quiet_machine quiet_machine
      quiet_machine_first quiet_machine_first refl refl refl

build-Respects_example : All (Respects plain open_options) (build plain open_options sample_list).0
build-Respects_example = build-Respects plain open_options sample_list

abbrev new_loads : List (ServerLoad ℕ)
new_loads =
    record { id = "se-1.example"; load = 70; score = 2; status = 1 }
    ∷ record { id = "se-1.example"; load = 75; score = 2; status = 0 }
    ∷ []

abbrev loaded : List (Candidate ℕ)
loaded = candidate "se-1.example" 1 40 ∷ candidate "se-2.example" 2 30 ∷ []

apply_loads-latest_example :
    ((apply_loads loaded new_loads).0 ≡ map (refreshed new_loads) loaded)
    × ((apply_loads loaded new_loads).1
        ≡ length (keep (λ c. is_some (latest c.logical_id new_loads)) loaded))
    × ((apply_loads loaded new_loads).2
        ≡ map (λ (c : Candidate ℕ). c.hostname) (keep (switched_off new_loads) loaded))
apply_loads-latest_example = apply_loads-latest loaded new_loads

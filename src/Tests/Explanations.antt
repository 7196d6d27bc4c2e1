-- ===== src/Tests/Explanations.antt =====
-- The explanations at concrete lists.
use gluetun_proton_list_upda.Prelude.{
  ℕ, ◌≡◌, ◌↔◌, refl, String, Bool, true, false, List, [], ◌∷◌, All, All-mem, Memᴰ, map,
}
use gluetun_proton_list_upda.Prelude.Table.{find, put}
use gluetun_proton_list_upda.Countries.{name, code_to_name}
use gluetun_proton_list_upda.Proton.{
  LogicalServer, enabled, machine_enabled, free, secure_core, tor, p2p, streaming, ipv6,
}
use gluetun_proton_list_upda.Catalog.{
  Candidate, features_allowed, feature_allowed, satisfied, unmet, above_tier, country_refused,
  city_refused, resolve_country, deref, contains, is_empty, secure_core_exit, to_lower_set,
  machine_has_ipv6,
}
use gluetun_proton_list_upda.Catalog.Build.{
  build, build_all, build_logical, count_logical, build_located, build_machines, place,
  replace_if_quieter, connectable, to_candidate,
}
use gluetun_proton_list_upda.Catalog.Build.Eligible.{admitted, usable}
use gluetun_proton_list_upda.Catalog.Explain.{
  Explanation, is_none, note_if, feature_reason, feature_reasons, logical_reasons, by_entry_ip,
  matches, judge_kept, explain_machine, explain_logical, explain_matching, explain,
}
use gluetun_proton_list_upda.Catalog.Explain.Rules.{is_none-logical_reasons}
use gluetun_proton_list_upda.Catalog.Explain.Verdicts.{
  IsAnswer, StandsFor, explain-IsAnswer, explain_machine_exact,
}
use gluetun_proton_list_upda.Tests.Samples.{plain, machine, logical, sample_list, open_options}

explain-IsAnswer_example : All IsAnswer (explain plain sample_list open_options "SE#2")
explain-IsAnswer_example = explain-IsAnswer plain open_options sample_list "SE#2"

abbrev noisy : LogicalServer ℕ
noisy = logical "SE#1" 40 (machine "se-1.example" 1 ∷ machine "se-2.example" 2 ∷ [])

is_none-logical_reasons_example :
    is_none (logical_reasons plain open_options noisy) ≡ admitted plain open_options noisy
is_none-logical_reasons_example = is_none-logical_reasons plain open_options noisy

none_secure :
    All (λ (c : Candidate ℕ). c.secure_core ≡ false) (build plain open_options sample_list).0
unfolding build build_all build_logical count_logical build_located build_machines place
    replace_if_quieter enabled features_allowed feature_allowed satisfied unmet above_tier
    country_refused city_refused machine_enabled connectable to_candidate resolve_country deref free
    secure_core tor p2p streaming ipv6 name find code_to_name contains is_empty secure_core_exit
    to_lower_set put machine_has_ipv6
none_secure = (refl, (refl, tt))

noisy-admitted : admitted plain open_options noisy ≡ true
unfolding admitted enabled features_allowed feature_allowed satisfied above_tier country_refused
    city_refused resolve_country deref free secure_core tor p2p streaming ipv6 name find
    code_to_name contains is_empty secure_core_exit to_lower_set put
noisy-admitted = refl

machine-usable : usable open_options (machine "se-1.example" 1) ≡ true
unfolding usable machine_enabled connectable
machine-usable = refl

explain_machine_exact_example :
    ((explain_machine open_options
        (by_entry_ip [] (build plain open_options sample_list).0)
        false
        noisy
        (machine "se-1.example" 1)).included
      ≡ true)
    ↔ ((c : Candidate ℕ) × Memᴰ c (build plain open_options sample_list).0
        × StandsFor plain open_options sample_list c noisy (machine "se-1.example" 1))
explain_machine_exact_example =
    explain_machine_exact plain open_options sample_list noisy (machine "se-1.example" 1)
      (Memᴰ.head refl) (Memᴰ.head refl) noisy-admitted machine-usable
      (λ c m. All-mem (λ (d : Candidate ℕ). d.secure_core ≡ false) _ none_secure m)

-- Two Secure Core servers through one entry address, both of which are candidates.
abbrev core_list : List (LogicalServer ℕ)
core_list =
    record (logical "CH-SE#1" 20 (machine "se-1.example" 1 ∷ [])) { features = 1 }
    ∷ record (logical "CH-SE#2" 10 (machine "se-2.example" 1 ∷ [])) { features = 1 }
    ∷ []

abbrev hosts_of : List (Candidate ℕ) → List String
hosts_of cs = map (λ (c : Candidate ℕ). c.hostname) cs

abbrev inclusions : List Explanation → List Bool
inclusions xs = map (λ (x : Explanation). x.included) xs

-- The first is a candidate and is reported as not included.
secure_core_misreported :
    (hosts_of (build plain open_options core_list).0 ≡ "se-1.example" ∷ "se-2.example" ∷ [])
    × (inclusions (explain plain core_list open_options "CH-SE#1") ≡ false ∷ [])
unfolding build build_all build_logical count_logical build_located build_machines place
    replace_if_quieter enabled features_allowed feature_allowed satisfied unmet above_tier
    country_refused city_refused machine_enabled connectable to_candidate resolve_country deref free
    secure_core tor p2p streaming ipv6 name find code_to_name contains is_empty secure_core_exit
    to_lower_set put machine_has_ipv6 note_if feature_reason feature_reasons logical_reasons
    by_entry_ip matches judge_kept explain_machine explain_logical explain_matching explain
secure_core_misreported = (refl, refl)

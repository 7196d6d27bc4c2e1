-- ===== src/Tests/Records.antt =====
-- The statistics of servers and the requirements at concrete readings and lists.
use gluetun_proton_list_upda.Prelude.{
  ℕ, ◌⊎◌, ◌+◌, ◌≤◌, ◌≡◌, ◌≢◌, refl, String, true, false, List, [], ◌∷◌, none, some, string_eq,
  str_eq, str_eq_iff, arith,
}
use gluetun_proton_list_upda.Proton.{LogicalServer}
use gluetun_proton_list_upda.Catalog.{no_requirements}
use gluetun_proton_list_upda.Catalog.Build.{build, build_all}
use gluetun_proton_list_upda.Engine.State.{zero_stats}
use gluetun_proton_list_upda.Engine.Core.{Engine, Reading, Transfer}
use gluetun_proton_list_upda.Engine.History.Credit.{
  Attributed, credited, climbs, final, credited_bounded, stay_telescopes,
}
use gluetun_proton_list_upda.Engine.Sets.{
  Enforced, is_inferred, catalog_options, abandon_inference, apply_logicals, update_requirements,
  settle_requirements, build_sets, rerank, build_blocked,
}
use gluetun_proton_list_upda.Engine.Sets.Inferred.{without_port_forward, inferred_never_empties}
use gluetun_proton_list_upda.Engine.Sets.Adopted.{Unmeetable, told_of, Keeps, requirements_kept}
use gluetun_proton_list_upda.Tests.Samples.{
  nat_float, plain, sample_list, no_transfer, sample_engine, sample_state,
}

abbrev counters : ℕ → ℕ → Reading
counters down up = record { download = 8; upload = 8; downloaded_bytes = down; uploaded_bytes = up }

abbrev mixed : List Attributed
mixed =
    (some "a", counters 10 1)
    ∷ (some "a", counters 30 2)
    ∷ (none, counters 40 3)
    ∷ (some "b", counters 50 4)
    ∷ (some "b", counters 55 9)
    ∷ []

apart : (s t : String) → str_eq s t ≡ false → s ≢ t
apart s t h = let i = str_eq_iff s t in ground arith

credited_bounded_example :
    ((credited mixed no_transfer).0
      ≤ climbs (λ r. r.downloaded_bytes) no_transfer.baseline_down mixed)
    × ((credited mixed no_transfer).1
        ≤ climbs (λ r. r.uploaded_bytes) no_transfer.baseline_up mixed)
credited_bounded_example =
    credited_bounded mixed no_transfer refl
      (apart "a" "" refl, (apart "a" "" refl, (tt, (apart "b" "" refl, (apart "b" "" refl, tt)))))

abbrev on_a : Transfer
on_a = record no_transfer { baseline_host = "a"; baseline_down = 5; baseline_up = 1 }

abbrev stay_on_a : List Attributed
stay_on_a = (some "a", counters 10 1) ∷ (some "a", counters 30 2) ∷ []

stay_telescopes_example :
    (on_a.baseline_down + (credited stay_on_a on_a).0
      ≡ final (λ r. r.downloaded_bytes) on_a.baseline_down stay_on_a)
    × (on_a.baseline_up + (credited stay_on_a on_a).1
        ≡ final (λ r. r.uploaded_bytes) on_a.baseline_up stay_on_a)
stay_telescopes_example =
    stay_telescopes "a" stay_on_a on_a refl
      (refl, omega arith, omega arith, (refl, omega arith, omega arith, tt))

abbrev kept_engine : Engine ℕ
kept_engine = record sample_engine {
  store = record sample_engine.store {
    state = record sample_state {
      stats = ("se-1.example", zero_stats) ∷ ("gone.example", zero_stats) ∷ [];
    };
  };
}

abbrev reported : Enforced
reported = record {
  port_forward = true;
  port_forwarding_requested = true;
  secure_core = false;
  tor = false;
  stream = false;
  free = false;
  premium = false;
}

abbrev strict_engine : Engine ℕ
strict_engine = record sample_engine { requirements = record no_requirements { tor = true } }

requirements_kept_example :
    Keeps strict_engine.requirements
      (update_requirements nat_float plain (some sample_list) reported strict_engine).requirements
      true
    × ((strict_engine.requirements.port_forward ≡ false)
        ⊎ ((update_requirements nat_float plain
              (some sample_list)
              reported
              strict_engine).requirements.port_forward
            ≡ true)
        ⊎ Unmeetable plain (some sample_list) (told_of reported strict_engine))
requirements_kept_example =
    requirements_kept nat_float plain (some sample_list) reported strict_engine

abbrev inferring_engine : Engine ℕ
inferring_engine = record sample_engine {
  requirements = record no_requirements { port_forward = true };
  port_forward_reason = "VPN_PORT_FORWARDING";
}

abbrev nothing_listed : List (LogicalServer ℕ)
nothing_listed = []

empties : (apply_logicals nat_float plain true nothing_listed true inferring_engine).candidates ≡ []
unfolding apply_logicals settle_requirements build_sets build build_all catalog_options is_inferred
    abandon_inference rerank build_blocked
empties = refl

inferred_never_empties_example :
    (build plain (without_port_forward (catalog_options inferring_engine)) nothing_listed).0 ≡ []
inferred_never_empties_example =
    inferred_never_empties nat_float plain true nothing_listed true inferring_engine refl refl refl
      empties

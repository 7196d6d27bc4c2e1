-- ===== src/Tests/Measures.antt =====
-- Latencies, scores and statistics at concrete measurements.
use mathlib.Core.List.{Perm}
use gluetun_proton_list_upda.Prelude.{
  ℕ, ◌<◌, ◌≡◌, refl, true, false, List, [], ◌∷◌, none, some, All, arith,
}
use gluetun_proton_list_upda.Prelude.Addr.{v4, addr_eq}
use gluetun_proton_list_upda.Latency.{Result, History, Dial, connected, failed, probe_one}
use gluetun_proton_list_upda.Latency.Blend.{Probed, times, probe_one-Probed}
use gluetun_proton_list_upda.Scoring.{rank, score_all}
use gluetun_proton_list_upda.Catalog.{Candidate}
use gluetun_proton_list_upda.Scoring.Order.{IsScored, IsRanked, rank-IsRanked}
use gluetun_proton_list_upda.Engine.State.{zero_stats, trim, StateStore, flush}
use gluetun_proton_list_upda.Engine.State.Extremes.{
  Summarises, observe_loads, loads_of, observe_loads-Summarises,
}
use gluetun_proton_list_upda.Engine.State.Caps.{Trimmed, trim-Trimmed}
use gluetun_proton_list_upda.Engine.State.Saved.{Op, change, save, sync, run, changes, run-flush}
use gluetun_proton_list_upda.Tests.Samples.{
  nat_float, nat_float-IsOrdered, candidate, even, sample_state, sample_engine,
}

abbrev good : Result
good = record { rtt = 30; err = none; measured_at = 1; samples = 3 }

abbrev bad : ℕ → Result
bad at = record { rtt = 0; err = some "no route"; measured_at = at; samples = 0 }

abbrev measured : History
measured = (v4 1, good) ∷ (v4 2, bad 1) ∷ []

abbrev dials : List Dial
dials = failed "refused" ∷ connected 40 ∷ connected 30 ∷ []

dials_positive : All (λ t. 0 < t) (times dials)
unfolding times
dials_positive = (omega arith, (omega arith, tt))

probe_one-Probed_example : Probed (times dials) (probe_one 5 dials)
probe_one-Probed_example = probe_one-Probed 5 dials dials_positive

loads_positive : All (λ l. 0 < l) (loads_of ((40, 1) ∷ (20, 2) ∷ []))
unfolding loads_of
loads_positive = (omega arith, (omega arith, tt))

observe_loads-Summarises_example :
    Summarises
      (observe_loads zero_stats ((40, 1) ∷ (20, 2) ∷ []))
      (loads_of ((40, 1) ∷ (20, 2) ∷ []))
observe_loads-Summarises_example = observe_loads-Summarises 40 1 ((20, 2) ∷ []) loads_positive

trim-Trimmed_example : Trimmed sample_state (trim sample_state)
trim-Trimmed_example = trim-Trimmed sample_state

abbrev clean : StateStore ℕ
clean = sample_engine.store

abbrev some_ops : List (Op ℕ)
some_ops =
    change (λ s. record s { last_switch_at = 7 })
    ∷ sync false
    ∷ save (λ s. record s { last_switch_at = 8 }) false
    ∷ []

run-flush_example :
    ((flush true (run clean some_ops)).0.file ≡ some (changes clean.state some_ops))
    × ((run clean some_ops).state ≡ changes clean.state some_ops)
run-flush_example = run-flush clean some_ops (λ _. refl)

abbrev two_candidates : List (Candidate ℕ)
two_candidates = candidate "se-2.example" 2 30 ∷ candidate "se-1.example" 1 40 ∷ []

scores_known : All (IsScored nat_float) (score_all nat_float two_candidates measured even)
unfolding score_all
scores_known = (refl, (refl, tt))

rank-IsRanked_example :
    Perm
      (rank nat_float two_candidates measured even)
      (score_all nat_float two_candidates measured even)
    × IsRanked nat_float (rank nat_float two_candidates measured even)
rank-IsRanked_example =
    rank-IsRanked nat_float nat_float-IsOrdered two_candidates measured even scores_known

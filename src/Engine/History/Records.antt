-- ===== src/Engine/History/Records.antt =====
-- internal/engine/history.go: which records `recordTransfer` and `forgetRetiredServers` touch.
use gluetun_proton_list_upda.Prelude.{
  ℕ, zero, suc, ◌≤◌, ◌<◌, ◌≡◌, ◌≢◌, refl, ap, ◌∙◌, String, Bool, false, not, [], ◌∷◌, some, ltb,
  str_eq, str_eq_iff, string_eq, if◌then◌else◌, length, arith,
}
use gluetun_proton_list_upda.Prelude.Table.{find, put, find-put}
use gluetun_proton_list_upda.Engine.State.{
  ServerStats, StatsTable, max_server_stats, prune_stats, prune_rounds, trim, mutate,
}
use gluetun_proton_list_upda.Engine.Core.{Reading, Engine}
use gluetun_proton_list_upda.Engine.History.{
  stats_of, transferred_since, credit, credit_state, record_transfer,
}

length-put : (k : String) (v : ServerStats) (m : StatsTable) → length (put k v m) ≤ suc (length m)
unfolding put
length-put k v [] = omega arith
length-put k v ((j, w) ∷ m) = ground (arith, length-put k v m)

prune_rounds_idle :
    (fuel : ℕ) (m : StatsTable) → ltb max_server_stats (length m) ≡ false → prune_rounds fuel m ≡ m
unfolding prune_rounds
prune_rounds_idle zero m h = refl
prune_rounds_idle (suc n) m h = rw h refl

prune_stats_idle : (m : StatsTable) → length m ≤ max_server_stats → prune_stats m ≡ m
unfolding prune_stats
prune_stats_idle m h = prune_rounds_idle (length m) m (ground arith)

module _ {F : Type 0} where
  credit_others :
      (now : ℕ) (host other : String) (new_stay : Bool) (r : Reading) (moved : ℕ × ℕ) (e : Engine F)
      → other ≢ host
      → length e.store.state.stats < max_server_stats
      → find other (mutate (credit_state now host new_stay r moved) e.store).state.stats
        ≡ find other e.store.state.stats
  unfolding mutate trim
  credit_others now host other new_stay r moved e ne room =
      let s = e.store.state.stats in
      let v = credit now new_stay r moved (stats_of host s) in
      let apart = str_eq_iff host other in
      let differ : str_eq host other ≡ false = ground arith in
      ap (find other) (prune_stats_idle (put host v s) (omega (arith, length-put host v s)))
      ∙ find-put host other v s
      ∙ ap (λ b. if b then some v else find other s) differ

  -- Recording a reading touches the record of no other server, unless the table is full and one has
  -- to be dropped.
  pub record_transfer_others :
      (now : ℕ) (host other : String) (r : Reading) (e : Engine F)
      → other ≢ host
      → length e.store.state.stats < max_server_stats
      → find other (record_transfer now host r e).store.state.stats ≡ find other e.store.state.stats
  unfolding record_transfer
  record_transfer_others now host other r e ne room =
      let credited =
        credit_others now host other (not (str_eq host e.store.state.measuring_host)) r
          (transferred_since host r e.transfer).0 e ne room in
      ground arith

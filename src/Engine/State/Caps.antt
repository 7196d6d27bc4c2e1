-- ===== src/Engine/State/Caps.antt =====
-- Every change of the state keeps the history and the statistics within their caps.
use gluetun_proton_list_upda.Prelude.{
  ℕ, zero, suc, ◌+◌, ◌-◌, ◌≤◌, ◌<◌, min, ◌≡◌, refl, sym, String, Bool, List, [], ◌∷◌, ◌++◌, arith,
  ltb, length, take, length-drop, take-append-drop, str_eq, str_eq_iff, string_eq, if◌then◌else◌,
  ◌||◌, Bool-cases, inl, inr, ◌⊎◌,
}
use gluetun_proton_list_upda.Prelude.Table.{remove}
use gluetun_proton_list_upda.Engine.State.{
  ServerStats, SwitchRecord, StatsTable, PersistedState, oldest_from, prune_rounds, prune_stats,
  trim, max_server_stats, max_history,
}

-- a key of the table
HasKey : String → StatsTable → Type 0
HasKey k [] = ⊥
HasKey k ((j, r) ∷ m) = (j ≡ k) ⊎ HasKey k m

oldest_from-key :
    (host : String) (oldest : ℕ) (m : StatsTable)
    → ((oldest_from host oldest m).0 ≡ host) ⊎ HasKey (oldest_from host oldest m).0 m
unfolding oldest_from HasKey
oldest_from-key host oldest [] = inl refl
oldest_from-key host oldest ((h, r) ∷ m) =
    elim (oldest_from-key (if older then h else host) (if older then r.last_seen_unix else oldest)
      m) [
        | inl e ↦ elim (Bool-cases older) [
          | inl t ↦ inr (inl (sym (ground (arith, e, t))))
          | inr f ↦ inl (ground (arith, e, f))
        ]
        | inr k ↦ inr (inr k)
      ]
  where
    older : Bool
    older = str_eq host "" || ltb r.last_seen_unix oldest

length-remove : (k : String) (m : StatsTable) → length (remove k m) ≤ length m
unfolding remove
length-remove k [] = omega arith
length-remove k ((j, r) ∷ m) = ground (arith, length-remove k m)

length-remove_key : (k : String) (m : StatsTable) → HasKey k m → length (remove k m) < length m
unfolding remove HasKey
length-remove_key k [] h = absurd h
length-remove_key k ((j, r) ∷ m) (inl e) = ground (arith, length-remove k m, str_eq_iff j k)
length-remove_key k ((j, r) ∷ m) (inr h) =
    ground (arith, length-remove k m, length-remove_key k m h)

oldest-HasKey :
    (h : String) (r : ServerStats) (m : StatsTable)
    → HasKey (oldest_from "" 0 ((h, r) ∷ m)).0 ((h, r) ∷ m)
unfolding oldest_from HasKey
oldest-HasKey h r m = elim (oldest_from-key h r.last_seen_unix m) [
  | inl e ↦ inl (sym e)
  | inr k ↦ inr k
]

length-remove_oldest :
    (m : StatsTable) → 0 < length m → length (remove (oldest_from "" 0 m).0 m) < length m
length-remove_oldest [] h = elim h [ ]
length-remove_oldest ((h, r) ∷ m) pos =
    length-remove_key (oldest_from "" 0 ((h, r) ∷ m)).0 ((h, r) ∷ m) (oldest-HasKey h r m)

length-prune_rounds :
    (fuel : ℕ) (m : StatsTable)
    → length m ≤ fuel + max_server_stats
    → length (prune_rounds fuel m) ≤ max_server_stats
unfolding prune_rounds
length-prune_rounds zero m h = omega arith
length-prune_rounds (suc fuel) m h =
    ground
      (arith, length-prune_rounds fuel (remove (oldest_from "" 0 m).0 m), length-remove_oldest m)

length-prune_stats : (m : StatsTable) → length (prune_stats m) ≤ max_server_stats
unfolding prune_stats
length-prune_stats m = length-prune_rounds (length m) m (omega arith)

-- A table within the cap is left as it is.
prune_stats-same : (m : StatsTable) → length m ≤ max_server_stats → prune_stats m ≡ m
unfolding prune_stats prune_rounds
prune_stats-same [] h = refl
prune_stats-same ((k, r) ∷ m) h = ground arith

-- What a trim keeps: the newest part of the history.
pub record Trimmed {F : Type 0} (s t : PersistedState F) : Type 0 where
  pub older : List (SwitchRecord F)
  pub newest : s.history ≡ older ++ t.history
  pub kept : length t.history ≡ min max_history (length s.history)
  pub stats_capped : length t.stats ≤ max_server_stats
  pub stats_same : length s.stats ≤ max_server_stats → t.stats ≡ s.stats

-- Trimming keeps the newest 100 entries of the history in order, or all where there are no more,
-- leaves at most 600 statistics, and touches none where there are no more than that.
pub trim-Trimmed : {F : Type 0} (s : PersistedState F) → Trimmed s (trim s)
unfolding trim
trim-Trimmed s = elim (Bool-cases (ltb max_history (length s.history))) [
  | inl over ↦ record {
    older = take (length s.history - max_history) s.history;
    newest = rw over (sym (take-append-drop (length s.history - max_history) s.history));
    kept = rw over (ground (arith, length-drop (length s.history - max_history) s.history));
    stats_capped = length-prune_stats s.stats;
    stats_same = prune_stats-same s.stats;
  }
  | inr within ↦ record {
    older = [];
    newest = rw within refl;
    kept = rw within (ground arith);
    stats_capped = length-prune_stats s.stats;
    stats_same = prune_stats-same s.stats;
  }
]

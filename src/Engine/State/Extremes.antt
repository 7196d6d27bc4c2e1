-- ===== src/Engine/State/Extremes.antt =====
-- The extremes that `observeLoad` maintains, where no reading is 0 and where one is.
use gluetun_proton_list_upda.Prelude.{
  ℕ, suc, ◌+◌, ◌≤◌, ◌<◌, ◌≡◌, refl, ap, List, [], ◌∷◌, arith, length, All, Memᴰ, inl, inr, ◌⊎◌,
  All-mem, All-of_mem, ltb, ◌==◌, if◌then◌else◌, ◌||◌, Bool, true, false,
}
use gluetun_proton_list_upda.Engine.State.{ServerStats, zero_stats, observe_load}

-- A series of readings with their times.
unfoldable pub observe_loads : ServerStats → List (ℕ × ℕ) → ServerStats
observe_loads s [] = s
observe_loads s ((load, at) ∷ rest) = observe_loads (observe_load s load at) rest

unfoldable pub loads_of : List (ℕ × ℕ) → List ℕ
loads_of [] = []
loads_of ((load, at) ∷ rest) = load ∷ loads_of rest

-- the record covers the loads seen so far: it holds the least and the greatest of them
record Covers (s : ServerStats) (seen : List ℕ) : Type 0 where
  lowest_pos : 0 < s.load_lowest
  lowest_le : All (λ l. s.load_lowest ≤ l) seen
  le_highest : All (λ l. l ≤ s.load_highest) seen
  lowest_seen : Memᴰ s.load_lowest seen
  highest_seen : Memᴰ s.load_highest seen

All-le_trans : (a b : ℕ) (ls : List ℕ) → a ≤ b → All (λ l. b ≤ l) ls → All (λ l. a ≤ l) ls
All-le_trans a b [] h hs = tt
All-le_trans a b (l ∷ ls) h hs = (omega arith, All-le_trans a b ls h hs.1)

All-trans_le : (a b : ℕ) (ls : List ℕ) → a ≤ b → All (λ l. l ≤ a) ls → All (λ l. l ≤ b) ls
All-trans_le a b [] h hs = tt
All-trans_le a b (l ∷ ls) h hs = (omega arith, All-trans_le a b ls h hs.1)

mem_if : (b : Bool) (x y : ℕ) (seen : List ℕ) → Memᴰ y seen → Memᴰ (if b then x else y) (x ∷ seen)
mem_if true x y seen m = Memᴰ.head refl
mem_if false x y seen m = Memᴰ.tail m

observe_load-Covers :
    (s : ServerStats) (load at : ℕ) (seen : List ℕ)
    → 0 < load
    → Covers s seen
    → Covers (observe_load s load at) (load ∷ seen)
unfolding observe_load
observe_load-Covers s load at seen pos c = record {
  lowest_pos = ground (arith, c.lowest_pos);
  lowest_le = (
    ground (arith, c.lowest_pos),
    All-le_trans _ s.load_lowest seen (ground (arith, c.lowest_pos)) c.lowest_le,
  );
  le_highest = (ground arith, All-trans_le s.load_highest _ seen (ground arith) c.le_highest);
  lowest_seen =
      mem_if (s.load_lowest == 0 || ltb load s.load_lowest) load s.load_lowest seen c.lowest_seen;
  highest_seen = mem_if (ltb s.load_highest load) load s.load_highest seen c.highest_seen;
}

first-Covers : (load at : ℕ) → 0 < load → Covers (observe_load zero_stats load at) (load ∷ [])
unfolding observe_load
first-Covers load at pos = record {
  lowest_pos = pos;
  lowest_le = (omega arith, tt);
  le_highest = (ground arith, tt);
  lowest_seen = Memᴰ.head refl;
  highest_seen = Memᴰ.head (ground arith);
}

-- what was seen, newest first, after more readings
seen_after : List ℕ → List (ℕ × ℕ) → List ℕ
seen_after seen [] = seen
seen_after seen ((load, at) ∷ rest) = seen_after (load ∷ seen) rest

observe_loads-Covers :
    (s : ServerStats) (seen : List ℕ) (readings : List (ℕ × ℕ))
    → All (λ l. 0 < l) (loads_of readings)
    → Covers s seen
    → Covers (observe_loads s readings) (seen_after seen readings)
unfolding observe_loads loads_of seen_after
observe_loads-Covers s seen [] pos c = c
observe_loads-Covers s seen ((load, at) ∷ rest) pos c =
    observe_loads-Covers (observe_load s load at) (load ∷ seen) rest pos.1
      (observe_load-Covers s load at seen pos.0 c)

samples-observe_loads :
    (s : ServerStats) (readings : List (ℕ × ℕ))
    → (observe_loads s readings).samples ≡ s.samples + length readings
unfolding observe_loads observe_load
samples-observe_loads s [] = omega arith
samples-observe_loads s ((load, at) ∷ rest) =
    omega (arith, samples-observe_loads (observe_load s load at) rest)

-- membership does not depend on the order in which the readings were seen
mem_seen_after :
    {x : ℕ} (seen : List ℕ) (readings : List (ℕ × ℕ))
    → Memᴰ x seen ⊎ Memᴰ x (loads_of readings)
    → Memᴰ x (seen_after seen readings)
unfolding seen_after loads_of
mem_seen_after seen [] (inl m) = m
mem_seen_after seen [] (inr m) = elim m [ ]
mem_seen_after seen ((load, at) ∷ rest) (inl m) =
    mem_seen_after (load ∷ seen) rest (inl (Memᴰ.tail m))
mem_seen_after seen ((load, at) ∷ rest) (inr (Memᴰ.head e)) =
    mem_seen_after (load ∷ seen) rest (inl (Memᴰ.head e))
mem_seen_after seen ((load, at) ∷ rest) (inr (Memᴰ.tail m)) =
    mem_seen_after (load ∷ seen) rest (inr m)

mem_of_seen_after :
    {x : ℕ} (seen : List ℕ) (readings : List (ℕ × ℕ))
    → Memᴰ x (seen_after seen readings)
    → Memᴰ x seen ⊎ Memᴰ x (loads_of readings)
unfolding seen_after loads_of
mem_of_seen_after seen [] m = inl m
mem_of_seen_after seen ((load, at) ∷ rest) m = elim (mem_of_seen_after (load ∷ seen) rest m) [
  | inl (Memᴰ.head e) ↦ inr (Memᴰ.head e)
  | inl (Memᴰ.tail n) ↦ inl n
  | inr n ↦ inr (Memᴰ.tail n)
]

mem_of_first :
    {x : ℕ} (load at : ℕ) (rest : List (ℕ × ℕ))
    → Memᴰ x (seen_after (load ∷ []) rest)
    → Memᴰ x (loads_of ((load, at) ∷ rest))
unfolding loads_of
mem_of_first load at rest m = elim (mem_of_seen_after (load ∷ []) rest m) [
  | inl (Memᴰ.head e) ↦ Memᴰ.head e
  | inl (Memᴰ.tail n) ↦ elim n [ ]
  | inr n ↦ Memᴰ.tail n
]

-- The least and the greatest of some readings, and how many they are.
pub record Summarises (s : ServerStats) (loads : List ℕ) : Type 0 where
  pub lowest_le : All (λ l. s.load_lowest ≤ l) loads
  pub lowest_seen : Memᴰ s.load_lowest loads
  pub le_highest : All (λ l. l ≤ s.load_highest) loads
  pub highest_seen : Memᴰ s.load_highest loads
  pub samples : s.samples ≡ length loads

length-loads_of : (readings : List (ℕ × ℕ)) → length (loads_of readings) ≡ length readings
unfolding loads_of
length-loads_of [] = refl
length-loads_of (r ∷ rest) = ap suc (length-loads_of rest)

-- After one or more readings, none of them 0, a new record holds exactly the least and the greatest
-- of them and how many there were.
pub observe_loads-Summarises :
    (load at : ℕ) (rest : List (ℕ × ℕ))
    → All (λ l. 0 < l) (loads_of ((load, at) ∷ rest))
    → Summarises (observe_loads zero_stats ((load, at) ∷ rest)) (loads_of ((load, at) ∷ rest))
unfolding loads_of observe_loads
observe_loads-Summarises load at rest pos =
    let c =
      observe_loads-Covers (observe_load zero_stats load at) (load ∷ []) rest pos.1
        (first-Covers load at pos.0) in
    record {
      lowest_le =
          All-of_mem (λ l. (observe_loads (observe_load zero_stats load at) rest).load_lowest ≤ l)
            (load ∷ loads_of rest)
            (λ l m.
              All-mem
                (λ l'. (observe_loads (observe_load zero_stats load at) rest).load_lowest ≤ l')
                (seen_after (load ∷ []) rest) c.lowest_le (to_seen m));
      lowest_seen = mem_of_first load at rest c.lowest_seen;
      le_highest =
          All-of_mem (λ l. l ≤ (observe_loads (observe_load zero_stats load at) rest).load_highest)
            (load ∷ loads_of rest)
            (λ l m.
              All-mem
                (λ l'. l' ≤ (observe_loads (observe_load zero_stats load at) rest).load_highest)
                (seen_after (load ∷ []) rest) c.le_highest (to_seen m));
      highest_seen = mem_of_first load at rest c.highest_seen;
      samples =
          omega (arith, samples-observe_loads zero_stats ((load, at) ∷ rest), length-loads_of rest);
    }
  where
    to_seen : {x : ℕ} → Memᴰ x (load ∷ loads_of rest) → Memᴰ x (seen_after (load ∷ []) rest)
    to_seen (Memᴰ.head e) = mem_seen_after (load ∷ []) rest (inl (Memᴰ.head e))
    to_seen (Memᴰ.tail m) = mem_seen_after (load ∷ []) rest (inr m)

-- A reading of 0 is taken for "no reading yet": the next reading becomes the lowest load, although a
-- lower one was seen.
pub lowest_after_zero :
    (s : ServerStats) (load at later : ℕ)
    → 0 < load
    → (observe_load (observe_load s 0 at) load later).load_lowest ≡ load
unfolding observe_load
lowest_after_zero s load at later pos = ground arith

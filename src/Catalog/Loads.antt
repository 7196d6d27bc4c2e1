-- ===== src/Catalog/Loads.antt =====
-- `ApplyLoads` of internal/catalog/catalog.go, and what the engine does with its result:
-- `applyLoads` and `dropDisabled` of internal/engine/tasks.go.
use gluetun_proton_list_upda.Prelude.{
  ℕ, suc, ◌≡◌, refl, ap, String, Bool, false, not, List, [], ◌∷◌, Option, none, some, ◌==◌,
  if◌then◌else◌, length, str_eq, string_eq, arith, Bool-cases, inl, inr, is_some, map, keep,
}
use gluetun_proton_list_upda.Prelude.Table.{Table, find, put, find-put}
use gluetun_proton_list_upda.Proton.{ServerLoad}
use gluetun_proton_list_upda.Catalog.{Candidate, contains}

module _ {F : Type 0} where
  -- `byID`: a later entry with the same id replaces an earlier one
  unfoldable pub by_id :
      Table String (ServerLoad F) → List (ServerLoad F) → Table String (ServerLoad F)
  by_id m [] = m
  by_id m (load ∷ loads) = by_id (put load.id load m) loads

  -- one candidate, given the entry for its logical server
  unfoldable pub refresh : Option (ServerLoad F) → Candidate F → Candidate F
  refresh none c = c
  refresh (some load) c = record c { load = load.load; proton_score = load.score }

  abbrev pub is_disabled : Option (ServerLoad F) → Bool
  is_disabled none = false
  is_disabled (some load) = load.status == 0

  -- The loop: the candidates, how many were matched, and the hostnames to drop.
  unfoldable pub apply_each :
      Table String (ServerLoad F) → List (Candidate F) → List (Candidate F) × ℕ × List String
  unfolding refresh
  apply_each m [] = ([], 0, [])
  apply_each m (c ∷ cs) =
      let (rest, updated, disabled) = apply_each m cs in
      let load = find c.logical_id m in
      (
        refresh load c ∷ rest,
        if is_some load then suc updated else updated,
        if is_disabled load then c.hostname ∷ disabled else disabled,
      )

  unfoldable pub apply_loads :
      List (Candidate F) → List (ServerLoad F) → List (Candidate F) × ℕ × List String
  unfolding apply_each by_id
  apply_loads cs loads = apply_each (by_id [] loads) cs

  -- `dropDisabled`, and the same loop over the blocked set
  unfoldable pub drop_disabled : List String → List (Candidate F) → List (Candidate F)
  drop_disabled disabled cs = keep (λ c. not (contains c.hostname disabled)) cs

  -- the newest entry for a logical server
  pub latest : String → List (ServerLoad F) → Option (ServerLoad F)
  latest id [] = none
  latest id (load ∷ loads) = elim (latest id loads) [
    | some later ↦ some later
    | none ↦ if str_eq load.id id then some load else none
  ]

  find-by_id :
      (id : String) (m : Table String (ServerLoad F)) (loads : List (ServerLoad F))
      → find id (by_id m loads)
        ≡ (elim (latest id loads) [ some later ↦ some later | none ↦ find id m ])
  unfolding by_id latest
  find-by_id id m [] = refl
  find-by_id id m (load ∷ loads) =
      ground (arith, find-by_id id (put load.id load m) loads, find-put load.id id load m)

  -- what one refresh should make of a candidate
  abbrev pub refreshed : List (ServerLoad F) → Candidate F → Candidate F
  refreshed loads c = elim (latest c.logical_id loads) [
    | none ↦ c
    | some load ↦ record c { load = load.load; proton_score = load.score }
  ]

  abbrev pub switched_off : List (ServerLoad F) → Candidate F → Bool
  switched_off loads c = elim (latest c.logical_id loads) [
    | none ↦ false
    | some load ↦ load.status == 0
  ]

  refresh-latest :
      (found : Option (ServerLoad F)) (c : Candidate F)
      → refresh found c ≡ (elim found [
        | none ↦ c
        | some load ↦ record c { load = load.load; proton_score = load.score }
      ])
  unfolding refresh
  refresh-latest none c = refl
  refresh-latest (some load) c = refl

  is_disabled-latest :
      (found : Option (ServerLoad F))
      → is_disabled found ≡ (elim found [ none ↦ false | some load ↦ load.status == 0 ])
  is_disabled-latest none = refl
  is_disabled-latest (some load) = refl

  find-latest :
      (id : String) (loads : List (ServerLoad F)) → find id (by_id [] loads) ≡ latest id loads
  unfolding find
  find-latest id loads = ground (arith, find-by_id id [] loads)

  apply_each-latest :
      (cs : List (Candidate F)) (loads : List (ServerLoad F))
      → (apply_each (by_id [] loads) cs).0 ≡ map (refreshed loads) cs
  unfolding apply_each
  apply_each-latest [] loads = refl
  apply_each-latest (c ∷ cs) loads = rw (
    find-latest c.logical_id loads,
    refresh-latest (latest c.logical_id loads) c,
    apply_each-latest cs loads,
  )

  apply_each_updated :
      (cs : List (Candidate F)) (loads : List (ServerLoad F))
      → (apply_each (by_id [] loads) cs).1
        ≡ length (keep (λ c. is_some (latest c.logical_id loads)) cs)
  unfolding apply_each
  apply_each_updated [] loads = refl
  apply_each_updated (c ∷ cs) loads =
      ground (arith, find-latest c.logical_id loads, apply_each_updated cs loads)

  apply_each_disabled :
      (cs : List (Candidate F)) (loads : List (ServerLoad F))
      → (apply_each (by_id [] loads) cs).2
        ≡ map (λ (c : Candidate F). c.hostname) (keep (switched_off loads) cs)
  unfolding apply_each
  apply_each_disabled [] loads = refl
  apply_each_disabled (c ∷ cs) loads = elim (Bool-cases (switched_off loads c)) [
    | inl off ↦
        rw (find-latest c.logical_id loads, is_disabled-latest (latest c.logical_id loads), off)
          (ap (λ l. c.hostname ∷ l) (apply_each_disabled cs loads))
    | inr on ↦
        rw (find-latest c.logical_id loads, is_disabled-latest (latest c.logical_id loads), on)
          (apply_each_disabled cs loads)
  ]

  -- A refresh gives each candidate the load and score of the last entry for its logical server and
  -- changes nothing else; it counts the candidates that have an entry, and reports the hostnames of
  -- those whose entry says that the server is disabled.
  pub apply_loads-latest :
      (cs : List (Candidate F)) (loads : List (ServerLoad F))
      → ((apply_loads cs loads).0 ≡ map (refreshed loads) cs)
        × ((apply_loads cs loads).1 ≡ length (keep (λ c. is_some (latest c.logical_id loads)) cs))
        × ((apply_loads cs loads).2
            ≡ map (λ (c : Candidate F). c.hostname) (keep (switched_off loads) cs))
  unfolding apply_loads
  apply_loads-latest cs loads =
      (apply_each-latest cs loads, apply_each_updated cs loads, apply_each_disabled cs loads)

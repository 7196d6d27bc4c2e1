-- ===== src/Catalog/Build/Eligible.antt =====
-- The loop of `Build` is one pass of `place` over a plain list: the machines that every filter lets
-- through, in Proton's order.
use gluetun_proton_list_upda.Prelude.{
  ℕ, suc, String, ◌≡◌, refl, ◌∙◌, ap, sym, Bool, not, ◌&&◌, List, [], ◌∷◌, ◌++◌, none, some, ltb,
  if◌then◌else◌, length, get_elem?, set, map, keep, arith, Bool-cases, inl, inr,
}
use gluetun_proton_list_upda.Prelude.Addr.{Addr, addr_eq}
use gluetun_proton_list_upda.Prelude.Table.{Table, find, put}
use gluetun_proton_list_upda.Platform.{Platform}
use gluetun_proton_list_upda.Proton.{LogicalServer, PhysicalServer, enabled, machine_enabled}
use gluetun_proton_list_upda.Catalog.{
  Candidate, Options, satisfied, above_tier, features_allowed, deref, resolve_country,
  country_refused, city_refused, contains,
}
use gluetun_proton_list_upda.Catalog.Build.{
  Progress, start, to_candidate, connectable, place, build_machines, build_located, build_logical,
  build_all, build, note_unknown, count_logical,
}

-- What `place` reads and writes, without the other counters.
pub record Kept (F : Type 0) : Type 0 where
  pub candidates : List (Candidate F)
  pub index : Table Addr ℕ
  pub duplicates : ℕ

-- Every rule on a machine of an admitted server.
unfoldable pub usable : Options → PhysicalServer → Bool
usable o s = machine_enabled s && connectable o s

module _ {F : Type 0} where
  -- every rule on a logical server at once
  unfoldable pub admitted : Platform → Options → LogicalServer F → Bool
  admitted p o l =
      enabled l
      && features_allowed o l
      && not (ltb 0 o.max_load && ltb o.max_load l.load)
      && satisfied o.require l
      && not (above_tier l o.max_tier)
      && not (country_refused o (resolve_country p l).0)
      && not (contains (resolve_country p l).0 o.exclude_countries)
      && not (city_refused p o (deref p l.city))

  unfoldable pub candidates_of :
      Platform → Options → LogicalServer F → List PhysicalServer → List (Candidate F)
  candidates_of p o l servers =
      map (to_candidate p o l (resolve_country p l).0 (deref p l.city)) (keep (usable o) servers)

  unfoldable pub eligible : Platform → Options → List (LogicalServer F) → List (Candidate F)
  eligible p o [] = []
  eligible p o (l ∷ rest) =
      (if admitted p o l then candidates_of p o l l.servers else []) ++ eligible p o rest

  abbrev pub kept : Progress F → Kept F
  kept a = record {
    candidates = a.candidates;
    index = a.index;
    duplicates = a.stats.duplicate_skipped;
  }

  unfoldable pub keep_quieter : Kept F → Candidate F → ℕ → Kept F
  keep_quieter k c i = elim (get_elem? k.candidates i) [
    | none ↦ record k { duplicates = suc k.duplicates }
    | some old ↦
        if ltb c.load old.load
        then record k { duplicates = suc k.duplicates; candidates = set k.candidates i c }
        else record k { duplicates = suc k.duplicates }
  ]

  unfoldable pub offer : Kept F → Candidate F → Kept F
  unfolding keep_quieter
  offer k c =
      if c.secure_core
      then record k { candidates = k.candidates ++ c ∷ [] }
      else elim (find c.entry_ip k.index) [
        | none ↦ record k {
          candidates = k.candidates ++ c ∷ [];
          index = put c.entry_ip (length k.candidates) k.index;
        }
        | some i ↦ keep_quieter k c i
      ]

  unfoldable pub offer_all : Kept F → List (Candidate F) → Kept F
  offer_all k [] = k
  offer_all k (c ∷ cs) = offer_all (offer k c) cs

  offer_all-append :
      (k : Kept F) (xs ys : List (Candidate F))
      → offer_all k (xs ++ ys) ≡ offer_all (offer_all k xs) ys
  unfolding offer_all
  offer_all-append k [] ys = refl
  offer_all-append k (x ∷ xs) ys = offer_all-append (offer k x) xs ys

  kept-place : (a : Progress F) (c : Candidate F) → kept (place a c).0 ≡ offer (kept a) c
  unfolding place offer
  kept-place a c = ground arith

  kept-build_machines :
      (p : Platform) (o : Options) (l : LogicalServer F) (a : Progress F) (n : ℕ)
      (servers : List PhysicalServer)
      → kept (build_machines p o l (resolve_country p l).0 (deref p l.city) a n servers).0
        ≡ offer_all (kept a) (candidates_of p o l servers)
  unfolding build_machines candidates_of offer_all usable
  kept-build_machines p o l a n [] = refl
  kept-build_machines p o l a n (s ∷ rest) = elim (Bool-cases (machine_enabled s)) [
    | inr off ↦ rw off (kept-build_machines p o l _ n rest)
    | inl up ↦ elim (Bool-cases (connectable o s)) [
      | inr unfit ↦ rw (up, unfit) (kept-build_machines p o l a n rest)
      | inl fit ↦
          let c = to_candidate p o l (resolve_country p l).0 (deref p l.city) s in
          rw (up, fit)
            (kept-build_machines p o l (place a c).0 _ rest
              ∙ ap (λ k. offer_all k (candidates_of p o l rest)) (kept-place a c))
    ]
  ]

  kept-build_located :
      (p : Platform) (o : Options) (l : LogicalServer F) (a : Progress F)
      → kept (build_located p o l (resolve_country p l).0 (deref p l.city) a)
        ≡ offer_all (kept a) (candidates_of p o l l.servers)
  unfolding build_located
  kept-build_located p o l a = ground (arith, kept-build_machines p o l a 0 l.servers)

  kept-note_unknown :
      (a : Progress F) (country : String) (known : Bool)
      → kept (note_unknown a country known) ≡ kept a
  kept-note_unknown a country known = ground arith

  kept-build_logical :
      (p : Platform) (o : Options) (a : Progress F) (l : LogicalServer F)
      → kept (build_logical p o a l)
        ≡ offer_all (kept a) (if admitted p o l then candidates_of p o l l.servers else [])
  unfolding build_logical admitted offer_all count_logical
  kept-build_logical p o a l =
      let counted = record a { stats = count_logical a.stats l } in
      let place = resolve_country p l in
      ground (
        arith,
        kept-build_located p o l (note_unknown counted place.0 place.1),
        kept-note_unknown counted place.0 place.1,
      )

  kept-build_all :
      (p : Platform) (o : Options) (a : Progress F) (logicals : List (LogicalServer F))
      → kept (build_all p o a logicals) ≡ offer_all (kept a) (eligible p o logicals)
  unfolding build_all eligible
  kept-build_all p o a [] = unfold offer_all in refl
  kept-build_all p o a (l ∷ rest) =
      kept-build_all p o (build_logical p o a l) rest
      ∙ ap (λ k. offer_all k (eligible p o rest)) (kept-build_logical p o a l)
      ∙ sym (
          offer_all-append (kept a) (if admitted p o l then candidates_of p o l l.servers else [])
            (eligible p o rest))

  abbrev pub nothing : Kept F
  nothing = record { candidates = []; index = []; duplicates = 0 }

  -- `Build` is the same as first listing the machines that every filter lets through, in order, and
  -- then offering them one after the other: so are its candidates and its count of duplicates, and
  -- the count of kept machines is that of the candidates.
  pub build-eligible :
      (p : Platform) (o : Options) (logicals : List (LogicalServer F))
      → ((build p o logicals).0 ≡ (offer_all nothing (eligible p o logicals)).candidates)
        × ((build p o logicals).1.duplicate_skipped
            ≡ (offer_all nothing (eligible p o logicals)).duplicates)
        × ((build p o logicals).1.physical_kept ≡ length (build p o logicals).0)
  unfolding build
  build-eligible p o logicals = (
    ap (λ (k : Kept F). k.candidates) (kept-build_all p o start logicals),
    ap (λ (k : Kept F). k.duplicates) (kept-build_all p o start logicals),
    refl,
  )

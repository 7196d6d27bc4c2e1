-- ===== src/Catalog/Build/Kept.antt =====
-- What `Build` keeps of the machines that its filters let through.
use gluetun_proton_list_upda.Prelude.{
  ℕ, suc, ◌+◌, ◌≤◌, ◌≡◌, ◌⊎◌, sym, ap, subst, true, false, List, [], ◌∷◌, some, ◌==◌, length,
  get_elem?, get_elem?-append_one, get_elem?-set, arith, Bool-cases, inl, inr, Memᴰ, All,
  All-append, All-set, All-of_mem, length-append, length-set, mem_of_get_elem?,
}
use gluetun_proton_list_upda.Prelude.Addr.{addr_eq, addr_beq_iff}
use gluetun_proton_list_upda.Prelude.Table.{find, find-put}
use gluetun_proton_list_upda.Platform.{Platform}
use gluetun_proton_list_upda.Proton.{LogicalServer}
use gluetun_proton_list_upda.Catalog.{Candidate, Options}
use gluetun_proton_list_upda.Catalog.Build.{build}
use gluetun_proton_list_upda.Catalog.Build.Eligible.{
  Kept, nothing, offer, offer_all, eligible, build-eligible,
}
use gluetun_proton_list_upda.Catalog.Build.Index.{
  IsIndexed, core, fresh, quieter, louder, offer-cases, offer-IsIndexed, offer_all-IsIndexed,
  nothing-IsIndexed, get_elem?-append_some,
}

module _ {F : Type 0} where
  module _ (P : Candidate F → Type 0) where
    offer-All :
        (k : Kept F) (x : Candidate F)
        → IsIndexed k
        → P x
        → All P k.candidates
        → All P (offer k x).candidates
    offer-All k x ok h hs = elim (offer-cases k x ok) [
      | core secure e ↦ rw e (All-append P k.candidates (x ∷ []) hs (h, tt))
      | fresh plain unseen e ↦ rw e (All-append P k.candidates (x ∷ []) hs (h, tt))
      | quieter i old plain seen held less e ↦ rw e (All-set P k.candidates i x hs h)
      | louder i old plain seen held more e ↦ rw e hs
    ]

    offer_all-All :
        (k : Kept F) (cs : List (Candidate F))
        → IsIndexed k
        → All P cs
        → All P k.candidates
        → All P (offer_all k cs).candidates
    unfolding offer_all
    offer_all-All k [] ok h hs = hs
    offer_all-All k (c ∷ cs) ok h hs =
        offer_all-All (offer k c) cs (offer-IsIndexed k c ok) h.1 (offer-All k c ok h.0 hs)

  -- The machine itself if it is Secure Core, else one with its address that is no busier.
  abbrev pub Covered : Candidate F → List (Candidate F) → Type 0
  Covered e kept =
      ((e.secure_core ≡ true) × Memᴰ e kept)
      ⊎ ((e.secure_core ≡ false)
          × ((c : Candidate F) × Memᴰ c kept
              × (c.entry_ip ≡ e.entry_ip)
              × (c.secure_core ≡ false)
              × (c.load ≤ e.load)))

  -- The same by positions, as the loop maintains it.
  data Held (e : Candidate F) (k : Kept F) : Type 0 where
    secure : (i : ℕ) → e.secure_core ≡ true → get_elem? k.candidates i ≡ some e → Held e k
    plain :
        (i : ℕ) (c : Candidate F)
        → e.secure_core ≡ false
        → find e.entry_ip k.index ≡ some i
        → get_elem? k.candidates i ≡ some c
        → c.load ≤ e.load
        → Held e k

  -- a machine that is offered is held
  offer-Held : (k : Kept F) (x : Candidate F) → IsIndexed k → Held x (offer k x)
  offer-Held k x ok = elim (offer-cases k x ok) [
    | core sec e ↦ rw e (
        secure (length k.candidates) sec
          (ground (arith, get_elem?-append_one k.candidates x (length k.candidates))))
    | fresh pl unseen e ↦ rw e (
        plain (length k.candidates) x pl
          (ground (
            arith,
            find-put x.entry_ip x.entry_ip (length k.candidates) k.index,
            addr_beq_iff x.entry_ip x.entry_ip,
          ))
          (ground (arith, get_elem?-append_one k.candidates x (length k.candidates))) (omega arith))
    | quieter i old pl seen held less e ↦ rw e (
        plain i x pl seen (ground (arith, get_elem?-set k.candidates i i x old held)) (omega arith))
    | louder i old pl seen held more e ↦ rw e (plain i old pl seen held more)
  ]

  -- what is held stays held
  Held-offer :
      (e : Candidate F) (k : Kept F) (x : Candidate F) → IsIndexed k → Held e k → Held e (offer k x)
  Held-offer e k x ok (secure i sec g) = elim (offer-cases k x ok) [
    | core _ q ↦ rw q (secure i sec (get_elem?-append_some k.candidates x e i g))
    | fresh _ _ q ↦ rw q (secure i sec (get_elem?-append_some k.candidates x e i g))
    | quieter j old pl seen held less q ↦ rw q (
        secure i sec (
          let (c, g', _, f') = ok.points x.entry_ip j seen in
          ground (arith, get_elem?-set k.candidates j i x old held, g, g', f')))
    | louder _ _ _ _ _ _ q ↦ rw q (secure i sec g)
  ]
  Held-offer e k x ok (plain i c pl seen_e g le) = elim (offer-cases k x ok) [
    | core _ q ↦ rw q (plain i c pl seen_e (get_elem?-append_some k.candidates x c i g) le)
    | fresh _ unseen q ↦ rw q (
        plain i c pl
          (ground (
            arith,
            find-put x.entry_ip e.entry_ip (length k.candidates) k.index,
            addr_beq_iff x.entry_ip e.entry_ip,
          ))
          (get_elem?-append_some k.candidates x c i g) le)
    | quieter j old _ seen held less q ↦ elim (Bool-cases (j == i)) [
      | inl same ↦ rw q (
          plain i x pl seen_e (ground (arith, get_elem?-set k.candidates j i x old held))
            (ground (arith, g, held)))
      | inr other ↦
          rw q
            (plain i c pl seen_e (ground (arith, get_elem?-set k.candidates j i x old held, g)) le)
    ]
    | louder _ _ _ _ _ _ q ↦ rw q (plain i c pl seen_e g le)
  ]

  Held-offer_all :
      (e : Candidate F) (k : Kept F) (cs : List (Candidate F))
      → IsIndexed k
      → Held e k
      → Held e (offer_all k cs)
  unfolding offer_all
  Held-offer_all e k [] ok h = h
  Held-offer_all e k (c ∷ cs) ok h =
      Held-offer_all e (offer k c) cs (offer-IsIndexed k c ok) (Held-offer e k c ok h)

  offer_all-Held :
      (e : Candidate F) (k : Kept F) (cs : List (Candidate F))
      → IsIndexed k
      → Memᴰ e cs
      → Held e (offer_all k cs)
  unfolding offer_all
  offer_all-Held e k [] ok m = elim m [ ]
  offer_all-Held e k (c ∷ cs) ok (Memᴰ.head q) =
      Held-offer_all e (offer k c) cs (offer-IsIndexed k c ok)
        (subst (λ x. Held x (offer k c)) (sym q) (offer-Held k c ok))
  offer_all-Held e k (c ∷ cs) ok (Memᴰ.tail m) =
      offer_all-Held e (offer k c) cs (offer-IsIndexed k c ok) m

  Held-Covered : (e : Candidate F) (k : Kept F) → IsIndexed k → Held e k → Covered e k.candidates
  Held-Covered e k ok (secure i sec g) = inl (sec, mem_of_get_elem? k.candidates i g)
  Held-Covered e k ok (plain i c pl seen g le) =
      let (c', g', same, pl') = ok.points e.entry_ip i seen in
      inr (
        pl,
        (
          c,
          mem_of_get_elem? k.candidates i g,
          ground (arith, g, g', same),
          ground (arith, g, g', pl'),
          le,
        ),
      )

  offer_count :
      (k : Kept F) (x : Candidate F)
      → IsIndexed k
      → length (offer k x).candidates + (offer k x).duplicates
        ≡ suc (length k.candidates + k.duplicates)
  offer_count k x ok = elim (offer-cases k x ok) [
    | core _ q ↦ rw q (omega (arith, length-append k.candidates (x ∷ [])))
    | fresh _ _ q ↦ rw q (omega (arith, length-append k.candidates (x ∷ [])))
    | quieter i _ _ _ _ _ q ↦ rw q (omega (arith, length-set k.candidates i x))
    | louder _ _ _ _ _ _ q ↦ rw q (omega arith)
  ]

  offer_all_count :
      (k : Kept F) (cs : List (Candidate F))
      → IsIndexed k
      → length (offer_all k cs).candidates + (offer_all k cs).duplicates
        ≡ length cs + (length k.candidates + k.duplicates)
  unfolding offer_all
  offer_all_count k [] ok = omega arith
  offer_all_count k (c ∷ cs) ok =
      omega (arith, offer_all_count (offer k c) cs (offer-IsIndexed k c ok), offer_count k c ok)

  module _ (p : Platform) (o : Options) (logicals : List (LogicalServer F)) where
    built : Kept F
    built = offer_all nothing (eligible p o logicals)

    built-IsIndexed : IsIndexed built
    unfolding built
    built-IsIndexed = offer_all-IsIndexed nothing (eligible p o logicals) nothing-IsIndexed

    built_lem : (build p o logicals).0 ≡ built.candidates
    unfolding built
    built_lem = (build-eligible p o logicals).0

    -- Everything that `Build` returns is a machine that every filter lets through.
    pub build_sound : All (λ c. Memᴰ c (eligible p o logicals)) (build p o logicals).0
    unfolding built
    build_sound = rw built_lem (
        offer_all-All (λ c. Memᴰ c (eligible p o logicals)) nothing (eligible p o logicals)
          nothing-IsIndexed
          (All-of_mem (λ c. Memᴰ c (eligible p o logicals)) (eligible p o logicals) (λ a m. m)) tt)

    -- Every machine that the filters let through is in the result if it is Secure Core; if it is
    -- not, the result has a machine with its entry address whose load is no higher.
    pub build_complete :
        (e : Candidate F) → Memᴰ e (eligible p o logicals) → Covered e (build p o logicals).0
    unfolding built
    build_complete e m = subst (Covered e) (sym built_lem) (
        Held-Covered e built built-IsIndexed
          (offer_all-Held e nothing (eligible p o logicals) nothing-IsIndexed m))

    -- Two places of the result that hold machines outside Secure Core with one entry address are
    -- the same place.
    pub build_unique :
        (i j : ℕ) (c d : Candidate F)
        → get_elem? (build p o logicals).0 i ≡ some c
        → get_elem? (build p o logicals).0 j ≡ some d
        → c.secure_core ≡ false
        → d.secure_core ≡ false
        → c.entry_ip ≡ d.entry_ip
        → i ≡ j
    build_unique i j c d gi gj pc pd same =
        let at_c = built-IsIndexed.complete i c (rw built_lem at gi) pc in
        let at_d = built-IsIndexed.complete j d (rw built_lem at gj) pd in
        ground (arith, at_c, at_d, same)

    -- The counters account for every machine that the filters let through: it is kept or counted
    -- as a duplicate, and `PhysicalKept` is the number of candidates.
    pub build_accounts :
        ((build p o logicals).1.physical_kept + (build p o logicals).1.duplicate_skipped
          ≡ length (eligible p o logicals))
        × ((build p o logicals).1.physical_kept ≡ length (build p o logicals).0)
    build_accounts =
        let (same, dup, count) = build-eligible p o logicals in
        (
          omega (
            arith,
            offer_all_count nothing (eligible p o logicals) nothing-IsIndexed,
            dup,
            count,
            ap length same,
          ),
          count,
        )

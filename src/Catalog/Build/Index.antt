-- ===== src/Catalog/Build/Index.antt =====
-- The index by entry address, and what one more offered machine does to what is kept.
use gluetun_proton_list_upda.Prelude.{
  ℕ, suc, ◌≤◌, ◌<◌, ltb→lt, ltb_false→le, ◌≡◌, ap, true, false, List, [], ◌∷◌, ◌++◌, none, some,
  ltb, ◌==◌, if◌then◌else◌, length, get_elem?, get_elem?-append_one, get_elem?-set,
  get_elem?-length, set, arith, Bool-cases, Option-cases, inl, inr,
}
use gluetun_proton_list_upda.Prelude.Addr.{Addr, addr_eq, addr_beq, addr_beq_iff}
use gluetun_proton_list_upda.Prelude.Table.{find, put, find-put}
use gluetun_proton_list_upda.Catalog.{Candidate}
use gluetun_proton_list_upda.Catalog.Build.Eligible.{Kept, nothing, offer, keep_quieter, offer_all}

module _ {F : Type 0} where
  -- The index finds exactly the position of the kept machine with that address; Secure Core
  -- machines are not indexed.
  pub record IsIndexed (k : Kept F) : Type 0 where
    pub points :
        (ip : Addr) (i : ℕ)
        → find ip k.index ≡ some i
        → (c : Candidate F) × (get_elem? k.candidates i ≡ some c)
          × (c.entry_ip ≡ ip)
          × (c.secure_core ≡ false)
    pub complete :
        (i : ℕ) (c : Candidate F)
        → get_elem? k.candidates i ≡ some c
        → c.secure_core ≡ false
        → find c.entry_ip k.index ≡ some i

  -- The four things that offering a machine can do.
  pub data Offered (k : Kept F) (x : Candidate F) (r : Kept F) : Type 0 where
    core :
        x.secure_core ≡ true → r ≡ record k { candidates = k.candidates ++ x ∷ [] } → Offered k x r
    fresh :
        x.secure_core ≡ false
        → find x.entry_ip k.index ≡ none
        → r ≡ record k {
          candidates = k.candidates ++ x ∷ [];
          index = put x.entry_ip (length k.candidates) k.index;
        }
        → Offered k x r
    quieter :
        (i : ℕ) (old : Candidate F)
        → x.secure_core ≡ false
        → find x.entry_ip k.index ≡ some i
        → get_elem? k.candidates i ≡ some old
        → x.load < old.load
        → r ≡ record k { candidates = set k.candidates i x; duplicates = suc k.duplicates }
        → Offered k x r
    louder :
        (i : ℕ) (old : Candidate F)
        → x.secure_core ≡ false
        → find x.entry_ip k.index ≡ some i
        → get_elem? k.candidates i ≡ some old
        → old.load ≤ x.load
        → r ≡ record k { duplicates = suc k.duplicates }
        → Offered k x r

  pub offer-cases : (k : Kept F) (x : Candidate F) → IsIndexed k → Offered k x (offer k x)
  unfolding offer keep_quieter
  offer-cases k x ok = elim (Bool-cases x.secure_core) [
    | inl secure ↦ core secure (ground arith)
    | inr plain ↦ elim (Option-cases (find x.entry_ip k.index)) [
      | inl unseen ↦ fresh plain unseen (ground arith)
      | inr (i, seen) ↦
          let (old, held, e, f) = ok.points x.entry_ip i seen in
          elim (Bool-cases (ltb x.load old.load)) [
            | inl less ↦ quieter i old plain seen held (ltb→lt x.load old.load less) (ground arith)
            | inr not_less ↦
                louder i old plain seen held (ltb_false→le x.load old.load not_less) (ground arith)
          ]
    ]
  ]

  -- a position that holds something is not the length
  pub get_elem?-append_some :
      (xs : List (Candidate F)) (x c : Candidate F) (i : ℕ)
      → get_elem? xs i ≡ some c
      → get_elem? (xs ++ x ∷ []) i ≡ some c
  get_elem?-append_some xs x c i h =
      ground (arith, get_elem?-append_one xs x i, get_elem?-length xs, ap (get_elem? xs))

  module _ (k : Kept F) (ok : IsIndexed k) (x : Candidate F) where
    secure-IsIndexed :
        x.secure_core ≡ true → IsIndexed (record k { candidates = k.candidates ++ x ∷ [] })
    secure-IsIndexed secure = record {
      points = λ ip i h.
          let (c, g, e, f) = ok.points ip i h in
          (c, get_elem?-append_some k.candidates x c i g, e, f);
      complete = λ i c g f. ground (arith, get_elem?-append_one k.candidates x i, ok.complete i c);
    }

    new-IsIndexed :
        x.secure_core ≡ false
        → find x.entry_ip k.index ≡ none
        → IsIndexed (record k {
          candidates = k.candidates ++ x ∷ [];
          index = put x.entry_ip (length k.candidates) k.index;
        })
    new-IsIndexed plain unseen = record {
      points = λ ip i h. new_points ip i h;
      complete = λ i c g f. rw find-put (new_complete i c g f);
    }
      where
        new_points :
            (ip : Addr) (i : ℕ)
            → find ip (put x.entry_ip (length k.candidates) k.index) ≡ some i
            → (c : Candidate F) × (get_elem? (k.candidates ++ x ∷ []) i ≡ some c)
              × (c.entry_ip ≡ ip)
              × (c.secure_core ≡ false)
        new_points ip i h = elim (Bool-cases (addr_beq x.entry_ip ip)) [
          | inl same ↦ (
            x,
            ground (
              arith,
              h,
              find-put x.entry_ip ip (length k.candidates) k.index,
              get_elem?-append_one k.candidates x i,
            ),
            (addr_beq_iff x.entry_ip ip).0 same,
            plain,
          )
          | inr other ↦
              let (c, g, e, f) =
                ok.points ip i
                  (ground (arith, h, find-put x.entry_ip ip (length k.candidates) k.index)) in
              (c, get_elem?-append_some k.candidates x c i g, e, f)
        ]

        new_complete :
            (i : ℕ) (c : Candidate F)
            → get_elem? (k.candidates ++ x ∷ []) i ≡ some c
            → c.secure_core ≡ false
            → (if addr_beq x.entry_ip c.entry_ip
                then some (length k.candidates)
                else find c.entry_ip k.index)
              ≡ some i
        new_complete i c g f = ground (
          arith,
          get_elem?-append_one k.candidates x i,
          ok.complete i c,
          addr_beq_iff x.entry_ip c.entry_ip,
        )

    module _ (i : ℕ) (old : Candidate F) (held : get_elem? k.candidates i ≡ some old)
        (plain : x.secure_core ≡ false) (seen : find x.entry_ip k.index ≡ some i) where
      replace_points :
          (ip : Addr) (j : ℕ)
          → find ip k.index ≡ some j
          → (c : Candidate F) × (get_elem? (set k.candidates i x) j ≡ some c)
            × (c.entry_ip ≡ ip)
            × (c.secure_core ≡ false)
      replace_points ip j h =
          let (c, g, e, f) = ok.points ip j h in
          let (c', g', e', f') = ok.points x.entry_ip i seen in
          elim (Bool-cases (i == j)) [
            | inl same ↦ (
              x,
              ground (arith, get_elem?-set k.candidates i j x old held),
              ground (arith, g, g', e, e'),
              plain,
            )
            | inr other ↦ (c, ground (arith, get_elem?-set k.candidates i j x old held, g), e, f)
          ]

      replace_complete :
          (j : ℕ) (c : Candidate F)
          → get_elem? (set k.candidates i x) j ≡ some c
          → c.secure_core ≡ false
          → find c.entry_ip k.index ≡ some j
      replace_complete j c g f =
          ground (arith, get_elem?-set k.candidates i j x old held, ok.complete j c, seen)

  pub offer-IsIndexed : (k : Kept F) (x : Candidate F) → IsIndexed k → IsIndexed (offer k x)
  offer-IsIndexed k x ok = elim (offer-cases k x ok) [
    | core secure e ↦ rw e (secure-IsIndexed k ok x secure)
    | fresh plain unseen e ↦ rw e (new-IsIndexed k ok x plain unseen)
    | quieter i old plain seen held less e ↦ rw e (record {
      points = replace_points k ok x i old held plain seen;
      complete = replace_complete k ok x i old held plain seen;
    })
    | louder i old plain seen held more e ↦
        rw e (record { points = ok.points; complete = ok.complete })
  ]

  pub offer_all-IsIndexed :
      (k : Kept F) (cs : List (Candidate F)) → IsIndexed k → IsIndexed (offer_all k cs)
  unfolding offer_all
  offer_all-IsIndexed k [] ok = ok
  offer_all-IsIndexed k (c ∷ cs) ok = offer_all-IsIndexed (offer k c) cs (offer-IsIndexed k c ok)

  pub nothing-IsIndexed : IsIndexed (nothing {F = F})
  unfolding find
  nothing-IsIndexed = record { points = λ ip i h. cc; complete = λ i c h. cc }

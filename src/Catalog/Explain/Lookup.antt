-- ===== src/Catalog/Explain/Lookup.antt =====
-- internal/catalog/explain.go: the table of the candidates by entry address.
use gluetun_proton_list_upda.Prelude.{
  true, ◌≡◌, ◌⊎◌, refl, sym, ap, ◌∙◌, subst, List, [], ◌∷◌, Option, some, if◌then◌else◌, keep,
  arith, Bool-cases, inl, inr, Memᴰ, mem-map, mem-keep, mem_append_left, mem_append_right,
}
use gluetun_proton_list_upda.Prelude.Addr.{Addr, addr_eq, addr_beq, addr_beq_iff}
use gluetun_proton_list_upda.Prelude.Table.{Table, find, put, find-put}
use gluetun_proton_list_upda.Platform.{Platform}
use gluetun_proton_list_upda.Proton.{LogicalServer, PhysicalServer}
use gluetun_proton_list_upda.Catalog.{Candidate, Options, deref, resolve_country}
use gluetun_proton_list_upda.Catalog.Build.{build, to_candidate}
use gluetun_proton_list_upda.Catalog.Build.Eligible.{admitted, usable, candidates_of, eligible}
use gluetun_proton_list_upda.Catalog.Build.Kept.{build_complete}
use gluetun_proton_list_upda.Catalog.Explain.{by_entry_ip}

module _ {F : Type 0} where
  -- What the table by address has is a candidate with that address, or was there before.
  by_entry_ip_sound :
      (ip : Addr) (c : Candidate F) (m : Table Addr (Candidate F)) (cs : List (Candidate F))
      → find ip (by_entry_ip m cs) ≡ some c
      → (Memᴰ c cs × (c.entry_ip ≡ ip)) ⊎ (find ip m ≡ some c)
  unfolding by_entry_ip
  by_entry_ip_sound ip c m [] h = inr h
  by_entry_ip_sound ip c m (d ∷ cs) h = elim (by_entry_ip_sound ip c (put d.entry_ip d m) cs h) [
    | inl (n, e) ↦ inl (Memᴰ.tail n, e)
    | inr g ↦ elim (Bool-cases (addr_beq d.entry_ip ip)) [
      | inl same ↦
          let q : d ≡ c = ground (arith, find-put d.entry_ip ip d m) in
          inl (
            Memᴰ.head (sym q),
            ap (λ (x : Candidate F). x.entry_ip) (sym q) ∙ (addr_beq_iff d.entry_ip ip).0 same,
          )
      | inr other ↦ inr (ground (arith, find-put d.entry_ip ip d m))
    ]
  ]

  by_entry_ip_old :
      (ip : Addr) (c : Candidate F) (m : Table Addr (Candidate F)) (cs : List (Candidate F))
      → find ip m ≡ some c
      → (d : Candidate F) × (find ip (by_entry_ip m cs) ≡ some d)
  unfolding by_entry_ip
  by_entry_ip_old ip c m [] h = (c, h)
  by_entry_ip_old ip c m (d ∷ cs) h = elim (Bool-cases (addr_beq d.entry_ip ip)) [
    | inl same ↦
        by_entry_ip_old ip d (put d.entry_ip d m) cs (ground (arith, find-put d.entry_ip ip d m))
    | inr other ↦
        by_entry_ip_old ip c (put d.entry_ip d m) cs (ground (arith, find-put d.entry_ip ip d m))
  ]

  -- Every candidate's address has one.
  by_entry_ip_complete :
      (c : Candidate F) (m : Table Addr (Candidate F)) (cs : List (Candidate F))
      → Memᴰ c cs
      → (d : Candidate F) × (find c.entry_ip (by_entry_ip m cs) ≡ some d)
  unfolding by_entry_ip
  by_entry_ip_complete c m [] n = elim n [ ]
  by_entry_ip_complete c m (d ∷ cs) (Memᴰ.head e) =
      by_entry_ip_old c.entry_ip d (put d.entry_ip d m) cs (
        find-put d.entry_ip c.entry_ip d m
        ∙ rw ((addr_beq_iff d.entry_ip c.entry_ip).1 (ap (λ (x : Candidate F). x.entry_ip) (sym e)))
            refl)
  by_entry_ip_complete c m (d ∷ cs) (Memᴰ.tail n) = by_entry_ip_complete c (put d.entry_ip d m) cs n

  module _ (p : Platform) (o : Options) (logicals : List (LogicalServer F)) where
    abbrev pub kept_at : Addr → Option (Candidate F)
    kept_at ip = find ip (by_entry_ip [] (build p o logicals).0)

    pub kept_at_sound :
        (ip : Addr) (c : Candidate F)
        → kept_at ip ≡ some c
        → Memᴰ c (build p o logicals).0 × (c.entry_ip ≡ ip)
    unfolding find
    kept_at_sound ip c h = elim (by_entry_ip_sound ip c [] (build p o logicals).0 h) [
      | inl found ↦ found
      | inr none_yet ↦ cc
    ]

    eligible-mem :
        (l : LogicalServer F) (s : PhysicalServer) (some_of : List (LogicalServer F))
        → Memᴰ l some_of
        → Memᴰ s l.servers
        → admitted p o l ≡ true
        → usable o s ≡ true
        → Memᴰ
            (to_candidate p o l (resolve_country p l).0 (deref p l.city) s)
            (eligible p o some_of)
    unfolding eligible candidates_of
    eligible-mem l s [] m n a u = elim m [ ]
    eligible-mem l s (k ∷ ks) (Memᴰ.head e) n a u =
        let place = to_candidate p o l (resolve_country p l).0 (deref p l.city) in
        let here : Memᴰ (place s) (if admitted p o l then candidates_of p o l l.servers else []) =
          rw a (mem-map place (keep (usable o) l.servers) (mem-keep (usable o) l.servers n u)) in
        mem_append_left _ (eligible p o ks) (
          subst (λ j. Memᴰ (place s) (if admitted p o j then candidates_of p o j j.servers else []))
            e here)
    eligible-mem l s (k ∷ ks) (Memᴰ.tail m) n a u =
        mem_append_right (if admitted p o k then candidates_of p o k k.servers else []) _
          (eligible-mem l s ks m n a u)

    -- a machine that every filter lets through has a candidate at its address
    pub kept_at-some :
        (l : LogicalServer F) (s : PhysicalServer)
        → Memᴰ l logicals
        → Memᴰ s l.servers
        → admitted p o l ≡ true
        → usable o s ≡ true
        → (d : Candidate F) × (kept_at s.entry_ip ≡ some d)
    unfolding to_candidate
    kept_at-some l s m n a u =
        elim (build_complete p o logicals _ (eligible-mem l s logicals m n a u)) [
          | inl (_, here) ↦ by_entry_ip_complete _ [] _ here
          | inr (_, (c, here, same, _, _)) ↦
              let (d, e) = by_entry_ip_complete c [] _ here in
              (d, subst (λ ip. kept_at ip ≡ some d) same e)
        ]

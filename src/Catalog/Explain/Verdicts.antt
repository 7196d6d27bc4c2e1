-- ===== src/Catalog/Explain/Verdicts.antt =====
-- internal/catalog/explain.go against internal/catalog/catalog.go: the explanations agree with `Build`.
use gluetun_proton_list_upda.Catalog.Explain.Rules.{is_none-logical_reasons}
use gluetun_proton_list_upda.Prelude.{
  String, Bool, true, false, not, ◌≡◌, ◌≢◌, ◌↔◌, ◌⊎◌, refl, sym, ap, ◌∙◌, subst, List, [], ◌∷◌,
  none, some, str_eq, str_eq_iff, map, arith, Bool-cases, Option-cases, inl, inr, Memᴰ, All,
  get_elem?, get_elem?_of_mem,
}
use gluetun_proton_list_upda.Prelude.Addr.{Addr, addr_eq}
use gluetun_proton_list_upda.Prelude.Table.{Table, find}
use gluetun_proton_list_upda.Platform.{Platform}
use gluetun_proton_list_upda.Proton.{LogicalServer, PhysicalServer}
use gluetun_proton_list_upda.Catalog.{Candidate, Options}
use gluetun_proton_list_upda.Catalog.Build.{build, connectable}
use gluetun_proton_list_upda.Catalog.Build.Eligible.{admitted, usable}
use gluetun_proton_list_upda.Catalog.Build.Kept.{build_unique}
use gluetun_proton_list_upda.Catalog.Explain.Lookup.{kept_at, kept_at-some, kept_at_sound}
use gluetun_proton_list_upda.Catalog.Explain.{
  unexplained, of_machine, PhysicalExplanation, Explanation, logical_reasons, by_entry_ip,
  judge_kept, explain_machine, explain_logical, explain_matching, explain, matches, is_none,
  any_included, machine_reasons,
}

-- A machine has a rule as its reason, if it has one.
abbrev pub IsExplained : PhysicalExplanation → Type 0
IsExplained m = m.reason ≢ some unexplained

-- It has one if it is not included.
abbrev pub IsReasoned : PhysicalExplanation → Type 0
IsReasoned m = m.included ≡ false → m.reason ≢ none

-- And none if it is included.
abbrev pub IsSilent : PhysicalExplanation → Type 0
IsSilent m = m.included ≡ true → m.reason ≡ none

-- What an explanation owes its reader: a server that is included has no reasons, one that is not has
-- a reason if it has a machine, each machine that is not included has a rule as its reason, and one
-- that is included has none.
pub record IsAnswer (x : Explanation) : Type 0 where
  pub no_reasons : x.included ≡ true → x.reasons ≡ []
  pub some_reason : x.included ≡ false → x.reasons ≡ [] → x.physical ≡ []
  pub explained : All IsExplained x.physical
  pub reasoned : All IsReasoned x.physical
  pub silent : All IsSilent x.physical

machine_reasons_none :
    (ms : List PhysicalExplanation)
    → All IsReasoned ms
    → any_included ms ≡ false
    → machine_reasons ms ≡ []
    → ms ≡ []
machine_reasons_none [] h off none_left = refl
machine_reasons_none (m ∷ ms) h off none_left =
    let out : m.included ≡ false = ground arith in
    elim (Option-cases m.reason) [
      | inl n ↦ absurd (h.0 out n)
      | inr (why, e) ↦
          let said : machine_reasons (m ∷ ms) ≡ of_machine why ∷ machine_reasons ms = rw e refl in
          cc
    ]

module _ {F : Type 0} where
  module _ (p : Platform) (o : Options) (logicals : List (LogicalServer F)) where
    -- What `explain_machine` tells of a machine that every filter lets through.
    abbrev verdict : LogicalServer F → PhysicalServer → PhysicalExplanation
    verdict l s = explain_machine o (by_entry_ip [] (build p o logicals).0) false l s

    verdict-judge_kept :
        (l : LogicalServer F) (s : PhysicalServer)
        → usable o s ≡ true
        → verdict l s ≡ judge_kept l s (kept_at p o logicals s.entry_ip)
    unfolding explain_machine usable connectable
    verdict-judge_kept l s u = ground arith

    -- The candidate that stands for a machine: at its address, of its server or with its hostname.
    abbrev pub StandsFor : Candidate F → LogicalServer F → PhysicalServer → Type 0
    StandsFor c l s = (c.entry_ip ≡ s.entry_ip) × ((c.logical_id ≡ l.id) ⊎ (c.hostname ≡ s.domain))

    judge_kept_included :
        (l : LogicalServer F) (s : PhysicalServer) (c : Candidate F)
        → (judge_kept l s (some c)).included ≡ true
        → (c.logical_id ≡ l.id) ⊎ (c.hostname ≡ s.domain)
    unfolding judge_kept
    judge_kept_included l s c h = elim (Bool-cases (str_eq c.logical_id l.id)) [
      | inl t ↦ inl ((str_eq_iff c.logical_id l.id).0 t)
      | inr f ↦ elim (Bool-cases (str_eq c.hostname s.domain)) [
        | inl t ↦ inr ((str_eq_iff c.hostname s.domain).0 t)
        | inr g ↦ absurd (ground arith)
      ]
    ]

    judge_kept_stands :
        (l : LogicalServer F) (s : PhysicalServer) (c : Candidate F)
        → (c.logical_id ≡ l.id) ⊎ (c.hostname ≡ s.domain)
        → (judge_kept l s (some c)).included ≡ true
    unfolding judge_kept
    judge_kept_stands l s c h =
        ground (arith, str_eq_iff c.logical_id l.id, str_eq_iff c.hostname s.domain)

    same_candidate :
        (c d : Candidate F)
        → Memᴰ c (build p o logicals).0
        → Memᴰ d (build p o logicals).0
        → c.secure_core ≡ false
        → d.secure_core ≡ false
        → c.entry_ip ≡ d.entry_ip
        → c ≡ d
    same_candidate c d m n pc pd e =
        let (i, gi) = get_elem?_of_mem (build p o logicals).0 m in
        let (j, gj) = get_elem?_of_mem (build p o logicals).0 n in
        let ij = build_unique p o logicals i j c d gi gj pc pd e in
        let both : some c ≡ some d = sym gi ∙ ap (get_elem? (build p o logicals).0) ij ∙ gj in cc

    -- For a machine that every filter lets through, of a server of the list, and a list without Secure
    -- Core candidates: the explanation says included exactly where a candidate has the machine's
    -- address and either its server's id or its hostname.
    pub explain_machine_exact :
        (l : LogicalServer F) (s : PhysicalServer)
        → Memᴰ l logicals
        → Memᴰ s l.servers
        → admitted p o l ≡ true
        → usable o s ≡ true
        → ((c : Candidate F) → Memᴰ c (build p o logicals).0 → c.secure_core ≡ false)
        → ((explain_machine o (by_entry_ip [] (build p o logicals).0) false l s).included ≡ true)
          ↔ ((c : Candidate F) × Memᴰ c (build p o logicals).0 × StandsFor c l s)
    explain_machine_exact l s m n a u plain =
        let (d, found) = kept_at-some p o logicals l s m n a u in
        let told : verdict l s ≡ judge_kept l s (some d) =
          verdict-judge_kept l s u ∙ ap (judge_kept l s) found in
        let (here, at) = kept_at_sound p o logicals s.entry_ip d found in
        (
          λ h. (
            d,
            here,
            (
              at,
              judge_kept_included l s d
                  (sym (ap (λ (x : PhysicalExplanation). x.included) told) ∙ h),
            ),
          ),
          λ (c, there, (at', stands)).
              let same =
                same_candidate c d there here (plain c there) (plain d here) (at' ∙ sym at) in
              ap (λ (x : PhysicalExplanation). x.included) told
              ∙ judge_kept_stands l s d
                  (subst (λ x. (x.logical_id ≡ l.id) ⊎ (x.hostname ≡ s.domain)) same stands),
        )

    judge_kept_explained :
        (l : LogicalServer F) (s : PhysicalServer) (c : Candidate F)
        → (judge_kept l s (some c)).reason ≢ some unexplained
    unfolding judge_kept
    judge_kept_explained l s c h = ground arith

    unusable-IsExplained :
        (kept : Table Addr (Candidate F)) (l : LogicalServer F) (s : PhysicalServer)
        → usable o s ≡ false
        → IsExplained (explain_machine o kept false l s)
    unfolding explain_machine usable connectable
    unusable-IsExplained kept l s u h = ground arith

    rejected-IsExplained :
        (kept : Table Addr (Candidate F)) (l : LogicalServer F) (s : PhysicalServer)
        → IsExplained (explain_machine o kept true l s)
    unfolding explain_machine
    rejected-IsExplained kept l s h = ground arith

    explain_machine-IsExplained :
        (l : LogicalServer F) (s : PhysicalServer) (rejected : Bool)
        → Memᴰ l logicals
        → Memᴰ s l.servers
        → rejected ≡ not (admitted p o l)
        → IsExplained (explain_machine o (by_entry_ip [] (build p o logicals).0) rejected l s)
    explain_machine-IsExplained l s true m n e = rejected-IsExplained _ l s
    explain_machine-IsExplained l s false m n e = elim (Bool-cases (usable o s)) [
      | inr off ↦ unusable-IsExplained _ l s off
      | inl on ↦
          let (d, found) = kept_at-some p o logicals l s m n (ground arith) on in
          let told : verdict l s ≡ judge_kept l s (some d) =
            verdict-judge_kept l s on ∙ ap (judge_kept l s) found in
          λ h.
            judge_kept_explained l s d (sym (ap (λ (x : PhysicalExplanation). x.reason) told) ∙ h)
    ]

    machines-IsExplained :
        (l : LogicalServer F) (rejected : Bool) (servers : List PhysicalServer)
        → Memᴰ l logicals
        → ((s : PhysicalServer) → Memᴰ s servers → Memᴰ s l.servers)
        → rejected ≡ not (admitted p o l)
        → All IsExplained
            (map (explain_machine o (by_entry_ip [] (build p o logicals).0) rejected l) servers)
    machines-IsExplained l rejected [] m sub e = tt
    machines-IsExplained l rejected (s ∷ rest) m sub e = (
      explain_machine-IsExplained l s rejected m (sub s (Memᴰ.head refl)) e,
      machines-IsExplained l rejected rest m (λ t n. sub t (Memᴰ.tail n)) e,
    )

    explain_machine-IsReasoned :
        (kept : Table Addr (Candidate F)) (l : LogicalServer F) (rejected : Bool)
        (s : PhysicalServer)
        → IsReasoned (explain_machine o kept rejected l s)
    unfolding explain_machine judge_kept
    explain_machine-IsReasoned kept l rejected s out none_given =
        elim (Option-cases (find s.entry_ip kept)) [
          | inl n ↦ ground arith
          | inr (c, e) ↦ ground arith
        ]

    machines-IsReasoned :
        (kept : Table Addr (Candidate F)) (l : LogicalServer F) (rejected : Bool)
        (servers : List PhysicalServer)
        → All IsReasoned (map (explain_machine o kept rejected l) servers)
    machines-IsReasoned kept l rejected [] = tt
    machines-IsReasoned kept l rejected (s ∷ rest) =
        (explain_machine-IsReasoned kept l rejected s, machines-IsReasoned kept l rejected rest)

    explain_machine-IsSilent :
        (kept : Table Addr (Candidate F)) (l : LogicalServer F) (rejected : Bool)
        (s : PhysicalServer)
        → IsSilent (explain_machine o kept rejected l s)
    unfolding explain_machine judge_kept
    explain_machine-IsSilent kept l rejected s inside = elim (Option-cases (find s.entry_ip kept)) [
      | inl n ↦ ground arith
      | inr (c, e) ↦ ground arith
    ]

    machines-IsSilent :
        (kept : Table Addr (Candidate F)) (l : LogicalServer F) (rejected : Bool)
        (servers : List PhysicalServer)
        → All IsSilent (map (explain_machine o kept rejected l) servers)
    machines-IsSilent kept l rejected [] = tt
    machines-IsSilent kept l rejected (s ∷ rest) =
        (explain_machine-IsSilent kept l rejected s, machines-IsSilent kept l rejected rest)

    explain_logical-IsAnswer :
        (l : LogicalServer F)
        → Memᴰ l logicals
        → IsAnswer (explain_logical p o (by_entry_ip [] (build p o logicals).0) l)
    unfolding explain_logical
    explain_logical-IsAnswer l m =
        let kept = by_entry_ip [] (build p o logicals).0 in
        let rejected = not (is_none (logical_reasons p o l)) in
        let reasoned : All IsReasoned (map (explain_machine o kept rejected l) l.servers) =
          machines-IsReasoned kept l rejected l.servers in
        record {
          no_reasons = λ h. ground arith;
          some_reason = λ h k. machine_reasons_none _ reasoned h (ground arith);
          reasoned = reasoned;
          silent = machines-IsSilent kept l rejected l.servers;
          explained =
              machines-IsExplained l _ l.servers m (λ s n. n)
                (ap not (is_none-logical_reasons p o l));
        }

    explain_matching-IsAnswer :
        (query : String) (some_of : List (LogicalServer F))
        → ((l : LogicalServer F) → Memᴰ l some_of → Memᴰ l logicals)
        → All IsAnswer (explain_matching p o (by_entry_ip [] (build p o logicals).0) query some_of)
    unfolding explain_matching
    explain_matching-IsAnswer query [] sub = tt
    explain_matching-IsAnswer query (l ∷ rest) sub =
        let more = explain_matching-IsAnswer query rest (λ k n. sub k (Memᴰ.tail n)) in
        elim (Bool-cases (matches p l query)) [
          | inl t ↦ rw t (explain_logical-IsAnswer l (sub l (Memᴰ.head refl)), more)
          | inr f ↦ rw f more
        ]

    -- Every explanation that `Explain` gives is an answer: a server that is included has no reasons,
    -- one that is not has a reason unless it has no machines, a machine that is included has no
    -- reason, one that is not has one, and no reason is that no reported rule applies.
    pub explain-IsAnswer : (text : String) → All IsAnswer (explain p logicals o text)
    unfolding explain
    explain-IsAnswer text = elim (Bool-cases (str_eq (p.to_lower (p.trim_space text)) "")) [
      | inl t ↦ rw t tt
      | inr f ↦ rw f (explain_matching-IsAnswer _ logicals (λ l m. m))
    ]

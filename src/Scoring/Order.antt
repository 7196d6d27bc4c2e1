-- ===== src/Scoring/Order.antt =====
-- The ranking is the scored candidates in the order of `less`, and what `Find` and `TopN` read off it.
use mathlib.Core.List.{Perm}
use gluetun_proton_list_upda.Prelude.{
  ◌<◌, ◌⊎◌, ◌≡◌, ◌≢◌, refl, subst, ap, String, true, false, List, [], ◌∷◌, ◌++◌, none, some, arith,
  str_eq, str_eq_iff, All, Bool-cases, inl, inr,
}
use gluetun_proton_list_upda.Prelude.Text.{str_ltb, str_ltb-IsWeakOrder}
use gluetun_proton_list_upda.Prelude.Sort.{
  IsSorted, IsWeakOrderOn, sort_stable, sort_stable-perm, All-sort_stable, sort_stable-IsSorted_on,
}
use gluetun_proton_list_upda.Prelude.Real.{Float, IsOrdered, IsNumber}
use gluetun_proton_list_upda.Catalog.{Candidate}
use gluetun_proton_list_upda.Latency.{History}
use gluetun_proton_list_upda.Scoring.{Weights, Scored, less, score_all, rank, find_host}

module _ {F : Type 0} (fl : Float F) where
  abbrev pub IsScored : Scored F → Type 0
  IsScored s = IsNumber fl s.score

  -- `a` may stand before `b`: its score is lower, or the same with a lower load, or both are the same
  -- and its hostname is no later one.
  abbrev pub MayPrecede : Scored F → Scored F → Type 0
  MayPrecede a b =
      (fl.lt a.score b.score ≡ true)
      ⊎ ((fl.eq a.score b.score ≡ true)
          × ((a.candidate.load < b.candidate.load)
              ⊎ ((a.candidate.load ≡ b.candidate.load)
                  × (str_ltb b.candidate.hostname a.candidate.hostname ≡ false))))

  abbrev pub IsRanked : List (Scored F) → Type 0
  IsRanked [] = Unit
  IsRanked (s ∷ rest) = All (MayPrecede s) rest × IsRanked rest

module _ {F : Type 0} (fl : Float F) (ordered : IsOrdered fl) where
  less_asym :
      (a b : Scored F) → IsScored fl a → IsScored fl b → less fl a b ≡ true → less fl b a ≡ false
  unfolding less
  less_asym a b ga gb h = ground (
    arith,
    ordered.eq_iff a.score b.score ga gb,
    ordered.eq_iff b.score a.score gb ga,
    ordered.weak_order.asym a.score b.score ga gb,
    str_ltb-IsWeakOrder.asym a.candidate.hostname b.candidate.hostname,
  )

  less_not_trans :
      (a b c : Scored F)
      → IsScored fl a
      → IsScored fl b
      → IsScored fl c
      → less fl b a ≡ false
      → less fl c b ≡ false
      → less fl c a ≡ false
  unfolding less
  less_not_trans a b c ga gb gc h k = ground (
    arith,
    ordered.eq_iff b.score a.score gb ga,
    ordered.eq_iff c.score b.score gc gb,
    ordered.eq_iff c.score a.score gc ga,
    ordered.weak_order.not_less_trans a.score b.score c.score ga gb gc,
    ordered.weak_order.not_less_trans c.score b.score a.score gc gb ga,
    ordered.weak_order.not_less_trans c.score a.score b.score gc ga gb,
    ordered.weak_order.not_less_trans b.score a.score c.score gb ga gc,
    ordered.weak_order.not_less_trans b.score c.score a.score gb gc ga,
    ordered.weak_order.not_less_trans a.score c.score b.score ga gc gb,
    str_ltb-IsWeakOrder.not_less_trans a.candidate.hostname b.candidate.hostname
        c.candidate.hostname,
  )

  less-IsWeakOrderOn : IsWeakOrderOn (IsScored fl) (less fl)
  less-IsWeakOrderOn = record { asym = less_asym; not_less_trans = less_not_trans }

  MayPrecede-less :
      (a b : Scored F) → IsScored fl a → IsScored fl b → less fl b a ≡ false → MayPrecede fl a b
  unfolding less
  MayPrecede-less a b ga gb h =
      ground (arith, ordered.eq_iff a.score b.score ga gb, ordered.eq_iff b.score a.score gb ga)

  All-MayPrecede :
      (a : Scored F) (bs : List (Scored F))
      → IsScored fl a
      → All (IsScored fl) bs
      → All (λ b. less fl b a ≡ false) bs
      → All (MayPrecede fl a) bs
  All-MayPrecede a [] ga g h = tt
  All-MayPrecede a (b ∷ bs) ga g h =
      (MayPrecede-less a b ga g.0 h.0, All-MayPrecede a bs ga g.1 h.1)

  IsSorted-IsRanked :
      (l : List (Scored F)) → All (IsScored fl) l → IsSorted (less fl) l → IsRanked fl l
  IsSorted-IsRanked [] g s = tt
  IsSorted-IsRanked (a ∷ l) g s = (All-MayPrecede a l g.0 g.1 s.0, IsSorted-IsRanked l g.1 s.1)

  -- Where no score is NaN, and float64 compares other values as IEEE 754 says, `Rank` returns the
  -- scored candidates, each once, and every entry that stands before another has a lower score, or the
  -- same score and a lower load, or both the same and a hostname that is no later one.
  pub rank-IsRanked :
      (cs : List (Candidate F)) (h : History) (w : Weights F)
      → All (IsScored fl) (score_all fl cs h w)
      → Perm (rank fl cs h w) (score_all fl cs h w) × IsRanked fl (rank fl cs h w)
  unfolding rank
  rank-IsRanked cs h w g =
      let scored = score_all fl cs h w in
      let o = less-IsWeakOrderOn in
      (
        sort_stable-perm (less fl) scored,
        IsSorted-IsRanked (sort_stable (less fl) scored)
            (All-sort_stable (IsScored fl) (less fl) o scored g)
            (sort_stable-IsSorted_on (IsScored fl) (less fl) o scored g),
      )

module _ {F : Type 0} where
  abbrev pub Differs : String → Scored F → Type 0
  Differs host d = d.candidate.hostname ≢ host

  differs :
      (d : Scored F) (host : String) → str_eq d.candidate.hostname host ≡ false → Differs host d
  differs d host h e = ground (arith, str_eq_iff d.candidate.hostname host)

  -- the first entry with the hostname
  abbrev pub FirstOf : List (Scored F) → String → Scored F → Type 0
  FirstOf ranked host e =
      (before : List (Scored F)) × (after : List (Scored F)) × (ranked ≡ before ++ e ∷ after)
      × (e.candidate.hostname ≡ host)
      × All (Differs host) before

  find_host-FirstOf :
      (ranked : List (Scored F)) (host : String) (e : Scored F)
      → find_host ranked host ≡ some e
      → FirstOf ranked host e
  unfolding find_host
  find_host-FirstOf [] host e h = cc
  find_host-FirstOf (d ∷ rest) host e h = elim (Bool-cases (str_eq d.candidate.hostname host)) [
    | inl same ↦
        let q : d ≡ e = ground arith in
        subst (FirstOf (d ∷ rest) host) q
          ([], rest, refl, (str_eq_iff d.candidate.hostname host).0 same, tt)
    | inr other ↦
        let (before, after, split, named, none_before) =
          find_host-FirstOf rest host e (ground arith) in
        (d ∷ before, after, ap (λ l. d ∷ l) split, named, (differs d host other, none_before))
  ]

  find_host-none :
      (ranked : List (Scored F)) (host : String)
      → find_host ranked host ≡ none
      → All (Differs host) ranked
  unfolding find_host
  find_host-none [] host h = tt
  find_host-none (d ∷ rest) host h = elim (Bool-cases (str_eq d.candidate.hostname host)) [
    | inl same ↦ absurd (ground arith)
    | inr other ↦ (differs d host other, find_host-none rest host (ground arith))
  ]

  -- `Find` returns the first entry with the hostname, and nothing only where no entry has it.
  pub find_host_first :
      (ranked : List (Scored F)) (host : String)
      → ((e : Scored F) → find_host ranked host ≡ some e → FirstOf ranked host e)
        × (find_host ranked host ≡ none → All (Differs host) ranked)
  find_host_first ranked host = (find_host-FirstOf ranked host, find_host-none ranked host)

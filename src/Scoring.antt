-- ===== src/Scoring.antt =====
-- internal/scoring/scoring.go: candidates are ranked by a weighted sum of penalties; lower is
-- better. `F` with its operations stands for float64.
pub mod Order
pub mod Measured
use gluetun_proton_list_upda.Prelude.{
  ℕ, suc, String, Bool, true, false, not, ◌&&◌, ◌||◌, List, [], ◌∷◌, Option, none, some, ltb, leb,
  ◌==◌, str_eq, if◌then◌else◌, length, take, map,
}
use gluetun_proton_list_upda.Prelude.Addr.{Addr, addr_eq}
use gluetun_proton_list_upda.Prelude.Table.{find}
use gluetun_proton_list_upda.Prelude.Text.{str_ltb}
use gluetun_proton_list_upda.Prelude.Sort.{sort_stable}
use gluetun_proton_list_upda.Prelude.Real.{Float}
use gluetun_proton_list_upda.Catalog.{Candidate}
use gluetun_proton_list_upda.Latency
use gluetun_proton_list_upda.Latency.{Result, History}

-- The weights of the configuration; the ceiling is a duration in nanoseconds.
pub record Weights (F : Type 0) : Type 0 where
  pub load_weight : F
  pub latency_weight : F
  pub proton_score_weight : F
  pub unknown_latency_penalty : F
  pub latency_ceiling : ℕ

pub record Scored (F : Type 0) : Type 0 where
  pub candidate : Candidate F
  pub score : F
  pub load_penalty : F
  pub latency_penalty : F
  pub proton_penalty : F
  pub rtt : ℕ
  pub latency_known : Bool

module _ {F : Type 0} (fl : Float F) where
  unfoldable pub clamp_01 : F → F
  clamp_01 v =
      if fl.is_nan v
      then fl.naught
      else if fl.lt v fl.naught
      then fl.naught
      else if fl.lt fl.unit v
      then fl.unit
      else v

  -- the loop of `protonScoreRange`
  unfoldable pub score_range_from : F → F → List (Candidate F) → F × F
  score_range_from best worst [] = (best, worst)
  score_range_from best worst (c ∷ cs) =
      score_range_from (if fl.lt c.proton_score best then c.proton_score else best)
        (if fl.lt worst c.proton_score then c.proton_score else worst) cs

  unfoldable pub proton_score_range : List (Candidate F) → F × F
  unfolding score_range_from
  proton_score_range cs =
      let (best, worst) = score_range_from fl.infinity fl.neg_infinity cs in
      if fl.eq best fl.infinity then (fl.naught, fl.naught) else (best, worst)

  -- 150 ms where the configured ceiling is not positive
  unfoldable pub ceiling_of : Weights F → F
  ceiling_of w =
      let ceiling = fl.of_nat w.latency_ceiling in
      if fl.le ceiling fl.naught then fl.of_nat 150000000 else ceiling

  -- the usable measurement of a candidate
  unfoldable pub usable_result : History → Candidate F → Option Result
  usable_result h c = elim (find c.entry_ip h) [
    | none ↦ none
    | some r ↦ if Latency.is_ok r then some r else none
  ]

  unfoldable pub normalised_latency : Weights F → Option Result → F
  unfolding clamp_01 ceiling_of
  normalised_latency w none = w.unknown_latency_penalty
  normalised_latency w (some r) = clamp_01 (fl.div (fl.of_nat r.rtt) (ceiling_of w))

  abbrev pub rtt_of : Option Result → ℕ
  rtt_of none = 0
  rtt_of (some r) = r.rtt

  abbrev pub known_of : Option Result → Bool
  known_of none = false
  known_of (some r) = true

  -- one round of the loop of `Rank`
  unfoldable pub score : History → Weights F → F → F → Candidate F → Scored F
  unfolding clamp_01 normalised_latency usable_result
  score h w best span c =
      let measured = usable_result h c in
      let load_penalty =
        fl.mul w.load_weight (clamp_01 (fl.div (fl.of_nat c.load) (fl.of_nat 100))) in
      let latency_penalty = fl.mul w.latency_weight (clamp_01 (normalised_latency w measured)) in
      let proton_penalty =
        if fl.lt fl.naught w.proton_score_weight && fl.lt fl.naught span
        then fl.mul w.proton_score_weight (clamp_01 (fl.div (fl.sub c.proton_score best) span))
        else fl.naught in
      record {
        candidate = c;
        score = fl.add (fl.add load_penalty latency_penalty) proton_penalty;
        load_penalty = load_penalty;
        latency_penalty = latency_penalty;
        proton_penalty = proton_penalty;
        rtt = rtt_of measured;
        latency_known = known_of measured;
      }

  -- the comparison of `sortRanked`
  unfoldable pub less : Scored F → Scored F → Bool
  less a b =
      if not (fl.eq a.score b.score)
      then fl.lt a.score b.score
      else if not (a.candidate.load == b.candidate.load)
      then ltb a.candidate.load b.candidate.load
      else str_ltb a.candidate.hostname b.candidate.hostname

  unfoldable pub sort_ranked : List (Scored F) → List (Scored F)
  unfolding less
  sort_ranked = sort_stable less

  -- the scores before the sort
  unfoldable pub score_all : List (Candidate F) → History → Weights F → List (Scored F)
  unfolding proton_score_range score
  score_all cs h w =
      let (best, worst) = proton_score_range cs in map (score h w best (fl.sub worst best)) cs

  unfoldable pub rank : List (Candidate F) → History → Weights F → List (Scored F)
  unfolding sort_ranked score_all
  rank cs h w = sort_ranked (score_all cs h w)

module _ {F : Type 0} where
  -- `Find`
  unfoldable pub find_host : List (Scored F) → String → Option (Scored F)
  find_host [] host = none
  find_host (e ∷ rest) host =
      if str_eq e.candidate.hostname host then some e else find_host rest host

  -- `TopN`; a number that is not positive is given as 0
  unfoldable pub top_n : List (Scored F) → ℕ → List (Scored F)
  top_n ranked n = if n == 0 || leb (length ranked) n then ranked else take n ranked

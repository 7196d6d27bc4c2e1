-- ===== src/Engine/Tasks/Lists.antt =====
-- internal/engine/engine.go, `entryIPs`: the addresses that are probed.
use gluetun_proton_list_upda.Prelude.{
  ℕ, ◌≤◌, ◌<◌, ◌≡◌, refl, ap, ◌⊎◌, true, false, ◌&&◌, List, [], ◌∷◌, Bool-cases, inl, inr, arith,
  if◌then◌else◌, length, take, map, ltb, length-map, length-take,
}
use gluetun_proton_list_upda.Prelude.Addr.{Addr, addr_eq, addr_beq_iff}
use gluetun_proton_list_upda.Prelude.Real.{Float}
use gluetun_proton_list_upda.Latency.{is_wanted, History}
use gluetun_proton_list_upda.Scoring.{Scored, rank}
use gluetun_proton_list_upda.Engine.Core.{Engine}
use gluetun_proton_list_upda.Engine.Tasks.{distinct_addresses, entry_ips}

-- no address twice
abbrev pub IsDistinct : List Addr → Type 0
IsDistinct [] = Unit
IsDistinct (ip ∷ rest) = (is_wanted ip rest ≡ false) × IsDistinct rest

distinct_unseen :
    (ip : Addr) (l seen : List Addr)
    → is_wanted ip seen ≡ true
    → is_wanted ip (distinct_addresses l seen) ≡ false
unfolding is_wanted
distinct_unseen ip [] seen h = refl
distinct_unseen ip (j ∷ rest) seen h = elim (Bool-cases (is_wanted j seen)) [
  | inl t ↦ rw t (distinct_unseen ip rest seen h)
  | inr f ↦
      let k = distinct_unseen ip rest (j ∷ seen) (ground (arith, h)) in
      rw f (ground (arith, k, ap (λ x. is_wanted x seen), addr_beq_iff j ip))
]

distinct_addresses-IsDistinct : (l seen : List Addr) → IsDistinct (distinct_addresses l seen)
unfolding is_wanted
distinct_addresses-IsDistinct [] seen = tt
distinct_addresses-IsDistinct (j ∷ rest) seen = elim (Bool-cases (is_wanted j seen)) [
  | inl t ↦ rw t (distinct_addresses-IsDistinct rest seen)
  | inr f ↦ rw f (
    distinct_unseen j rest (j ∷ seen) (ground (arith, addr_beq_iff j j)),
    distinct_addresses-IsDistinct rest (j ∷ seen),
  )
]

length-distinct_addresses : (l seen : List Addr) → length (distinct_addresses l seen) ≤ length l
length-distinct_addresses [] seen = omega arith
length-distinct_addresses (j ∷ rest) seen =
    ground (arith, length-distinct_addresses rest seen, length-distinct_addresses rest (j ∷ seen))

-- A sweep dials no address twice, no more addresses than its limit where there is one, and the same
-- ones whatever has been measured before.
pub entry_ips_chosen :
    {F : Type 0} (fl : Float F) (limit : ℕ) (e : Engine F) (measured : History)
    → IsDistinct (entry_ips fl limit e)
      × ((limit ≡ 0) ⊎ (length (entry_ips fl limit e) ≤ limit))
      × (entry_ips fl limit (record e { probes = measured }) ≡ entry_ips fl limit e)
unfolding entry_ips
entry_ips_chosen fl limit e measured =
    let ranked = rank fl e.candidates [] (record e.cfg.score { latency_weight = fl.naught }) in
    let best = if ltb 0 limit && ltb limit (length ranked) then take limit ranked else ranked in
    let few : 0 < limit → length best ≤ limit = λ h. ground (arith, length-take limit ranked) in
    let ips = map (λ (s : Scored _). s.candidate.entry_ip) best in
    (
      distinct_addresses-IsDistinct ips [],
      elim (Bool-cases (ltb 0 limit)) [
        | inl pos ↦ inr (
            omega (
              arith,
              length-distinct_addresses ips [],
              length-map best (λ (s : Scored _). s.candidate.entry_ip),
              few (ground arith),
            ))
        | inr none_set ↦ inl (ground arith)
      ],
      refl,
    )

-- ===== src/Engine/Sets/Inferred.antt =====
-- internal/engine/engine.go, `applyLogicals`: which requirements hold after it, and what they leave.
use gluetun_proton_list_upda.Prelude.{
  ◌≡◌, ◌⊎◌, inl, inr, refl, sym, ap, ◌∙◌, String, Bool, true, false, List, [], ◌∷◌, str_eq_iff,
  if◌then◌else◌, length, ◌==◌, Bool-cases, arith,
}
use gluetun_proton_list_upda.Prelude.Real.{Float}
use gluetun_proton_list_upda.Platform.{Platform}
use gluetun_proton_list_upda.Proton.{LogicalServer}
use gluetun_proton_list_upda.Catalog.{Candidate, Options, Requirements}
use gluetun_proton_list_upda.Catalog.Build.{build}
use gluetun_proton_list_upda.Engine.Core.{Engine}
use gluetun_proton_list_upda.Engine.History.{forget_retired, forget_hosts, retired, listed}
use gluetun_proton_list_upda.Engine.Sets.{
  vpn_port_forwarding, catalog_options, is_inferred, refresh_sets, rerank, abandon_inference,
  has_none, settle_requirements, build_sets, apply_logicals,
}

-- the same options, with the requirement of port forwarding taken out
abbrev pub without_port_forward : Options → Options
without_port_forward o = record o { require = record o.require { port_forward = false } }

-- the part of the engine that decides which requirements hold
abbrev pub Demands : {F : Type 0} → Engine F → Requirements × String × Bool
Demands e = (e.requirements, e.port_forward_reason, e.inference_abandoned)

module _ {F : Type 0} where
  forget_hosts-demands :
      (writes : Bool) (hosts : List String) (e : Engine F)
      → (Demands (forget_hosts writes hosts e) ≡ Demands e)
        × ((forget_hosts writes hosts e).candidates ≡ e.candidates)
  unfolding forget_hosts
  forget_hosts-demands writes [] e = (refl, refl)
  forget_hosts-demands writes (h ∷ hs) e = (refl, refl)

  forget_retired-demands :
      (writes : Bool) (logicals : List (LogicalServer F)) (e : Engine F)
      → (Demands (forget_retired writes logicals e) ≡ Demands e)
        × ((forget_retired writes logicals e).candidates ≡ e.candidates)
  unfolding forget_retired
  forget_retired-demands writes logicals e =
      let (d, c) =
        forget_hosts-demands writes (retired (listed logicals []) e.store.state.stats) e in
      (ground arith, ground arith)

  pub apply_logicals-demands :
      (fl : Float F) (p : Platform) (writes : Bool) (logicals : List (LogicalServer F))
      (from_cache : Bool) (e : Engine F)
      → Demands (apply_logicals fl p writes logicals from_cache e)
        ≡ Demands (settle_requirements p e logicals)
  unfolding apply_logicals refresh_sets rerank build_sets
  apply_logicals-demands fl p writes logicals from_cache e =
      let built = build_sets p (settle_requirements p e logicals) logicals in
      let loaded =
        if length built.latest_loads == 0 then built else refresh_sets built.latest_loads built in
      let (d, c) = forget_retired-demands writes logicals (rerank fl loaded) in ground arith

  apply_logicals-candidates :
      (fl : Float F) (p : Platform) (writes : Bool) (logicals : List (LogicalServer F))
      (from_cache : Bool) (e : Engine F)
      → (settle_requirements p e logicals).latest_loads ≡ []
      → (apply_logicals fl p writes logicals from_cache e).candidates
        ≡ (build p (catalog_options (settle_requirements p e logicals)) logicals).0
  unfolding apply_logicals rerank build_sets
  apply_logicals-candidates fl p writes logicals from_cache e none_newer =
      let built = build_sets p (settle_requirements p e logicals) logicals in
      let loaded =
        if length built.latest_loads == 0 then built else refresh_sets built.latest_loads built in
      let (d, c) = forget_retired-demands writes logicals (rerank fl loaded) in ground arith

  has_none-nil : (cs : List (Candidate F)) → cs ≡ [] → has_none cs ≡ true
  has_none-nil cs h = ap has_none h

  -- Where the engine holds no newer loads, and requires port forwarding only since VPN_PORT_FORWARDING
  -- asks for a port, a new list leaves it without candidates only if no server passes the same
  -- filters with that one requirement taken out either.
  pub inferred_never_empties :
      (fl : Float F) (p : Platform) (writes : Bool) (logicals : List (LogicalServer F))
      (from_cache : Bool) (e : Engine F)
      → e.requirements.port_forward ≡ true
      → e.port_forward_reason ≡ vpn_port_forwarding
      → e.latest_loads ≡ []
      → (apply_logicals fl p writes logicals from_cache e).candidates ≡ []
      → (build p (without_port_forward (catalog_options e)) logicals).0 ≡ []
  unfolding apply_logicals settle_requirements build_sets rerank abandon_inference catalog_options
      is_inferred
  inferred_never_empties fl p writes logicals from_cache e on why no_loads none_left =
      let inferred : is_inferred e ≡ true =
        ground (arith, str_eq_iff e.port_forward_reason vpn_port_forwarding) in
      let before = (build p (catalog_options e) logicals).0 in
      elim (Bool-cases (has_none before)) [
        | inl empty ↦
            let q : settle_requirements p e logicals ≡ abandon_inference e = ground arith in
            let c =
              apply_logicals-candidates fl p writes logicals from_cache e
                (ap (λ x. x.latest_loads) q ∙ no_loads) in
            ap (λ x. (build p (catalog_options x) logicals).0) (sym q) ∙ sym c ∙ none_left
        | inr some_left ↦
            let q : settle_requirements p e logicals ≡ e = ground arith in
            let c =
              apply_logicals-candidates fl p writes logicals from_cache e
                (ap (λ x. x.latest_loads) q ∙ no_loads) in
            let n =
              has_none-nil before
                (ap (λ x. (build p (catalog_options x) logicals).0) (sym q) ∙ sym c ∙ none_left) in
            ground arith
      ]

  pub settle_requirements-demands :
      (p : Platform) (e : Engine F) (logicals : List (LogicalServer F))
      → (settle_requirements p e logicals ≡ e)
        ⊎ ((settle_requirements p e logicals ≡ abandon_inference e)
            × (is_inferred e ≡ true)
            × (has_none (build p (catalog_options e) logicals).0 ≡ true))
  unfolding settle_requirements
  settle_requirements-demands p e logicals = ground arith

-- ===== src/Engine/Sets.antt =====
-- internal/engine/engine.go, `applyLogicals` and what it calls, and tasks.go, `applyLoads`,
-- `serversForFile` and `updateRequirements`: the sets of servers that the engine holds.
pub mod Inferred
pub mod Adopted
use gluetun_proton_list_upda.Prelude.{
  ℕ, ◌+◌, String, Bool, true, false, not, ◌&&◌, ◌||◌, List, [], ◌∷◌, Option, none, some, str_eq,
  if◌then◌else◌, length, map, keep, ltb, ◌==◌,
}
use gluetun_proton_list_upda.Prelude.Real.{Float}
use gluetun_proton_list_upda.Platform.{Platform}
use gluetun_proton_list_upda.Proton.{LogicalServer, ServerLoad}
use gluetun_proton_list_upda.Catalog.{
  Candidate, Options, Requirements, Stats, no_requirements, none_required, contains, vpn_wireguard,
  vpn_openvpn,
}
use gluetun_proton_list_upda.Catalog.Build.{build}
use gluetun_proton_list_upda.Catalog.Loads.{apply_loads, drop_disabled}
use gluetun_proton_list_upda.Scoring.{rank}
use gluetun_proton_list_upda.Engine.Core.{Config, Engine}
use gluetun_proton_list_upda.Engine.History.{forget_retired}

-- `gluetunapi.Requirements`, without the two filters that Proton cannot express
pub record Enforced : Type 0 where
  pub port_forward : Bool
  pub port_forwarding_requested : Bool
  pub secure_core : Bool
  pub tor : Bool
  pub stream : Bool
  pub free : Bool
  pub premium : Bool

abbrev pub port_forward_only : String
port_forward_only = "PORT_FORWARD_ONLY"

abbrev pub vpn_port_forwarding : String
vpn_port_forwarding = "VPN_PORT_FORWARDING"

abbrev pub bit_eq : Bool → Bool → Bool
bit_eq a b = if a then b else not b

abbrev pub same_requirements : Requirements → Requirements → Bool
same_requirements a b =
    bit_eq a.port_forward b.port_forward
    && bit_eq a.secure_core b.secure_core
    && bit_eq a.tor b.tor
    && bit_eq a.stream b.stream
    && bit_eq a.free b.free
    && bit_eq a.premium b.premium

module _ {F : Type 0} where
  unfoldable pub effective_vpn_type : Engine F → String
  effective_vpn_type e =
      if not (str_eq e.cfg.filter.vpn_type "auto")
      then e.cfg.filter.vpn_type
      else if str_eq e.vpn_type vpn_wireguard || str_eq e.vpn_type vpn_openvpn
      then e.vpn_type
      else ""

  unfoldable pub catalog_options : Engine F → Options
  unfolding effective_vpn_type
  catalog_options e = record e.cfg.filter {
    vpn_type = effective_vpn_type e;
    require = e.requirements;
    max_tier = e.account_tier;
  }

  unfoldable pub file_catalog_options : Engine F → Options
  unfolding catalog_options
  file_catalog_options e = record (catalog_options e) {
    countries = [];
    exclude_countries = [];
    cities = [];
    max_load = 0;
    require = no_requirements;
  }

  unfoldable pub is_inferred : Engine F → Bool
  is_inferred e = e.requirements.port_forward && str_eq e.port_forward_reason vpn_port_forwarding

  unfoldable pub hostnames_of : List (Candidate F) → List String
  hostnames_of cs = map (λ (c : Candidate F). c.hostname) cs

  unfoldable pub build_blocked : Platform → Engine F → List (LogicalServer F) → List (Candidate F)
  unfolding catalog_options hostnames_of
  build_blocked p e logicals =
      if none_required e.requirements
      then []
      else keep (λ c. not (contains c.hostname (hostnames_of e.candidates)))
          (build p (record (catalog_options e) { require = no_requirements }) logicals).0

  -- `applyLoads`; dropping none is the same as not dropping
  unfoldable pub refresh_sets : List (ServerLoad F) → Engine F → Engine F
  refresh_sets loads e =
      let (candidates, updated, disabled) = apply_loads e.candidates loads in
      let (blocked, blocked_updated, blocked_disabled) = apply_loads e.blocked loads in
      record e {
        candidates = drop_disabled disabled candidates;
        blocked = drop_disabled blocked_disabled blocked;
      }

  unfoldable pub rerank : Float F → Engine F → Engine F
  rerank fl e = record e { ranked = rank fl e.candidates e.probes e.cfg.score }

  -- The inferred requirement is given up.
  unfoldable pub abandon_inference : Engine F → Engine F
  abandon_inference e = record e {
    requirements = record e.requirements { port_forward = false };
    port_forward_reason = "";
    inference_abandoned = true;
  }

  abbrev pub has_none : List (Candidate F) → Bool
  has_none [] = true
  has_none (_ ∷ _) = false

  -- Lines 568 to 583 of `applyLogicals`: the requirements that stay in force.
  unfoldable pub settle_requirements : Platform → Engine F → List (LogicalServer F) → Engine F
  unfolding catalog_options is_inferred abandon_inference
  settle_requirements p e logicals =
      if has_none (build p (catalog_options e) logicals).0 && is_inferred e
      then abandon_inference e
      else e

  unfoldable pub build_sets : Platform → Engine F → List (LogicalServer F) → Engine F
  unfolding catalog_options file_catalog_options build_blocked
  build_sets p e logicals =
      let (candidates, stats) = build p (catalog_options e) logicals in
      let built = record e {
        candidates = candidates;
        stats = stats;
        file_candidates = (build p (file_catalog_options e) logicals).0;
      } in
      record built { blocked = build_blocked p built logicals }

  unfoldable pub apply_logicals :
      Float F → Platform → Bool → List (LogicalServer F) → Bool → Engine F → Engine F
  unfolding settle_requirements build_sets refresh_sets rerank forget_retired
  apply_logicals fl p writes logicals from_cache e =
      let built = build_sets p (settle_requirements p e logicals) logicals in
      let loaded =
        if length built.latest_loads == 0 then built else refresh_sets built.latest_loads built in
      let ranked = rerank fl loaded in
      if from_cache then ranked else forget_retired writes logicals ranked

  unfoldable pub servers_for_file : Engine F → List (Candidate F)
  servers_for_file e =
      if e.cfg.only_allowed_countries
      then e.candidates
      else if has_none e.file_candidates
      then e.candidates
      else e.file_candidates

  abbrev pub adopted : Enforced → Engine F → Requirements
  adopted from e =
      let inferred = from.port_forwarding_requested && not e.inference_abandoned in
      record {
        port_forward = (from.port_forward || inferred) || e.requirements.port_forward;
        secure_core = from.secure_core || e.requirements.secure_core;
        tor = from.tor || e.requirements.tor;
        stream = from.stream || e.requirements.stream;
        free = from.free || e.requirements.free;
        premium = from.premium || e.requirements.premium;
      }

  abbrev pub reason_for : Enforced → Engine F → String
  reason_for from e =
      if from.port_forward
      then port_forward_only
      else if (from.port_forwarding_requested && not e.inference_abandoned)
          && str_eq e.port_forward_reason ""
      then vpn_port_forwarding
      else e.port_forward_reason

  -- `rebuildFromCache`, on the cached list if there is one
  unfoldable pub rebuild_from_cache :
      Float F → Platform → Option (List (LogicalServer F)) → Engine F → Engine F
  unfolding apply_logicals
  rebuild_from_cache fl p none e = e
  rebuild_from_cache fl p (some logicals) e = apply_logicals fl p true logicals true e

  unfoldable pub update_requirements :
      Float F → Platform → Option (List (LogicalServer F)) → Enforced → Engine F → Engine F
  unfolding rebuild_from_cache
  update_requirements fl p cached from e =
      let reasoned = record e { port_forward_reason = reason_for from e } in
      if same_requirements (adopted from e) e.requirements
      then reasoned
      else rebuild_from_cache fl p cached (record reasoned { requirements = adopted from e })

  unfoldable pub update_vpn_type :
      Float F → Platform → Option (List (LogicalServer F)) → String → Engine F → Engine F
  unfolding rebuild_from_cache effective_vpn_type
  update_vpn_type fl p cached vpn_type e =
      let told = record e { vpn_type = vpn_type } in
      if str_eq e.vpn_type vpn_type
      then e
      else if not (str_eq e.cfg.filter.vpn_type "auto")
          || str_eq (effective_vpn_type told) (effective_vpn_type e)
      then told
      else rebuild_from_cache fl p cached told

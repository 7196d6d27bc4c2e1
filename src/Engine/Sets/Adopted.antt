-- ===== src/Engine/Sets/Adopted.antt =====
-- internal/engine/tasks.go, `updateRequirements`: what becomes of the requirements in force.
use gluetun_proton_list_upda.Prelude.{
  ◌≡◌, ◌⊎◌, inl, inr, refl, sym, ap, subst, ◌∙◌, Bool, true, false, not, ◌&&◌, ◌||◌, List, [], ◌∷◌,
  Option, none, some, str_eq, str_eq_iff, Bool-cases, and-true, arith,
}
use gluetun_proton_list_upda.Prelude.Real.{Float}
use gluetun_proton_list_upda.Platform.{Platform}
use gluetun_proton_list_upda.Proton.{LogicalServer}
use gluetun_proton_list_upda.Catalog.{Candidate, Requirements}
use gluetun_proton_list_upda.Catalog.Build.{build}
use gluetun_proton_list_upda.Engine.Core.{Engine}
use gluetun_proton_list_upda.Engine.Sets.{
  Enforced, port_forward_only, vpn_port_forwarding, catalog_options, is_inferred, abandon_inference,
  has_none, update_requirements, rebuild_from_cache, adopted, reason_for, same_requirements, bit_eq,
}
use gluetun_proton_list_upda.Engine.Sets.Inferred.{
  apply_logicals-demands, settle_requirements-demands,
}

not_only :
    {F : Type 0} (e : Engine F)
    → e.port_forward_reason ≡ port_forward_only
    → is_inferred e ≡ true
    → ⊥
unfolding is_inferred
not_only e reason inferred =
    let (_, named) =
      and-true e.requirements.port_forward (str_eq e.port_forward_reason vpn_port_forwarding)
        inferred in
    let clash : false ≡ true = subst (λ r. str_eq r vpn_port_forwarding ≡ true) reason named in
    ground arith

-- The requirements that no rebuild gives up.
abbrev pub Keeps : Requirements → Requirements → Bool → Type 0
Keeps before after port_forward =
    (before.secure_core ≡ true → after.secure_core ≡ true)
    × (before.tor ≡ true → after.tor ≡ true)
    × (before.stream ≡ true → after.stream ≡ true)
    × (before.free ≡ true → after.free ≡ true)
    × (before.premium ≡ true → after.premium ≡ true)
    × (port_forward ≡ true → after.port_forward ≡ true)

rebuild-Keeps :
    {F : Type 0} (fl : Float F) (p : Platform) (cached : Option (List (LogicalServer F)))
    (asked : Bool) (e : Engine F)
    → (asked ≡ true
        → (e.requirements.port_forward ≡ true) × (e.port_forward_reason ≡ port_forward_only))
    → Keeps e.requirements (rebuild_from_cache fl p cached e).requirements asked
unfolding rebuild_from_cache abandon_inference is_inferred
rebuild-Keeps fl p none asked e h = ground arith
rebuild-Keeps fl p (some logicals) asked e h =
    let d = apply_logicals-demands fl p true logicals true e in
    elim (settle_requirements-demands p e logicals) [
      | inl same ↦
          subst (λ r. Keeps e.requirements r asked)
            (sym (ap (λ x. x.0) d ∙ ap (λ x. x.requirements) same)) (ground arith)
      | inr (given_up, inferred, _) ↦
          subst (λ r. Keeps e.requirements r asked)
            (sym (ap (λ x. x.0) d ∙ ap (λ x. x.requirements) given_up))
            (λ h. h, λ h. h, λ h. h, λ h. h, λ h. h, λ a. absurd (not_only e (h a).1 inferred))
    ]

adopted_bit : (a i b : Bool) → a ≡ true → bit_eq ((a || i) || b) b ≡ true → b ≡ true
adopted_bit a i true h k = refl
adopted_bit a i false h k = ground arith

or_right : (a b : Bool) → b ≡ true → (a || b) ≡ true
or_right true b h = refl
or_right false b h = h

Keeps-same :
    {F : Type 0} (from : Enforced) (e : Engine F)
    → same_requirements (adopted from e) e.requirements ≡ true
    → Keeps e.requirements e.requirements from.port_forward
Keeps-same from e same =
    let inferred = from.port_forwarding_requested && not e.inference_abandoned in
    let first : bit_eq ((from.port_forward || inferred) || e.requirements.port_forward)
          e.requirements.port_forward
        ≡ true =
      ground arith in
    (
      λ h. h,
      λ h. h,
      λ h. h,
      λ h. h,
      λ h. h,
      λ h. adopted_bit from.port_forward inferred e.requirements.port_forward h first,
    )

Keeps-adopted :
    {F : Type 0} (from : Enforced) (e : Engine F) (after : Requirements)
    → Keeps (adopted from e) after from.port_forward
    → Keeps e.requirements after from.port_forward
Keeps-adopted from e after (a, b, c, d, f, g) = (
  λ h. a (or_right from.secure_core e.requirements.secure_core h),
  λ h. b (or_right from.tor e.requirements.tor h),
  λ h. c (or_right from.stream e.requirements.stream h),
  λ h. d (or_right from.free e.requirements.free h),
  λ h. f (or_right from.premium e.requirements.premium h),
  g,
)

module _ {F : Type 0} where
  nil-has_none : (cs : List (Candidate F)) → has_none cs ≡ true → cs ≡ []
  nil-has_none [] h = refl
  nil-has_none (c ∷ cs) h = absurd (ground arith)

  -- The requirement of port forwarding is held for VPN_PORT_FORWARDING alone, and a list leaves nobody
  -- who fulfils it.
  abbrev pub Unmeetable : Platform → Option (List (LogicalServer F)) → Engine F → Type 0
  Unmeetable p cached e =
      (e.port_forward_reason ≡ vpn_port_forwarding)
      × ((logicals : List (LogicalServer F)) × (cached ≡ some logicals)
          × ((build p (catalog_options e) logicals).0 ≡ []))

  rebuild-port_forward :
      (fl : Float F) (p : Platform) (cached : Option (List (LogicalServer F))) (e : Engine F)
      → e.requirements.port_forward ≡ true
      → ((rebuild_from_cache fl p cached e).requirements.port_forward ≡ true)
        ⊎ Unmeetable p cached e
  unfolding rebuild_from_cache is_inferred
  rebuild-port_forward fl p none e on = inl on
  rebuild-port_forward fl p (some logicals) e on =
      let d = apply_logicals-demands fl p true logicals true e in
      elim (settle_requirements-demands p e logicals) [
        | inl same ↦
            inl (ap (λ x. x.0.port_forward) d ∙ ap (λ x. x.requirements.port_forward) same ∙ on)
        | inr (_, inferred, nobody) ↦ inr (
          (str_eq_iff e.port_forward_reason vpn_port_forwarding).0
              (and-true e.requirements.port_forward
                (str_eq e.port_forward_reason vpn_port_forwarding) inferred).1,
          (logicals, refl, nil-has_none (build p (catalog_options e) logicals).0 nobody),
        )
      ]

-- the engine with what it is told, before the list is built again
abbrev pub told_of : {F : Type 0} → Enforced → Engine F → Engine F
told_of from e = record e { port_forward_reason = reason_for from e; requirements = adopted from e }

update-Keeps :
    {F : Type 0} (fl : Float F) (p : Platform) (cached : Option (List (LogicalServer F)))
    (from : Enforced) (e : Engine F)
    → Keeps e.requirements (update_requirements fl p cached from e).requirements from.port_forward
unfolding update_requirements
update-Keeps fl p cached from e =
    let told = record e {
      port_forward_reason = reason_for from e;
      requirements = adopted from e;
    } in
    let r = rebuild-Keeps fl p cached from.port_forward told (λ h. (rw h refl, rw h refl)) in
    elim (Bool-cases (same_requirements (adopted from e) e.requirements)) [
      | inl same ↦ rw same (Keeps-same from e same)
      | inr differ ↦
          rw differ (Keeps-adopted from e (rebuild_from_cache fl p cached told).requirements r)
    ]

update-port_forward :
    {F : Type 0} (fl : Float F) (p : Platform) (cached : Option (List (LogicalServer F)))
    (from : Enforced) (e : Engine F)
    → (e.requirements.port_forward ≡ false)
      ⊎ ((update_requirements fl p cached from e).requirements.port_forward ≡ true)
      ⊎ Unmeetable p cached (told_of from e)
unfolding update_requirements
update-port_forward fl p cached from e = elim (Bool-cases e.requirements.port_forward) [
  | inr off ↦ inl off
  | inl on ↦ inr (elim (Bool-cases (same_requirements (adopted from e) e.requirements)) [
    | inl same ↦ rw same (inl on)
    | inr differ ↦
        let inferred = from.port_forwarding_requested && not e.inference_abandoned in
        rw differ (
          rebuild-port_forward fl p cached (told_of from e)
            (or_right (from.port_forward || inferred) e.requirements.port_forward on))
  ])
]

-- A requirement that is in force is not dropped when Gluetun reports what it enforces, whatever it
-- reports and whatever list is cached: the five others stay; port forwarding stays if
-- PORT_FORWARD_ONLY asks for it, and if not it is dropped only where VPN_PORT_FORWARDING alone is the
-- reason and no server of the cached list fulfils all that is required.
pub requirements_kept :
    {F : Type 0} (fl : Float F) (p : Platform) (cached : Option (List (LogicalServer F)))
    (from : Enforced) (e : Engine F)
    → Keeps e.requirements (update_requirements fl p cached from e).requirements from.port_forward
      × ((e.requirements.port_forward ≡ false)
          ⊎ ((update_requirements fl p cached from e).requirements.port_forward ≡ true)
          ⊎ Unmeetable p cached (told_of from e))
requirements_kept fl p cached from e =
    (update-Keeps fl p cached from e, update-port_forward fl p cached from e)

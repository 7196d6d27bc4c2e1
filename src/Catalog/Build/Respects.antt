-- ===== src/Catalog/Build/Respects.antt =====
-- What the filters of `Build` promise of every candidate, read off the candidate itself.
use gluetun_proton_list_upda.Prelude.{
  ℕ, ◌≤◌, ◌<◌, ◌≡◌, ◌≢◌, sym, subst, refl, String, Bool, true, false, List, [], ◌∷◌, some,
  if◌then◌else◌, str_eq, Bool-cases, str_eq_iff, arith, inl, inr, Memᴰ, All, All-mem, All-of_mem,
  keep, mem_of_keep, mem_of_append, mem_of_map,
}
use gluetun_proton_list_upda.Prelude.Addr.{is_valid}
use gluetun_proton_list_upda.Platform.{Platform}
use gluetun_proton_list_upda.Proton.{LogicalServer, PhysicalServer}
use gluetun_proton_list_upda.Catalog.{
  Candidate, Options, unmet, satisfied, above_tier, contains, country_refused, city_refused,
  to_lower_set, is_empty, features_allowed, feature_allowed, vpn_wireguard, deref, resolve_country,
}
use gluetun_proton_list_upda.Catalog.Build.{build, to_candidate, connectable}
use gluetun_proton_list_upda.Catalog.Build.Eligible.{admitted, usable, candidates_of, eligible}
use gluetun_proton_list_upda.Catalog.Build.Kept.{build_sound}

nonempty : (l : List String) → l ≢ [] → is_empty l ≡ false
unfolding is_empty
nonempty [] h = absurd (h refl)
nonempty (x ∷ xs) h = refl

-- A tri-state filter and a server's feature.
abbrev pub Follows : String → Bool → Type 0
Follows filter has = (filter ≡ "only" → has ≡ true) × (filter ≡ "exclude" → has ≡ false)

feature_allowed-Follows :
    (filter : String) (has : Bool) → feature_allowed filter has ≡ true → Follows filter has
unfolding feature_allowed
feature_allowed-Follows filter has h = (
  λ e. ground (arith, str_eq_iff filter "only"),
  λ e.
      ground
        (arith, str_eq_iff filter "only", str_eq_iff filter "exclude", str_eq_iff "exclude" "only"),
)

-- what is in the set that `toLowerSet` makes is a name of the list, up to case and spaces
in_to_lower_set :
    (p : Platform) (s : String) (names : List String)
    → contains s (to_lower_set p names) ≡ true
    → (name : String) × Memᴰ name names × (p.to_lower (p.trim_space name) ≡ s)
unfolding contains to_lower_set
in_to_lower_set p s [] h = absurd (ground arith)
in_to_lower_set p s (t ∷ ts) h = elim (Bool-cases (str_eq (p.to_lower (p.trim_space t)) s)) [
  | inl same ↦ (t, Memᴰ.head refl, (str_eq_iff (p.to_lower (p.trim_space t)) s).0 same)
  | inr other ↦ let (name, m, e) = in_to_lower_set p s ts (ground arith) in (name, Memᴰ.tail m, e)
]

module _ {F : Type 0} where
  -- What the options ask of a candidate.
  pub record Respects (p : Platform) (o : Options) (c : Candidate F) : Type 0 where
    pub requirements : unmet o.require c ≡ []
    pub load : 0 < o.max_load → c.load ≤ o.max_load
    pub tier : (limit t : ℕ) → o.max_tier ≡ some limit → c.tier ≡ some t → t ≤ limit
    pub address : is_valid c.entry_ip ≡ true
    pub key : o.vpn_type ≡ vpn_wireguard → c.wg_pub_key ≢ ""
    pub allowed : o.countries ≢ [] → contains c.country o.countries ≡ true
    pub city :
        o.cities ≢ []
        → (name : String) × Memᴰ name o.cities
          × (p.to_lower (p.trim_space name) ≡ p.to_lower c.city)
    pub not_excluded : contains c.country o.exclude_countries ≡ false
    pub secure_core : Follows o.secure_core c.secure_core
    pub tor : Follows o.tor c.tor
    pub p2p : Follows o.p2p c.p2p
    pub stream : Follows o.stream c.stream
    pub free : Follows o.free c.free
    pub ipv6 : Follows o.ipv6 c.ipv6

  unmet-satisfied :
      (p : Platform) (o : Options) (l : LogicalServer F) (country city : String)
      (s : PhysicalServer)
      → satisfied o.require l ≡ true
      → unmet o.require (to_candidate p o l country city s) ≡ []
  unfolding unmet satisfied to_candidate
  unmet-satisfied p o l country city s h = ground arith

  to_candidate-Respects :
      (p : Platform) (o : Options) (l : LogicalServer F) (s : PhysicalServer)
      → admitted p o l ≡ true
      → usable o s ≡ true
      → Respects p o (to_candidate p o l (resolve_country p l).0 (deref p l.city) s)
  unfolding admitted usable
  to_candidate-Respects p o l s a u = record {
    requirements = unmet-satisfied p o l _ _ s (ground arith);
    load = unfold to_candidate in ground arith;
    tier = unfold to_candidate above_tier in λ limit t e e'. ground arith;
    address = unfold to_candidate connectable in ground arith;
    key =
        unfold to_candidate connectable in
        λ w k.
          ground (arith, str_eq_iff o.vpn_type vpn_wireguard, str_eq_iff s.x25519_public_key "");
    allowed = unfold to_candidate country_refused in λ n. ground (arith, nonempty o.countries n);
    city =
        unfold to_candidate in
        λ n.
          in_to_lower_set p (p.to_lower (deref p l.city)) o.cities
            (unfold city_refused in ground (arith, nonempty o.cities n));
    not_excluded = unfold to_candidate in ground arith;
    secure_core =
        unfold to_candidate features_allowed in
        feature_allowed-Follows o.secure_core _ (ground arith);
    tor = unfold to_candidate features_allowed in feature_allowed-Follows o.tor _ (ground arith);
    p2p = unfold to_candidate features_allowed in feature_allowed-Follows o.p2p _ (ground arith);
    stream =
        unfold to_candidate features_allowed in feature_allowed-Follows o.stream _ (ground arith);
    free = unfold to_candidate features_allowed in feature_allowed-Follows o.free _ (ground arith);
    ipv6 = unfold to_candidate features_allowed in feature_allowed-Follows o.ipv6 _ (ground arith);
  }

  mem_if :
      (b : Bool) {c : Candidate F} (cs : List (Candidate F))
      → Memᴰ c (if b then cs else [])
      → (b ≡ true) × Memᴰ c cs
  mem_if true cs m = (refl, m)
  mem_if false cs m = elim m [ ]

  candidates_of-Respects :
      (p : Platform) (o : Options) (l : LogicalServer F) (c : Candidate F)
      → admitted p o l ≡ true
      → Memᴰ c (candidates_of p o l l.servers)
      → Respects p o c
  unfolding candidates_of
  candidates_of-Respects p o l c a m =
      let (s, n, e) =
        mem_of_map (to_candidate p o l (resolve_country p l).0 (deref p l.city))
          (keep (usable o) l.servers) m in
      subst (Respects p o) (sym e)
        (to_candidate-Respects p o l s a (mem_of_keep (usable o) l.servers n).1)

  pub eligible-Respects :
      (p : Platform) (o : Options) (logicals : List (LogicalServer F)) (c : Candidate F)
      → Memᴰ c (eligible p o logicals)
      → Respects p o c
  unfolding eligible
  eligible-Respects p o [] c m = elim m [ ]
  eligible-Respects p o (l ∷ rest) c m =
      elim (mem_of_append (if admitted p o l then candidates_of p o l l.servers else [])
        (eligible p o rest) m) [
          | inl here ↦
              let (a, n) = mem_if (admitted p o l) (candidates_of p o l l.servers) here in
              candidates_of-Respects p o l c a n
          | inr there ↦ eligible-Respects p o rest c there
        ]

  -- Every candidate that `Build` returns fulfils each option: it fails none of the required
  -- filters, its load and its tier are within their limits, it has a valid entry address, and a
  -- WireGuard key where the tunnel uses WireGuard, its country is allowed and not excluded, its city
  -- is one of the wanted ones up to case, where some are, and each of its six features follows its tri-state filter.
  pub build-Respects :
      (p : Platform) (o : Options) (logicals : List (LogicalServer F))
      → All (Respects p o) (build p o logicals).0
  build-Respects p o logicals = All-of_mem (Respects p o) (build p o logicals).0 λ c m.
      eligible-Respects p o logicals c (
        All-mem (λ d. Memᴰ d (eligible p o logicals)) (build p o logicals).0
          (build_sound p o logicals) m)

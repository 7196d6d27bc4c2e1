-- ===== src/Catalog/Build.antt =====
-- `Build` of internal/catalog/catalog.go, lines 194 to 352.
pub mod Eligible
pub mod Index
pub mod Kept
pub mod Respects
use gluetun_proton_list_upda.Prelude.{
  ℕ, suc, zero, ◌+◌, String, Bool, true, false, not, ◌&&◌, List, [], ◌∷◌, ◌++◌, Option, none, some,
  ltb, str_eq, string_eq, is_some, if◌then◌else◌, length, get_elem?, set, map,
}
use gluetun_proton_list_upda.Prelude.Addr.{Addr, invalid, is_valid, is_6, addr_eq}
use gluetun_proton_list_upda.Prelude.Table.{Table, find, put}
use gluetun_proton_list_upda.Platform.{Platform}
use gluetun_proton_list_upda.Proton.{
  LogicalServer, PhysicalServer, secure_core, tor, p2p, streaming, ipv6, free, enabled,
  machine_enabled,
}
use gluetun_proton_list_upda.Catalog.{
  Candidate, Stats, Options, satisfied, above_tier, features_allowed, machine_has_ipv6, deref,
  resolve_country, country_refused, city_refused, contains, vpn_wireguard,
}

-- The variables of the loop: the candidates, `entryIPToIndex`, `unknownCountries` and the counters.
pub record Progress (F : Type 0) : Type 0 where
  pub candidates : List (Candidate F)
  pub index : Table Addr ℕ
  pub unknown : List String
  pub stats : Stats

abbrev pub no_stats : Stats
no_stats = record {
  logicals_total = 0;
  logicals_kept = 0;
  physical_total = 0;
  physical_kept = 0;
  disabled_skipped = 0;
  duplicate_skipped = 0;
  above_tier_skipped = 0;
  secure_core_total = 0;
  tor_total = 0;
  p2p_total = 0;
  stream_total = 0;
  free_total = 0;
  ipv6_total = 0;
  unknown_countries = [];
}

abbrev tally : Bool → ℕ → ℕ
tally b n = if b then suc n else n

-- lines 289 to 294: the machine has an address, and a key if the tunnel needs one
unfoldable pub connectable : Options → PhysicalServer → Bool
connectable o s =
    is_valid s.entry_ip && not (str_eq o.vpn_type vpn_wireguard && str_eq s.x25519_public_key "")

module _ {F : Type 0} where
  abbrev pub start : Progress F
  start = record { candidates = []; index = []; unknown = []; stats = no_stats }

  -- lines 218 to 238
  unfoldable pub count_logical : Stats → LogicalServer F → Stats
  count_logical s l = record s {
    logicals_total = suc s.logicals_total;
    physical_total = s.physical_total + length l.servers;
    secure_core_total = tally (secure_core l) s.secure_core_total;
    tor_total = tally (tor l) s.tor_total;
    p2p_total = tally (p2p l) s.p2p_total;
    stream_total = tally (streaming l) s.stream_total;
    free_total = tally (free l) s.free_total;
    ipv6_total = tally (machine_has_ipv6 l.servers) s.ipv6_total;
  }

  -- lines 296 to 320
  unfoldable pub to_candidate :
      Platform → Options → LogicalServer F → String → String → PhysicalServer → Candidate F
  to_candidate p o l country city s = record {
    hostname = s.domain;
    server_name = l.name;
    logical_id = l.id;
    country = country;
    region = deref p l.region;
    city = city;
    entry_ip = s.entry_ip;
    entry_ipv6 =
        if o.include_ipv6 && not (str_eq s.entry_ipv6 "")
        then (elim (p.parse_addr s.entry_ipv6) [
          | none ↦ invalid
          | some address ↦ if is_6 address then address else invalid
        ])
        else invalid;
    exit_ip = s.exit_ip;
    wg_pub_key = s.x25519_public_key;
    load = l.load;
    proton_score = l.score;
    free = free l;
    secure_core = secure_core l;
    tor = tor l;
    p2p = p2p l;
    stream = streaming l;
    ipv6 = ipv6 l;
    tier = l.tier;
  }

  -- lines 337 to 341, at the index of the candidate with the same entry address; an index out of
  -- range would panic
  unfoldable pub replace_if_quieter : Progress F → Candidate F → ℕ → Progress F
  replace_if_quieter a c i =
      let counted = record a {
        stats = record a.stats { duplicate_skipped = suc a.stats.duplicate_skipped };
      } in
      elim (get_elem? a.candidates i) [
        | none ↦ counted
        | some kept ↦
            if ltb c.load kept.load
            then record counted { candidates = set a.candidates i c }
            else counted
      ]

  abbrev pub add : Progress F → Candidate F → Progress F
  add a c = record a { candidates = a.candidates ++ (c ∷ []) }

  -- lines 322 to 341: the new progress, and whether `keptFromLogical` grows
  unfoldable pub place : Progress F → Candidate F → Progress F × Bool
  unfolding replace_if_quieter
  place a c = if c.secure_core then (add a c, true) else elim (find c.entry_ip a.index) [
    | none ↦ (record (add a c) { index = put c.entry_ip (length a.candidates) a.index }, true)
    | some i ↦ (replace_if_quieter a c i, false)
  ]

  -- the loop of lines 284 to 342, with `keptFromLogical`
  unfoldable pub build_machines :
      Platform
      → Options
      → LogicalServer F
      → String
      → String
      → Progress F
      → ℕ
      → List PhysicalServer
      → Progress F × ℕ
  build_machines p o l country city a kept [] = (a, kept)
  build_machines p o l country city a kept (s ∷ rest) =
      let skip_disabled =
        build_machines p o l country city
          (record a { stats = record a.stats { disabled_skipped = suc a.stats.disabled_skipped } })
          kept rest in
      let skip = build_machines p o l country city a kept rest in
      let placed = place a (to_candidate p o l country city s) in
      let next = build_machines p o l country city placed.0 (tally placed.1 kept) rest in
      if not (machine_enabled s)
      then skip_disabled
      else if not (connectable o s)
      then skip
      else next

  -- lines 283 to 346
  unfoldable pub build_located :
      Platform → Options → LogicalServer F → String → String → Progress F → Progress F
  build_located p o l country city a =
      let done = build_machines p o l country city a 0 l.servers in
      if ltb 0 done.1
      then record done.0 {
        stats = record done.0.stats { logicals_kept = suc done.0.stats.logicals_kept };
      }
      else done.0

  abbrev note_unknown : Progress F → String → Bool → Progress F
  note_unknown a country known =
      if known
      then a
      else if contains country a.unknown
      then a
      else record a { unknown = country ∷ a.unknown }

  -- lines 218 to 346, one round of the outer loop
  unfoldable pub build_logical : Platform → Options → Progress F → LogicalServer F → Progress F
  build_logical p o a l =
      let counted = record a { stats = count_logical a.stats l } in
      let (country, known) = resolve_country p l in
      let city = deref p l.city in
      let noted = note_unknown counted country known in
      if not (enabled l)
      then record counted {
        stats = record counted.stats {
          disabled_skipped = counted.stats.disabled_skipped + length l.servers;
        };
      }
      else if not (features_allowed o l)
      then counted
      else if ltb 0 o.max_load && ltb o.max_load l.load
      then counted
      else if not (satisfied o.require l)
      then counted
      else if above_tier l o.max_tier
      then record counted {
        stats = record counted.stats { above_tier_skipped = suc counted.stats.above_tier_skipped };
      }
      else if country_refused o country
      then noted
      else if contains country o.exclude_countries
      then noted
      else if city_refused p o city
      then noted
      else build_located p o l country city noted

  unfoldable pub build_all : Platform → Options → Progress F → List (LogicalServer F) → Progress F
  build_all p o a [] = a
  build_all p o a (l ∷ rest) = build_all p o (build_logical p o a l) rest

  unfoldable pub build : Platform → Options → List (LogicalServer F) → List (Candidate F) × Stats
  unfolding build_all
  build p o logicals =
      let done = build_all p o start logicals in
      (
        done.candidates,
        record done.stats {
          physical_kept = length done.candidates;
          unknown_countries = done.unknown;
        },
      )

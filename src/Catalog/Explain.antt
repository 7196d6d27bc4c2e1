-- ===== src/Catalog/Explain.antt =====
-- internal/catalog/explain.go: what `Build` did with the servers that match a query. The texts of the
-- reasons are constructors with what they are made of.
pub mod Lookup
pub mod Rules
pub mod Verdicts
use gluetun_proton_list_upda.Prelude.{
  ℕ, String, Bool, true, false, not, ◌&&◌, ◌||◌, List, [], ◌∷◌, ◌++◌, Option, none, some, ltb,
  str_eq, is_some, if◌then◌else◌, map,
}
use gluetun_proton_list_upda.Prelude.Addr.{Addr, addr_eq, is_valid}
use gluetun_proton_list_upda.Prelude.Table.{Table, find, put}
use gluetun_proton_list_upda.Platform.{Platform}
use gluetun_proton_list_upda.Proton.{
  LogicalServer, PhysicalServer, secure_core, tor, p2p, streaming, ipv6, free, enabled,
  machine_enabled,
}
use gluetun_proton_list_upda.Catalog.{
  Candidate, Options, satisfied, above_tier, deref, resolve_country, country_refused, city_refused,
  contains, vpn_wireguard,
}
use gluetun_proton_list_upda.Catalog.Build.{build}

pub data MachineReason : Type 0 where
  with_its_server : MachineReason
  machine_disabled : MachineReason
  no_entry_ip : MachineReason
  no_key : MachineReason
  deduplicated : MachineReason
  unexplained : MachineReason

pub data Reason : Type 0 where
  server_disabled : Reason
  feature_excluded : String → Reason
  feature_lacking : String → Reason
  over_load : ℕ → ℕ → Reason
  unsatisfied : Reason
  over_tier : Option ℕ → Option ℕ → Reason
  country_not_listed : String → Reason
  country_excluded : String → Reason
  city_not_listed : String → Reason
  of_machine : MachineReason → Reason

-- `deduplicated_by` is the server name and the hostname of the machine kept instead.
pub record PhysicalExplanation : Type 0 where
  pub hostname : String
  pub entry_ip : Addr
  pub exit_ip : Option Addr
  pub enabled : Bool
  pub wireguard : Bool
  pub included : Bool
  pub reason : Option MachineReason
  pub deduplicated_by : Option (String × String)
  pub same_machine_as : String

-- A note is the server's name, the sibling's and the hostname.
pub record Explanation : Type 0 where
  pub server_name : String
  pub country : String
  pub city : String
  pub load : ℕ
  pub tier : Option ℕ
  pub secure_core : Bool
  pub tor : Bool
  pub p2p : Bool
  pub stream : Bool
  pub free : Bool
  pub enabled : Bool
  pub physical : List PhysicalExplanation
  pub included : Bool
  pub reasons : List Reason
  pub notes : List (String × String × String)

-- `append`, where a rule rejects
unfoldable pub note_if : Bool → Reason → List Reason → List Reason
note_if rejects why rest = if rejects then why ∷ rest else rest

-- one row of the table in `featureReasons`
unfoldable pub feature_reason : String → String → Bool → List Reason → List Reason
feature_reason name filter has rest =
    if str_eq filter "exclude"
    then note_if has (feature_excluded name) rest
    else if str_eq filter "only"
    then note_if (not has) (feature_lacking name) rest
    else rest

abbrev pub machine_matches : Platform → String → List PhysicalServer → Bool
machine_matches p query [] = false
machine_matches p query (s ∷ rest) =
    p.has_substring (p.to_lower s.domain) query || machine_matches p query rest

abbrev pub machine_reasons : List PhysicalExplanation → List Reason
machine_reasons [] = []
machine_reasons (m ∷ ms) = elim m.reason [
  | none ↦ machine_reasons ms
  | some why ↦ of_machine why ∷ machine_reasons ms
]

abbrev pub sibling_notes : String → List PhysicalExplanation → List (String × String × String)
sibling_notes name [] = []
sibling_notes name (m ∷ ms) =
    let rest = sibling_notes name ms in
    if not (str_eq m.same_machine_as "") then (name, m.same_machine_as, m.hostname) ∷ rest else rest

abbrev pub any_included : List PhysicalExplanation → Bool
any_included [] = false
any_included (m ∷ ms) = m.included || any_included ms

abbrev pub is_none : List Reason → Bool
is_none [] = true
is_none (_ ∷ _) = false

abbrev unjudged : PhysicalServer → PhysicalExplanation
unjudged s = record {
  hostname = s.domain;
  entry_ip = s.entry_ip;
  exit_ip = if is_valid s.exit_ip then some s.exit_ip else none;
  enabled = machine_enabled s;
  wireguard = not (str_eq s.x25519_public_key "");
  included = false;
  reason = none;
  deduplicated_by = none;
  same_machine_as = "";
}

module _ {F : Type 0} where
  -- `byEntryIP`: a later candidate takes the place of an earlier one
  unfoldable pub by_entry_ip :
      Table Addr (Candidate F) → List (Candidate F) → Table Addr (Candidate F)
  by_entry_ip m [] = m
  by_entry_ip m (c ∷ cs) = by_entry_ip (put c.entry_ip c m) cs

  unfoldable pub matches : Platform → LogicalServer F → String → Bool
  matches p l query = p.has_substring (p.to_lower l.name) query || machine_matches p query l.servers

  -- `featureReasons`, before the reasons that follow
  unfoldable pub feature_reasons : Options → LogicalServer F → List Reason → List Reason
  feature_reasons o l rest = feature_reason "SECURE_CORE" o.secure_core (secure_core l) (
      feature_reason "TOR" o.tor (tor l) (
        feature_reason "P2P" o.p2p (p2p l) (
          feature_reason "STREAM" o.stream (streaming l) (
            feature_reason "FREE_TIER" o.free (free l)
              (feature_reason "IPV6" o.ipv6 (ipv6 l) rest)))))

  -- lines 113 to 148
  unfoldable pub logical_reasons : Platform → Options → LogicalServer F → List Reason
  logical_reasons p o l =
      let country = (resolve_country p l).0 in
      let city = deref p l.city in
      note_if (not (enabled l)) server_disabled (
        feature_reasons o l (
          note_if (ltb 0 o.max_load && ltb o.max_load l.load) (over_load l.load o.max_load) (
            note_if (not (satisfied o.require l)) unsatisfied (
              note_if (above_tier l o.max_tier) (over_tier l.tier o.max_tier) (
                note_if (country_refused o country) (country_not_listed country) (
                  note_if (contains country o.exclude_countries) (country_excluded country)
                    (note_if (city_refused p o city) (city_not_listed city) [])))))))

  -- lines 172 to 192, with what `byEntryIP` has at the address
  unfoldable pub judge_kept :
      LogicalServer F → PhysicalServer → Option (Candidate F) → PhysicalExplanation
  judge_kept l s none = record (unjudged s) { reason = some unexplained }
  judge_kept l s (some c) =
      if str_eq c.logical_id l.id
      then record (unjudged s) { included = true }
      else if str_eq c.hostname s.domain
      then record (unjudged s) { included = true; same_machine_as = c.server_name }
      else record (unjudged s) {
        reason = some deduplicated;
        deduplicated_by = some (c.server_name, c.hostname);
      }

  -- lines 153 to 193
  unfoldable pub explain_machine :
      Options
      → Table Addr (Candidate F)
      → Bool
      → LogicalServer F
      → PhysicalServer
      → PhysicalExplanation
  unfolding judge_kept
  explain_machine o kept rejected l s =
      if rejected
      then record (unjudged s) { reason = some with_its_server }
      else if not (machine_enabled s)
      then record (unjudged s) { reason = some machine_disabled }
      else if not (is_valid s.entry_ip)
      then record (unjudged s) { reason = some no_entry_ip }
      else if str_eq o.vpn_type vpn_wireguard && str_eq s.x25519_public_key ""
      then record (unjudged s) { reason = some no_key }
      else judge_kept l s (find s.entry_ip kept)

  -- lines 93 to 218, for a server that matches
  unfoldable pub explain_logical :
      Platform → Options → Table Addr (Candidate F) → LogicalServer F → Explanation
  explain_logical p o kept l =
      let reasons = logical_reasons p o l in
      let physical = map (explain_machine o kept (not (is_none reasons)) l) l.servers in
      let included = any_included physical in
      record {
        server_name = l.name;
        country = (resolve_country p l).0;
        city = deref p l.city;
        load = l.load;
        tier = l.tier;
        secure_core = secure_core l;
        tor = tor l;
        p2p = p2p l;
        stream = streaming l;
        free = free l;
        enabled = enabled l;
        physical = physical;
        included = included;
        reasons =
            if included then [] else if is_none reasons then machine_reasons physical else reasons;
        notes = sibling_notes l.name physical;
      }

  unfoldable pub explain_matching :
      Platform
      → Options
      → Table Addr (Candidate F)
      → String
      → List (LogicalServer F)
      → List Explanation
  unfolding explain_logical matches
  explain_matching p o kept query [] = []
  explain_matching p o kept query (l ∷ rest) =
      let more = explain_matching p o kept query rest in
      if matches p l query then explain_logical p o kept l ∷ more else more

  -- `Explain`
  unfoldable pub explain : Platform → List (LogicalServer F) → Options → String → List Explanation
  unfolding explain_matching by_entry_ip
  explain p logicals o text =
      let query = p.to_lower (p.trim_space text) in
      if str_eq query ""
      then []
      else explain_matching p o (by_entry_ip [] (build p o logicals).0) query logicals

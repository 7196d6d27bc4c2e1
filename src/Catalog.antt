-- ===== src/Catalog.antt =====
-- internal/catalog/catalog.go: candidates, the options that select them, and the filters.
pub mod Build
pub mod Loads
pub mod Render
pub mod Explain
use Prim.Native.Char.{code}
use Prim.Native.String
use Prim.Native.String.{len, slice}
use gluetun_proton_list_upda.Prelude.{
  ℕ, String, Bool, true, false, not, ◌&&◌, ◌||◌, List, [], ◌∷◌, ◌++◌, Option, none, some, ltb, leb,
  ◌==◌, str_eq, string_eq, is_some, if◌then◌else◌, length,
}
use gluetun_proton_list_upda.Prelude.Addr.{Addr}
use gluetun_proton_list_upda.Platform.{Platform}
use gluetun_proton_list_upda.Proton.{
  LogicalServer, PhysicalServer, secure_core, tor, p2p, streaming, ipv6, free, enabled,
}
use gluetun_proton_list_upda.Countries

abbrev pub vpn_wireguard : String
vpn_wireguard = "wireguard"

abbrev pub vpn_openvpn : String
vpn_openvpn = "openvpn"

pub record Candidate (F : Type 0) : Type 0 where
  pub hostname : String
  pub server_name : String
  pub logical_id : String
  pub country : String
  pub region : String
  pub city : String
  pub entry_ip : Addr
  pub entry_ipv6 : Addr
  pub exit_ip : Addr
  pub wg_pub_key : String
  pub load : ℕ
  pub proton_score : F
  pub free : Bool
  pub secure_core : Bool
  pub tor : Bool
  pub p2p : Bool
  pub stream : Bool
  pub ipv6 : Bool
  pub tier : Option ℕ

pub record Stats : Type 0 where
  pub logicals_total : ℕ
  pub logicals_kept : ℕ
  pub physical_total : ℕ
  pub physical_kept : ℕ
  pub disabled_skipped : ℕ
  pub duplicate_skipped : ℕ
  pub above_tier_skipped : ℕ
  pub secure_core_total : ℕ
  pub tor_total : ℕ
  pub p2p_total : ℕ
  pub stream_total : ℕ
  pub free_total : ℕ
  pub ipv6_total : ℕ
  pub unknown_countries : List String

pub record Requirements : Type 0 where
  pub port_forward : Bool
  pub secure_core : Bool
  pub tor : Bool
  pub stream : Bool
  pub free : Bool
  pub premium : Bool

abbrev pub no_requirements : Requirements
no_requirements = record {
  port_forward = false;
  secure_core = false;
  tor = false;
  stream = false;
  free = false;
  premium = false;
}

-- `MaxLoad` is the int of the configuration; a value that is not positive is given as 0.
pub record Options : Type 0 where
  pub countries : List String
  pub exclude_countries : List String
  pub cities : List String
  pub max_load : ℕ
  pub secure_core : String
  pub tor : String
  pub p2p : String
  pub stream : String
  pub free : String
  pub ipv6 : String
  pub vpn_type : String
  pub include_ipv6 : Bool
  pub max_tier : Option ℕ
  pub require : Requirements

-- `None`: no requirement is in force.
unfoldable pub none_required : Requirements → Bool
none_required r = not (r.port_forward || r.secure_core || r.tor || r.stream || r.free || r.premium)

-- One row of the table in `Unmet`.
abbrev pub check : Bool → Bool → String → List String → List String
check required has name names = if required && not has then name ∷ names else names

module _ {F : Type 0} where
  unfoldable pub unmet : Requirements → Candidate F → List String
  unmet r c = check r.port_forward c.p2p "port_forward_only" (
      check r.secure_core c.secure_core "secure_core_only" (
        check r.tor c.tor "tor_only" (
          check r.stream c.stream "stream_only"
            (check r.free c.free "free_only" (check r.premium (not c.free) "premium_only" [])))))

  unfoldable pub satisfied : Requirements → LogicalServer F → Bool
  satisfied r l =
      if r.port_forward && not (p2p l)
      then false
      else if r.secure_core && not (secure_core l)
      then false
      else if r.tor && not (tor l)
      then false
      else if r.stream && not (streaming l)
      then false
      else if r.free && not (free l)
      then false
      else if r.premium && free l
      then false
      else true

  unfoldable pub above_tier : LogicalServer F → Option ℕ → Bool
  above_tier l max_tier = elim max_tier [
    | none ↦ false
    | some limit ↦ elim l.tier [ none ↦ false | some t ↦ ltb limit t ]
  ]

-- A tri-state filter; any text but "only" and "exclude" includes.
unfoldable pub feature_allowed : String → Bool → Bool
feature_allowed filter has =
    if str_eq filter "only" then has else if str_eq filter "exclude" then not has else true

-- The six tri-state filters together.
unfoldable pub features_allowed : {F : Type 0} → Options → LogicalServer F → Bool
features_allowed o l = not (
    not (feature_allowed o.secure_core (secure_core l))
    || not (feature_allowed o.tor (tor l))
    || not (feature_allowed o.p2p (p2p l))
    || not (feature_allowed o.stream (streaming l))
    || not (feature_allowed o.free (free l))
    || not (feature_allowed o.ipv6 (ipv6 l)))

unfoldable pub machine_has_ipv6 : List PhysicalServer → Bool
machine_has_ipv6 [] = false
machine_has_ipv6 (s ∷ rest) = not (str_eq s.entry_ipv6 "") || machine_has_ipv6 rest

-- `derefString`
unfoldable pub deref : Platform → Option String → String
deref p none = ""
deref p (some s) = p.trim_space s

is_upper : ℕ → Bool
is_upper c = leb 65 c && leb c 90

-- `secureCoreNamePattern`, ^[A-Z]{2}-([A-Z]{2}): the exit country's code.
unfoldable pub secure_core_exit : String → Option String
unfolding is_upper
secure_core_exit
      (String.◌∷◌ a (String.◌∷◌ b (String.◌∷◌ dash (String.◌∷◌ c (String.◌∷◌ d rest))))) =
    if is_upper (code a)
      && is_upper (code b)
      && code dash == 45
      && is_upper (code c)
      && is_upper (code d)
    then some (String.◌∷◌ c (String.◌∷◌ d String.[]))
    else none
secure_core_exit _ = none

-- The first two bytes of the name are taken to be its first two characters, as in ASCII.
unfoldable pub resolve_country : {F : Type 0} → Platform → LogicalServer F → String × Bool
resolve_country p l =
    let trimmed = p.trim_space l.exit_country in
    let from_core =
      if str_eq trimmed "" && secure_core l
      then (elim (secure_core_exit l.name) [ none ↦ trimmed | some match ↦ match ])
      else trimmed in
    let country_code =
      if str_eq from_core "" && leb 2 (len l.name) then slice l.name 0 2 else from_core in
    Countries.name p country_code

-- A set of texts made of a list, as `toSet` and `toLowerSet` build: a test on it is a search.
unfoldable pub contains : String → List String → Bool
contains s [] = false
contains s (t ∷ ts) = str_eq t s || contains s ts

unfoldable pub is_empty : List String → Bool
is_empty [] = true
is_empty (_ ∷ _) = false

-- `strings.ToLower(strings.TrimSpace(value))` of each value of `toLowerSet`
unfoldable pub to_lower_set : Platform → List String → List String
to_lower_set p [] = []
to_lower_set p (t ∷ ts) = p.to_lower (p.trim_space t) ∷ to_lower_set p ts

-- `len(allowedCountries) > 0` and not in it
unfoldable pub country_refused : Options → String → Bool
unfolding is_empty contains
country_refused o country = not (is_empty o.countries) && not (contains country o.countries)

unfoldable pub city_refused : Platform → Options → String → Bool
unfolding is_empty contains to_lower_set
city_refused p o city =
    not (is_empty o.cities) && not (contains (p.to_lower city) (to_lower_set p o.cities))

-- ===== src/Platform.antt =====
-- What the program takes from elsewhere as plain functions: Unicode case and space rules and the
-- address parser of Go's standard library, its paths and its JSON, and Gluetun's table of country names, of which
-- internal/countries/codes.go is a copy. Nothing is assumed of them.
use gluetun_proton_list_upda.Prelude.{ℕ, Bool, String, Option}
use gluetun_proton_list_upda.Prelude.Addr.{Addr}
use gluetun_proton_list_upda.Prelude.Table.{Table}

pub record Platform : Type 0 where
  pub to_lower : String → String
  pub to_upper : String → String
  pub trim_space : String → String
  pub parse_addr : String → Option Addr
  -- keyed by the lowercase alpha-2 code
  pub code_to_name : Table String String
  -- `strings.Contains`, the text first
  pub has_substring : String → String → Bool
  -- `filepath.Join` and `filepath.IsAbs`
  pub join : String → String → String
  pub is_abs : String → Bool
  -- the `version` that a JSON text decodes to as an object, 0 where it has none
  pub raw_version : String → Option ℕ

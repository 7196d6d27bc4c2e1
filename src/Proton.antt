-- ===== src/Proton.antt =====
-- internal/proton/model.go: what Proton's API reports about servers. `F` stands for float64, and a
-- pointer that may be nil is an `Option`.
use Prim.Native.Nat.{bit_and}
use gluetun_proton_list_upda.Prelude.{ℕ, Bool, false, not, String, List, Option, none, some, ◌==◌}
use gluetun_proton_list_upda.Prelude.Addr.{Addr}

abbrev pub feature_secure_core : ℕ
feature_secure_core = 1

abbrev pub feature_tor : ℕ
feature_tor = 2

abbrev pub feature_p2p : ℕ
feature_p2p = 4

abbrev pub feature_streaming : ℕ
feature_streaming = 8

abbrev pub feature_ipv6 : ℕ
feature_ipv6 = 16

abbrev pub status_disabled : ℕ
status_disabled = 0

pub record PhysicalServer : Type 0 where
  pub id : String
  pub entry_ip : Addr
  pub exit_ip : Addr
  pub entry_ipv6 : String
  pub domain : String
  pub status : ℕ
  pub x25519_public_key : String
  pub label : String

pub record LogicalServer (F : Type 0) : Type 0 where
  pub id : String
  pub name : String
  pub entry_country : String
  pub exit_country : String
  pub region : Option String
  pub city : Option String
  pub load : ℕ
  pub score : F
  pub status : ℕ
  pub tier : Option ℕ
  pub features : ℕ
  pub servers : List PhysicalServer

pub record ServerLoad (F : Type 0) : Type 0 where
  pub id : String
  pub load : ℕ
  pub score : F
  pub status : ℕ

module _ {F : Type 0} where
  unfoldable pub secure_core : LogicalServer F → Bool
  secure_core l = not (bit_and l.features feature_secure_core == 0)

  unfoldable pub tor : LogicalServer F → Bool
  tor l = not (bit_and l.features feature_tor == 0)

  unfoldable pub p2p : LogicalServer F → Bool
  p2p l = not (bit_and l.features feature_p2p == 0)

  unfoldable pub streaming : LogicalServer F → Bool
  streaming l = not (bit_and l.features feature_streaming == 0)

  unfoldable pub ipv6 : LogicalServer F → Bool
  ipv6 l = not (bit_and l.features feature_ipv6 == 0)

  -- A missing tier counts as paid.
  unfoldable pub free : LogicalServer F → Bool
  free l = elim l.tier [ none ↦ false | some t ↦ t == 0 ]

  unfoldable pub enabled : LogicalServer F → Bool
  enabled l = not (l.status == status_disabled)

unfoldable pub machine_enabled : PhysicalServer → Bool
machine_enabled s = not (s.status == status_disabled)

-- ===== src/Prelude/Addr.antt =====
-- `netip.Addr`: the zero value, an IPv4 address, or an IPv6 address with its zone. The source keys
-- its maps by the address's text, which is one text for each address; the model keys them by the
-- address.
use gluetun_proton_list_upda.Prelude.Tests.{Eq, ◌==◌, str_eq, str_eq_iff}
use Prim.Native.Nat.{ℕ}
use Prim.Native.String.{String}
use mathlib.Core.Path.{◌≡◌}
use mathlib.Core.Logic.{◌↔◌}
use mathlib.Core.Bool.{Bool, true, false, ◌&&◌}
use native.Mathlib.Omega.{arith}

pub data Addr : Type 0 where
  invalid : Addr
  v4 : ℕ → Addr
  v6 : ℕ → String → Addr

abbrev pub is_valid : Addr → Bool
is_valid invalid = false
is_valid (v4 _) = true
is_valid (v6 _ _) = true

abbrev pub is_6 : Addr → Bool
is_6 invalid = false
is_6 (v4 _) = false
is_6 (v6 _ _) = true

abbrev pub addr_beq : Addr → Addr → Bool
addr_beq invalid invalid = true
addr_beq invalid (v4 _) = false
addr_beq invalid (v6 _ _) = false
addr_beq (v4 _) invalid = false
addr_beq (v4 a) (v4 b) = a == b
addr_beq (v4 _) (v6 _ _) = false
addr_beq (v6 _ _) invalid = false
addr_beq (v6 _ _) (v4 _) = false
addr_beq (v6 a s) (v6 b t) = a == b && str_eq s t

pub addr_beq_iff : (a b : Addr) → (addr_beq a b ≡ true) ↔ (a ≡ b)
addr_beq_iff invalid invalid = ground arith
addr_beq_iff invalid (v4 _) = ground arith
addr_beq_iff invalid (v6 _ _) = ground arith
addr_beq_iff (v4 _) invalid = ground arith
addr_beq_iff (v4 a) (v4 b) = ground arith
addr_beq_iff (v4 _) (v6 _ _) = ground arith
addr_beq_iff (v6 _ _) invalid = ground arith
addr_beq_iff (v6 _ _) (v4 _) = ground arith
addr_beq_iff (v6 a s) (v6 b t) = ground (arith, str_eq_iff s t)

instance abbrev pub addr_eq : Eq Addr
addr_eq = record { beq = addr_beq; beq_iff = addr_beq_iff }

-- ===== src/Catalog/Explain/Rules.antt =====
-- internal/catalog/explain.go: the rules that are reported of a server, against those of `Build`.
use gluetun_proton_list_upda.Prelude.{
  String, Bool, true, false, not, ◌&&◌, ◌≡◌, refl, List, str_eq_iff, arith,
}
use gluetun_proton_list_upda.Prelude.Addr.{addr_eq}
use gluetun_proton_list_upda.Platform.{Platform}
use gluetun_proton_list_upda.Proton.{LogicalServer}
use gluetun_proton_list_upda.Catalog.{Options, features_allowed, feature_allowed}
use gluetun_proton_list_upda.Catalog.Build.Eligible.{admitted}
use gluetun_proton_list_upda.Catalog.Explain.{
  Reason, note_if, feature_reason, feature_reasons, logical_reasons, is_none,
}

is_none-note_if :
    (b : Bool) (why : Reason) (rest : List Reason)
    → is_none (note_if b why rest) ≡ (not b && is_none rest)
unfolding note_if
is_none-note_if true why rest = refl
is_none-note_if false why rest = refl

is_none-feature_reason :
    (name filter : String) (has : Bool) (rest : List Reason)
    → is_none (feature_reason name filter has rest) ≡ (feature_allowed filter has && is_none rest)
unfolding feature_reason note_if feature_allowed
is_none-feature_reason name filter has rest =
    ground
      (arith, str_eq_iff filter "only", str_eq_iff filter "exclude", str_eq_iff "exclude" "only")

module _ {F : Type 0} where
  is_none-feature_reasons :
      (o : Options) (l : LogicalServer F) (rest : List Reason)
      → is_none (feature_reasons o l rest) ≡ (features_allowed o l && is_none rest)
  unfolding feature_reasons features_allowed
  is_none-feature_reasons o l rest =
      rw
        (
          is_none-feature_reason, is_none-feature_reason, is_none-feature_reason,
          is_none-feature_reason, is_none-feature_reason, is_none-feature_reason,
        )
        (ground arith)

  -- No rule that is reported rejects a server exactly where no rule of `Build` does.
  pub is_none-logical_reasons :
      (p : Platform) (o : Options) (l : LogicalServer F)
      → is_none (logical_reasons p o l) ≡ admitted p o l
  unfolding logical_reasons admitted
  is_none-logical_reasons p o l =
      rw
        (
          is_none-note_if, is_none-feature_reasons, is_none-note_if, is_none-note_if,
          is_none-note_if, is_none-note_if, is_none-note_if, is_none-note_if,
        )
        (ground arith)

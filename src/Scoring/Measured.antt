-- ===== src/Scoring/Measured.antt =====
-- What a candidate's latency measurement does to its score.
use gluetun_proton_list_upda.Prelude.{◌≡◌, true, false, Option, none, some, arith, is_some}
use gluetun_proton_list_upda.Prelude.Addr.{addr_eq, addr_beq_iff}
use gluetun_proton_list_upda.Prelude.Table.{find, remove, find-put, find-remove}
use gluetun_proton_list_upda.Prelude.Real.{Float}
use gluetun_proton_list_upda.Catalog.{Candidate}
use gluetun_proton_list_upda.Latency.{Result, History, blend, store, is_ok}
use gluetun_proton_list_upda.Scoring.{Weights, score, usable_result}

module _ {F : Type 0} (fl : Float F) (factor : F) where
  blend_failed :
      (previous : Option Result) (fresh : Result)
      → is_some fresh.err ≡ true
      → is_ok (blend fl factor previous fresh) ≡ false
  unfolding blend
  blend_failed none fresh h = ground arith
  blend_failed (some previous) fresh h = ground arith

  usable_after_failure :
      (h : History) (c : Candidate F) (fresh : Result)
      → is_some fresh.err ≡ true
      → usable_result fl (store fl factor h c.entry_ip fresh).0 c ≡ none
  unfolding usable_result store
  usable_after_failure h c fresh bad = ground (
    arith,
    find-put c.entry_ip c.entry_ip (blend fl factor (find c.entry_ip h) fresh) h,
    addr_beq_iff c.entry_ip c.entry_ip,
    blend_failed (find c.entry_ip h) fresh bad,
  )

  usable_after_removal :
      (h : History) (c : Candidate F) → usable_result fl (remove c.entry_ip h) c ≡ none
  unfolding usable_result
  usable_after_removal h c =
      ground (arith, find-remove c.entry_ip c.entry_ip h, addr_beq_iff c.entry_ip c.entry_ip)

  -- A failed probe makes a candidate score exactly as if it had never been measured, whatever its
  -- measurement was before.
  pub score_after_failure :
      (h : History) (w : Weights F) (best span : F) (c : Candidate F) (fresh : Result)
      → is_some fresh.err ≡ true
      → score fl (store fl factor h c.entry_ip fresh).0 w best span c
        ≡ score fl (remove c.entry_ip h) w best span c
  unfolding score
  score_after_failure h w best span c fresh bad =
      rw (usable_after_failure h c fresh bad, usable_after_removal h c)

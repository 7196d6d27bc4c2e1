-- ===== src/Engine/Transfer/Blocks.antt =====
-- internal/engine/transfer.go, `transferBlocksSwitch`: a switch is not held back for ever.
use gluetun_proton_list_upda.Prelude.{
  ℕ, ◌+◌, ◌≤◌, ◌<◌, ◌≡◌, ◌≢◌, refl, sym, ap, subst, ◌∙◌, String, true, List, [], ◌∷◌, none, some,
  arith,
}
use gluetun_proton_list_upda.Engine.Core.{Config, Reading, Transfer, Engine}
use gluetun_proton_list_upda.Engine.Transfer.{
  average_rates, record_sample, note_busy, accept_reading, refuse_reading, is_busy, blocks_switch,
  transfer_in_progress, first_reading_grace,
}
use gluetun_proton_list_upda.Engine.Transfer.Window.{
  Poll, answered, silent, poll, run_polls, IsOrderedFrom,
}

-- Once polled, a busy tunnel has the time at which it became busy.
abbrev IsTracked : {F : Type 0} → Config F → Transfer → Type 0
IsTracked cfg t = (t.checked_at ≢ 0) → (is_busy cfg t ≡ true) → (t.busy_since ≢ 0)

module _ {F : Type 0} (cfg : Config F) where
  note_busy-IsTracked : (now : ℕ) (t : Transfer) → now ≢ 0 → IsTracked cfg (note_busy cfg now t)
  unfolding note_busy is_busy
  note_busy-IsTracked now t h = ground arith

  accept_reading-IsTracked :
      (now : ℕ) (source : String) (r : Reading) (t : Transfer)
      → now ≢ 0
      → IsTracked cfg (accept_reading cfg now source r t)
  unfolding accept_reading
  accept_reading-IsTracked now source r t h =
      note_busy-IsTracked now
        (record_sample cfg now r
          (record t { source = source; reachable = true; err = ""; reading = r; checked_at = now }))
        h

  run_polls-IsTracked :
      (polls : List (ℕ × Poll)) (now : ℕ) (t : Transfer)
      → now ≢ 0
      → IsOrderedFrom now polls
      → IsTracked cfg t
      → IsTracked cfg (run_polls cfg polls t)
  unfolding run_polls poll refuse_reading is_busy average_rates
  run_polls-IsTracked [] now t h o i = i
  run_polls-IsTracked ((at, answered s r) ∷ rest) now t h o i =
      run_polls-IsTracked rest at (accept_reading cfg at s r t) (omega (arith, o.0)) o.1
        (accept_reading-IsTracked at s r t (omega (arith, o.0)))
  run_polls-IsTracked ((at, silent s) ∷ rest) now t h o i =
      run_polls-IsTracked rest at (refuse_reading s t) (omega (arith, o.0)) o.1 i

-- If a limit on the wait is configured, then whatever was polled, a switch is no longer held back
-- at a time that is past the grace period after the start and past the limit counted from the
-- time the tunnel became busy.
pub hold_ends :
    {F : Type 0} (e : Engine F) (t : Transfer) (polls : List (ℕ × Poll)) (first now : ℕ)
    → first ≢ 0
    → IsOrderedFrom first polls
    → t.checked_at ≡ 0
    → e.transfer ≡ run_polls e.cfg polls t
    → 0 < e.cfg.max_defer
    → e.started_at + first_reading_grace ≤ now
    → e.transfer.busy_since + e.cfg.max_defer < now
    → (blocks_switch e now).1 ≡ none
unfolding blocks_switch
hold_ends e t polls first now positive ordered fresh polled limited graced waited =
    let i = run_polls-IsTracked e.cfg polls first t positive ordered (λ c. absurd (c fresh)) in
    let k : IsTracked e.cfg e.transfer = subst (IsTracked e.cfg) (sym polled) i in ground arith

-- every one of the polls leaves the tunnel busy
abbrev pub StaysBusy : {F : Type 0} → Config F → List (ℕ × Poll) → Transfer → Type 0
StaysBusy cfg [] t = Unit
StaysBusy cfg ((now, p) ∷ rest) t =
    (is_busy cfg (poll cfg now p t) ≡ true) × StaysBusy cfg rest (poll cfg now p t)

note_busy-busy_since :
    {F : Type 0} (cfg : Config F) (now : ℕ) (t : Transfer)
    → t.busy_since ≢ 0
    → is_busy cfg (note_busy cfg now t) ≡ true
    → (note_busy cfg now t).busy_since ≡ t.busy_since
unfolding note_busy is_busy average_rates
note_busy-busy_since cfg now t h b = ground arith

record_sample-busy_since :
    {F : Type 0} (cfg : Config F) (now : ℕ) (r : Reading) (t : Transfer)
    → (record_sample cfg now r t).busy_since ≡ t.busy_since
unfolding record_sample
record_sample-busy_since cfg now r t = ground arith

poll-busy_since :
    {F : Type 0} (cfg : Config F) (now : ℕ) (p : Poll) (t : Transfer)
    → t.busy_since ≢ 0
    → is_busy cfg (poll cfg now p t) ≡ true
    → (poll cfg now p t).busy_since ≡ t.busy_since
unfolding poll accept_reading refuse_reading
poll-busy_since cfg now (answered s r) t h b =
    let t' = record t { source = s; reachable = true; err = ""; reading = r; checked_at = now } in
    let same = record_sample-busy_since cfg now r t' in
    note_busy-busy_since cfg now (record_sample cfg now r t') (λ z. h (sym same ∙ z)) b ∙ same
poll-busy_since cfg now (silent s) t h b = refl

run_polls-busy_since :
    {F : Type 0} (cfg : Config F) (polls : List (ℕ × Poll)) (t : Transfer)
    → t.busy_since ≢ 0
    → StaysBusy cfg polls t
    → (run_polls cfg polls t).busy_since ≡ t.busy_since
unfolding run_polls
run_polls-busy_since cfg [] t h s = refl
run_polls-busy_since cfg ((now, p) ∷ rest) t h s =
    let one = poll-busy_since cfg now p t h s.0 in
    run_polls-busy_since cfg rest (poll cfg now p t) (λ z. h (sym one ∙ z)) s.1 ∙ one

-- While every poll leaves the tunnel busy, with readings or without an answer, a transfer holds
-- a switch back no longer than the configured limit, counted from the time that the first busy
-- poll noted.
pub busy_run_bounded :
    {F : Type 0} (e : Engine F) (t : Transfer) (polls : List (ℕ × Poll)) (now : ℕ)
    → t.busy_since ≢ 0
    → StaysBusy e.cfg polls t
    → e.transfer ≡ run_polls e.cfg polls t
    → 0 < e.cfg.max_defer
    → (blocks_switch e now).1 ≡ some transfer_in_progress
    → now ≤ t.busy_since + e.cfg.max_defer
unfolding blocks_switch
busy_run_bounded e t polls now noted busy polled limited held =
    let same = ap (λ x. x.busy_since) polled ∙ run_polls-busy_since e.cfg polls t noted busy in
    ground arith

-- ===== src/Engine/Transfer/Window.antt =====
-- internal/engine/transfer.go, `recordTransferSample`: the window of samples over many polls.
use gluetun_proton_list_upda.Prelude.{
  ℕ, ◌+◌, ◌≤◌, ◌≡◌, ◌≢◌, ◌⊎◌, inl, inr, subst, refl, sym, ap, ◌∙◌, String, Bool, true, false, List,
  [], ◌∷◌, ◌++◌, leb, ◌==◌, if◌then◌else◌, keep, append_assoc, append-nil, arith, Bool-cases,
}
use gluetun_proton_list_upda.Engine.Core.{Config, Reading, Sample, Transfer}
use gluetun_proton_list_upda.Engine.Transfer.{
  record_sample, note_busy, accept_reading, refuse_reading,
}

-- A poll at a time: the source and the reading, or that nothing answered.
pub data Poll : Type 0 where
  answered : String → Reading → Poll
  silent : String → Poll

module _ {F : Type 0} (cfg : Config F) where
  unfoldable pub poll : ℕ → Poll → Transfer → Transfer
  unfolding accept_reading refuse_reading
  poll now (answered source r) t = accept_reading cfg now source r t
  poll now (silent err) t = refuse_reading err t

  unfoldable pub run_polls : List (ℕ × Poll) → Transfer → Transfer
  unfolding poll
  run_polls [] t = t
  run_polls ((now, p) ∷ rest) t = run_polls rest (poll now p t)

abbrev pub sample_of : ℕ → Reading → Sample
sample_of now r = record { at = now; download = r.download; upload = r.upload }

-- every reading that was taken, in order
abbrev pub taken : List (ℕ × Poll) → List Sample
taken [] = []
taken ((now, answered _ r) ∷ rest) = sample_of now r ∷ taken rest
taken ((now, silent _) ∷ rest) = taken rest

-- the time of the last reading, or the given one where there is none
abbrev pub last_taken : ℕ → List (ℕ × Poll) → ℕ
last_taken now [] = now
last_taken now ((at, answered _ _) ∷ rest) = last_taken at rest
last_taken now ((at, silent _) ∷ rest) = last_taken now rest

-- the clock does not run backwards
abbrev pub IsOrderedFrom : ℕ → List (ℕ × Poll) → Type 0
IsOrderedFrom now [] = Unit
IsOrderedFrom now ((at, _) ∷ rest) = (now ≤ at) × IsOrderedFrom at rest

abbrev within : ℕ → ℕ → Sample → Bool
within window now s = leb now (s.at + window)

IsOrderedFrom-weaken :
    {now at : ℕ}
    → now ≤ at
    → (polls : List (ℕ × Poll)) → IsOrderedFrom at polls
    → IsOrderedFrom now polls
IsOrderedFrom-weaken h [] o = o
IsOrderedFrom-weaken h ((t, p) ∷ rest) o = (omega (arith, o.0), o.1)

keep_head :
    (xs ys zs : List Sample) (w now later : ℕ) (x : Sample)
    → (within w now x ≡ true) ⊎ (within w now x ≡ false)
    → now ≤ later
    → keep (within w later) (xs ++ ys) ≡ keep (within w later) zs
    → keep (within w later) ((if within w now x then x ∷ xs else xs) ++ ys)
      ≡ (if within w later x then x ∷ keep (within w later) zs else keep (within w later) zs)
keep_head xs ys zs w now later x (inl e) h ih =
    subst
      (λ b.
        keep (within w later) ((if b then x ∷ xs else xs) ++ ys)
        ≡ (if within w later x then x ∷ keep (within w later) zs else keep (within w later) zs))
      (sym e) (ap (λ l. if within w later x then x ∷ l else l) ih)
keep_head xs ys zs w now later x (inr e) h ih =
    let f : within w later x ≡ false = ground arith in
    subst
      (λ b.
        keep (within w later) ((if b then x ∷ xs else xs) ++ ys)
        ≡ (if within w later x then x ∷ keep (within w later) zs else keep (within w later) zs))
      (sym e)
      (subst
        (λ b.
          keep (within w later) (xs ++ ys)
          ≡ (if b then x ∷ keep (within w later) zs else keep (within w later) zs))
        (sym f) ih)

keep-keep :
    (w now later : ℕ) (xs ys : List Sample)
    → now ≤ later
    → keep (within w later) (keep (within w now) xs ++ ys) ≡ keep (within w later) (xs ++ ys)
keep-keep w now later [] ys h = refl
keep-keep w now later (x ∷ xs) ys h =
    let ih = keep-keep w now later xs ys h in
    keep_head (keep (within w now) xs) ys (xs ++ ys) w now later x (Bool-cases (within w now x)) h
      ih

note_busy-samples :
    {F : Type 0} (cfg : Config F) (now : ℕ) (t : Transfer)
    → (note_busy cfg now t).samples ≡ t.samples
unfolding note_busy
note_busy-samples cfg now t = ground arith

module _ {F : Type 0} (cfg : Config F) (some_window : cfg.busy_window ≢ 0) where
  record_sample-samples :
      (now : ℕ) (r : Reading) (t : Transfer)
      → (record_sample cfg now r t).samples
        ≡ keep (within cfg.busy_window now) (t.samples ++ sample_of now r ∷ [])
  unfolding record_sample
  record_sample-samples now r t =
      let e : (cfg.busy_window == 0) ≡ false = ground arith in
      ap
        (λ b.
          (if b then record t { samples = sample_of now r ∷ [] } else record t {
            samples = keep (within cfg.busy_window now) (t.samples ++ sample_of now r ∷ []);
          }).samples)
        e

  accept_reading-samples :
      (now : ℕ) (source : String) (r : Reading) (t : Transfer)
      → (accept_reading cfg now source r t).samples
        ≡ keep (within cfg.busy_window now) (t.samples ++ sample_of now r ∷ [])
  unfolding accept_reading record_sample
  accept_reading-samples now source r t =
      let t' = record t {
        source = source;
        reachable = true;
        err = "";
        reading = r;
        checked_at = now;
      } in
      note_busy-samples cfg now (record_sample cfg now r t') ∙ record_sample-samples now r t'

  samples_after :
      (polls : List (ℕ × Poll)) (now : ℕ) (before : List Sample) (t : Transfer)
      → IsOrderedFrom now polls
      → t.samples ≡ keep (within cfg.busy_window now) before
      → (run_polls cfg polls t).samples
        ≡ keep (within cfg.busy_window (last_taken now polls)) (before ++ taken polls)
  unfolding run_polls poll accept_reading refuse_reading
  samples_after [] now before t o h =
      h ∙ ap (keep (within cfg.busy_window now)) (sym (append-nil before))
  samples_after ((at, answered s r) ∷ rest) now before t o h =
      let kept =
        accept_reading-samples at s r t
        ∙ ap (λ l. keep (within cfg.busy_window at) (l ++ sample_of at r ∷ [])) h
        ∙ keep-keep cfg.busy_window now at before (sample_of at r ∷ []) o.0 in
      samples_after rest at (before ++ sample_of at r ∷ []) (accept_reading cfg at s r t) o.1 kept
      ∙ ap (keep (within cfg.busy_window (last_taken at rest)))
          (append_assoc before (sample_of at r ∷ []) (taken rest))
  samples_after ((at, silent s) ∷ rest) now before t o h =
      samples_after rest now before (refuse_reading s t) (IsOrderedFrom-weaken o.0 rest o.1) h

-- Where a window is configured and the clock does not run backwards, the samples after any polls,
-- answered or not, are those of all readings since the start that are no older than the window at
-- the time of the last reading: an unanswered poll removes none.
pub run_polls-samples :
    {F : Type 0} (cfg : Config F) (polls : List (ℕ × Poll)) (t : Transfer)
    → cfg.busy_window ≢ 0
    → t.samples ≡ []
    → IsOrderedFrom 0 polls
    → (run_polls cfg polls t).samples
      ≡ keep (λ s. leb (last_taken 0 polls) (s.at + cfg.busy_window)) (taken polls)
run_polls-samples cfg polls t w empty o = samples_after cfg w polls 0 [] t o empty

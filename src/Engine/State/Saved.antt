-- ===== src/Engine/State/Saved.antt =====
-- What the file holds after any changes, updates and flushes, with writes that may fail.
use gluetun_proton_list_upda.Prelude.{
  ◌≡◌, refl, ◌∙◌, ap, Bool, true, false, List, [], ◌∷◌, some, arith,
}
use gluetun_proton_list_upda.Engine.State.{PersistedState, StateStore, mutate, update, flush, trim}

-- An operation on the store; the Boolean says whether the file can be replaced.
pub data Op (F : Type 0) : Type 0 where
  change : (PersistedState F → PersistedState F) → Op F
  save : (PersistedState F → PersistedState F) → Bool → Op F
  sync : Bool → Op F

module _ {F : Type 0} where
  unfoldable pub apply : StateStore F → Op F → StateStore F
  apply s (change f) = mutate f s
  apply s (save f writes) = (update f writes s).0
  apply s (sync writes) = (flush writes s).0

  unfoldable pub run : StateStore F → List (Op F) → StateStore F
  run s [] = s
  run s (op ∷ ops) = run (apply s op) ops

  -- The operations on the state alone.
  unfoldable pub changes : PersistedState F → List (Op F) → PersistedState F
  changes s [] = s
  changes s (change f ∷ ops) = changes (trim (f s)) ops
  changes s (save f writes ∷ ops) = changes (trim (f s)) ops
  changes s (sync writes ∷ ops) = changes s ops

  abbrev pub IsSaved : StateStore F → Type 0
  IsSaved s = s.dirty ≡ false → s.file ≡ some s.state

  apply-IsSaved : (s : StateStore F) (op : Op F) → IsSaved s → IsSaved (apply s op)
  unfolding apply mutate update flush
  apply-IsSaved s (change f) h = ground arith
  apply-IsSaved s (save f true) h = λ e. refl
  apply-IsSaved s (save f false) h = ground arith
  apply-IsSaved s (sync writes) h = ground arith

  run-IsSaved : (s : StateStore F) (ops : List (Op F)) → IsSaved s → IsSaved (run s ops)
  unfolding run
  run-IsSaved s [] h = h
  run-IsSaved s (op ∷ ops) h = run-IsSaved (apply s op) ops (apply-IsSaved s op h)

  state-apply-sync : (s : StateStore F) (writes : Bool) → (apply s (sync writes)).state ≡ s.state
  unfolding apply flush
  state-apply-sync s writes = ground arith

  state-apply-save :
      (s : StateStore F) (f : PersistedState F → PersistedState F) (writes : Bool)
      → (apply s (save f writes)).state ≡ trim (f s.state)
  unfolding apply update
  state-apply-save s f true = refl
  state-apply-save s f false = refl

  state-run : (s : StateStore F) (ops : List (Op F)) → (run s ops).state ≡ changes s.state ops
  unfolding run changes mutate apply
  state-run s [] = refl
  state-run s (change f ∷ ops) = state-run (mutate f s) ops
  state-run s (save f writes ∷ ops) =
      state-run (update f writes s).0 ops ∙ ap (λ t. changes t ops) (state-apply-save s f writes)
  state-run s (sync writes ∷ ops) =
      state-run (flush writes s).0 ops ∙ ap (λ t. changes t ops) (state-apply-sync s writes)

  flush_writes : (s : StateStore F) → IsSaved s → (flush true s).0.file ≡ some s.state
  unfolding flush
  flush_writes s h = ground arith

  -- From a store whose file is up to date, after any changes, updates and flushes, failed writes
  -- among them, a flush that can write leaves every change in the file, and no failed write has lost
  -- one from memory.
  pub run-flush :
      (s : StateStore F) (ops : List (Op F))
      → IsSaved s
      → ((flush true (run s ops)).0.file ≡ some (changes s.state ops))
        × ((run s ops).state ≡ changes s.state ops)
  run-flush s ops h =
      (flush_writes (run s ops) (run-IsSaved s ops h) ∙ ap some (state-run s ops), state-run s ops)

-- ===== src/Engine/Transfer.antt =====
-- internal/engine/transfer.go and rates.go: transfer rates, and when they hold a switch back.
pub mod Window
pub mod Blocks
use gluetun_proton_list_upda.Prelude.{
  ℕ, zero, suc, ◌+◌, ◌-◌, ◌*◌, ◌/◌, ◌%◌, ◌^◌, String, Bool, true, false, not, ◌&&◌, ◌||◌, List, [],
  ◌∷◌, ◌++◌, Option, none, some, ltb, leb, ◌==◌, str_eq, if◌then◌else◌, length, keep,
}
use gluetun_proton_list_upda.Engine.Core.{
  Config, Reading, Sample, Transfer, Engine, status_running, status_crashed,
}

-- uint64
abbrev pub u64 : ℕ → ℕ
u64 n = n % 2 ^ 64

unfoldable pub bits_from_bytes : ℕ → ℕ
bits_from_bytes bytes_per_second = u64 (bytes_per_second * 8)

-- What a rate source answers: its name and a reading, or an error.
pub data Answer : Type 0 where
  read : Reading → Answer
  failed : String → Answer

-- `readRates`: the first source that answers, and the errors of those asked before it.
unfoldable pub read_rates : List (String × Answer) → Option (String × Reading) × List String
read_rates [] = (none, [])
read_rates ((name, read r) ∷ rest) = (some (name, r), [])
read_rates ((name, failed e) ∷ rest) =
    let (found, failures) = read_rates rest in (found, e ∷ failures)

unfoldable pub total_download : List Sample → ℕ
total_download [] = 0
total_download (s ∷ ss) = s.download + total_download ss

unfoldable pub total_upload : List Sample → ℕ
total_upload [] = 0
total_upload (s ∷ ss) = s.upload + total_upload ss

-- The sums are uint64 and wrap.
unfoldable pub average_rates : Transfer → ℕ × ℕ
average_rates t = if length t.samples == 0 then (t.reading.download, t.reading.upload) else (
  u64 (total_download t.samples) / length t.samples,
  u64 (total_upload t.samples) / length t.samples,
)

module _ {F : Type 0} where
  unfoldable pub is_busy : Config F → Transfer → Bool
  unfolding average_rates
  is_busy cfg t =
      let (download, upload) = average_rates t in
      if ltb 0 cfg.busy_download && leb cfg.busy_download download
      then true
      else ltb 0 cfg.busy_upload && leb cfg.busy_upload upload

  -- `recordTransferSample` at time `now`; a sample is dropped if its age is more than the window.
  unfoldable pub record_sample : Config F → ℕ → Reading → Transfer → Transfer
  record_sample cfg now r t =
      let sample : Sample = record { at = now; download = r.download; upload = r.upload } in
      if cfg.busy_window == 0 then record t { samples = sample ∷ [] } else record t {
        samples = keep (λ s. leb now (s.at + cfg.busy_window)) (t.samples ++ sample ∷ []);
      }

  -- Lines 108 to 115 of `refreshTransferWith`: when the tunnel became busy, 0 where it is not.
  unfoldable pub note_busy : Config F → ℕ → Transfer → Transfer
  unfolding is_busy
  note_busy cfg now t =
      if is_busy cfg t && t.busy_since == 0
      then record t { busy_since = now }
      else if not (is_busy cfg t) && not (t.busy_since == 0)
      then record t { busy_since = 0 }
      else t

  -- The transfer fields after a poll that was answered, without the statistics of `recordTransfer`.
  unfoldable pub accept_reading : Config F → ℕ → String → Reading → Transfer → Transfer
  unfolding record_sample note_busy
  accept_reading cfg now source r t = note_busy cfg now (
      record_sample cfg now r
        (record t { source = source; reachable = true; err = ""; reading = r; checked_at = now }))

-- A poll that no source answered: the last rates stay.
unfoldable pub refuse_reading : String → Transfer → Transfer
refuse_reading err t = record t { reachable = false; err = err }

-- Why a switch is held back.
pub data Block : Type 0 where
  waiting_for_first_reading : Block
  transfer_in_progress : Block

abbrev pub first_reading_grace : ℕ
first_reading_grace = 300000000000

module _ {F : Type 0} where
  -- `transferBlocksSwitch` at time `now`. The only change to the engine is that the end of the grace
  -- period is noted.
  unfoldable pub blocks_switch : Engine F → ℕ → Engine F × Option Block
  blocks_switch e now =
      let t = e.transfer in
      if not e.cfg.qbittorrent
      then (e, none)
      else if t.checked_at == 0
      then (if not (str_eq e.gluetun.status "") && not (str_eq e.gluetun.status status_running)
          then (e, none)
          else if ltb (now - e.started_at) first_reading_grace
          then (e, some waiting_for_first_reading)
          else (record e { transfer = record t { grace_expired = true } }, none))
      else if not (is_busy e.cfg t)
      then (e, none)
      else if str_eq e.gluetun.status status_crashed
      then (e, none)
      else if ltb 0 e.cfg.max_defer
          && not (t.busy_since == 0)
          && ltb e.cfg.max_defer (now - t.busy_since)
      then (e, none)
      else (e, some transfer_in_progress)

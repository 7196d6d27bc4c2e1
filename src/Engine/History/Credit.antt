-- ===== src/Engine/History/Credit.antt =====
-- internal/engine/history.go, `transferredSince`: how many bytes are credited over many polls.
use gluetun_proton_list_upda.Prelude.{
  ℕ, ◌+◌, ◌-◌, ◌≤◌, ◌≡◌, ◌≢◌, ◌⊎◌, inl, inr, refl, String, List, [], ◌∷◌, Option, none, some,
  str_eq_iff, All, arith,
}
use gluetun_proton_list_upda.Engine.Core.{Reading, Transfer}
use gluetun_proton_list_upda.Engine.History.{transferred_since}

-- A reading, with the server it is attributed to; `none` where `recordTransfer` attributes it to
-- no server, and drops the baseline.
abbrev pub Attributed : Type 0
Attributed = Option String × Reading

unfoldable pub note_reading : Attributed → Transfer → (ℕ × ℕ) × Transfer
unfolding transferred_since
note_reading (none, r) t = ((0, 0), record t { baseline_host = "" })
note_reading (some host, r) t = transferred_since host r t

unfoldable pub credited : List Attributed → Transfer → ℕ × ℕ
unfolding note_reading
credited [] t = (0, 0)
credited (a ∷ rest) t =
    let ((down, up), t') = note_reading a t in
    let (more_down, more_up) = credited rest t' in (down + more_down, up + more_up)

-- How far a counter climbs from a value, its restarts left out.
abbrev pub climbs : (Reading → ℕ) → ℕ → List Attributed → ℕ
climbs counter from [] = 0
climbs counter from ((_, r) ∷ rest) = counter r - from + climbs counter (counter r) rest

abbrev pub IsNamed : Attributed → Type 0
IsNamed (none, _) = Unit
IsNamed (some host, _) = host ≢ ""

-- The baseline belongs to no server, or is the last reading.
abbrev IsCurrent : ℕ → ℕ → Transfer → Type 0
IsCurrent down up t = (t.baseline_host ≡ "") ⊎ ((t.baseline_down ≡ down) × (t.baseline_up ≡ up))

bounded_from :
    (polls : List Attributed) (t : Transfer) (down up : ℕ)
    → All IsNamed polls
    → IsCurrent down up t
    → ((credited polls t).0 ≤ climbs (λ r. r.downloaded_bytes) down polls)
      × ((credited polls t).1 ≤ climbs (λ r. r.uploaded_bytes) up polls)
unfolding credited note_reading transferred_since
bounded_from [] t down up named i = (omega arith, omega arith)
bounded_from ((none, r) ∷ rest) t down up named i =
    let ih =
      bounded_from rest (record t { baseline_host = "" }) r.downloaded_bytes r.uploaded_bytes
        named.1 (inl refl) in
    (omega (arith, ih.0), omega (arith, ih.1))
bounded_from ((some host, r) ∷ rest) t down up named i =
    let ih =
      bounded_from rest (transferred_since host r t).1 r.downloaded_bytes r.uploaded_bytes named.1
        (inr (refl, refl)) in
    let h = str_eq_iff t.baseline_host host in let n = named.0 in (ground arith, ground arith)

-- From no baseline, and whatever servers with a name the readings are attributed to, the bytes
-- credited to all of them together are never more than what the session counters climbed by, their
-- restarts left out: no byte is credited twice.
pub credited_bounded :
    (polls : List Attributed) (t : Transfer)
    → t.baseline_host ≡ ""
    → All IsNamed polls
    → ((credited polls t).0 ≤ climbs (λ r. r.downloaded_bytes) t.baseline_down polls)
      × ((credited polls t).1 ≤ climbs (λ r. r.uploaded_bytes) t.baseline_up polls)
credited_bounded polls t fresh named =
    bounded_from polls t t.baseline_down t.baseline_up named (inl fresh)

-- every reading is of one server, and its counters do not fall
abbrev pub IsStay : String → ℕ → ℕ → List Attributed → Type 0
IsStay host down up [] = Unit
IsStay host down up ((on, r) ∷ rest) =
    (on ≡ some host)
    × (down ≤ r.downloaded_bytes)
    × (up ≤ r.uploaded_bytes)
    × IsStay host r.downloaded_bytes r.uploaded_bytes rest

abbrev pub final : (Reading → ℕ) → ℕ → List Attributed → ℕ
final counter from [] = from
final counter from ((_, r) ∷ rest) = final counter (counter r) rest

-- While the tunnel stays on one server and the session counters do not restart, the server is
-- credited with exactly what the counters climbed by since the baseline.
pub stay_telescopes :
    (host : String) (polls : List Attributed) (t : Transfer)
    → t.baseline_host ≡ host
    → IsStay host t.baseline_down t.baseline_up polls
    → (t.baseline_down + (credited polls t).0
        ≡ final (λ r. r.downloaded_bytes) t.baseline_down polls)
      × (t.baseline_up + (credited polls t).1 ≡ final (λ r. r.uploaded_bytes) t.baseline_up polls)
unfolding credited note_reading transferred_since
stay_telescopes host [] t same stay = (omega arith, omega arith)
stay_telescopes host ((none, r) ∷ rest) t same stay = absurd (let q = stay.0 in ground arith)
stay_telescopes host ((some on, r) ∷ rest) t same stay =
    let (q, down, up, more) = stay in
    let q' : on ≡ host = ground arith in
    let ih = stay_telescopes host rest (transferred_since on r t).1 q' more in
    let h = str_eq_iff t.baseline_host on in (ground arith, ground arith)

-- ===== src/Latency.antt =====
-- internal/latency/latency.go: the results of probes, keyed by address, and how a new measurement
-- is blended into them.
pub mod Blend
use gluetun_proton_list_upda.Prelude.{
  ℕ, ◌+◌, zero, suc, Bool, true, false, not, ◌&&◌, ◌||◌, String, List, [], ◌∷◌, Option, none, some,
  ltb, ◌==◌, is_some, if◌then◌else◌, length, get_elem?, ◌-◌, ◌/◌, max,
}
use gluetun_proton_list_upda.Prelude.Addr.{Addr, addr_beq, addr_eq}
use gluetun_proton_list_upda.Prelude.Table.{Table, find, put}
use gluetun_proton_list_upda.Prelude.Real.{Float}
use gluetun_proton_list_upda.Prelude.Sort.{sort_stable}

-- Durations are nanoseconds; an error is its text.
pub record Result : Type 0 where
  pub rtt : ℕ
  pub err : Option String
  pub measured_at : ℕ
  pub samples : ℕ

-- `OK`
unfoldable pub is_ok : Result → Bool
is_ok r = not (is_some r.err) && ltb 0 r.rtt

abbrev pub History : Type 0
History = Table Addr Result

-- The smoothed round trip, factor*fresh + (1-factor)*previous.
unfoldable pub smooth : {F : Type 0} → Float F → F → ℕ → ℕ → ℕ
smooth fl factor fresh previous =
    fl.truncate (
      fl.add (fl.mul factor (fl.of_nat fresh))
        (fl.mul (fl.sub fl.unit factor) (fl.of_nat previous)))

-- The switch of `record`: the stored measurement after a fresh one.
unfoldable pub blend : {F : Type 0} → Float F → F → Option Result → Result → Result
unfolding is_ok
blend fl factor none fresh = fresh
blend fl factor (some previous) fresh =
    if not (is_ok fresh) && is_ok previous
    then record {
      rtt = previous.rtt;
      err = fresh.err;
      measured_at = fresh.measured_at;
      samples = previous.samples;
    }
    else if not (is_ok fresh)
    then fresh
    else if is_ok previous
    then record {
      rtt = smooth fl factor fresh.rtt previous.rtt;
      err = none;
      measured_at = fresh.measured_at;
      samples = fresh.samples;
    }
    else fresh

-- `record`: the new history and the blended measurement
unfoldable pub store : {F : Type 0} → Float F → F → History → Addr → Result → History × Result
store fl factor h ip fresh =
    let blended = blend fl factor (find ip h) fresh in (put ip blended h, blended)

-- `Lookup`
unfoldable pub lookup : History → Addr → Option Result
lookup h ip = find ip h

unfoldable pub is_wanted : Addr → List Addr → Bool
is_wanted ip [] = false
is_wanted ip (k ∷ ks) = addr_beq k ip || is_wanted ip ks

-- `Forget`: the history that is left and how many measurements were dropped
unfoldable pub forget : History → List Addr → History × ℕ
forget [] keep = ([], 0)
forget ((ip, r) ∷ rest) keep =
    let (left, removed) = forget rest keep in
    if is_wanted ip keep then ((ip, r) ∷ left, removed) else (left, suc removed)

-- One dial of `probeOne`.
pub data Dial : Type 0 where
  failed : String → Dial
  connected : ℕ → Dial

-- The loop of `probeOne`: the best time, the successes and the last error.
unfoldable pub dial_all : List Dial → ℕ → ℕ → Option String → ℕ × ℕ × Option String
dial_all [] best successes last = (best, successes, last)
dial_all (failed e ∷ rest) best successes last = dial_all rest best successes (some e)
dial_all (connected elapsed ∷ rest) best successes last =
    dial_all rest (if best == 0 || ltb elapsed best then elapsed else best) (suc successes) last

-- `probeOne` at time `now`, given the outcome of each dial that was made before the context ended.
unfoldable pub probe_one : ℕ → List Dial → Result
unfolding dial_all
probe_one now dials =
    let (best, successes, last) = dial_all dials 0 0 none in
    if successes == 0
    then record {
      rtt = 0;
      err = some (elim last [ none ↦ "no successful probe" | some e ↦ e ]);
      measured_at = now;
      samples = 0;
    }
    else record { rtt = best; err = none; measured_at = now; samples = successes }

pub record Summary : Type 0 where
  pub measured : ℕ
  pub failures : ℕ
  pub best : ℕ
  pub median : ℕ
  pub worst : ℕ
  pub last_run : ℕ

-- the counters of `Summarize`'s loop
unfoldable pub count_failures : History → ℕ
count_failures [] = 0
count_failures ((ip, r) ∷ h) = if is_some r.err then suc (count_failures h) else count_failures h

unfoldable pub newest : History → ℕ
newest [] = 0
newest ((ip, r) ∷ h) = max (newest h) r.measured_at

unfoldable pub positive_rtts : History → List ℕ
positive_rtts [] = []
positive_rtts ((ip, r) ∷ h) =
    let rest = positive_rtts h in if ltb 0 r.rtt then r.rtt ∷ rest else rest

-- `rtts[i]`; the indices of `Summarize` are in range
unfoldable pub at : List ℕ → ℕ → ℕ
at l i = elim (get_elem? l i) [ none ↦ 0 | some v ↦ v ]

unfoldable pub summarize : History → Summary
unfolding at
summarize h =
    let rtts = sort_stable ltb (positive_rtts h) in
    let n = length rtts in
    record {
      measured = n;
      failures = count_failures h;
      best = at rtts 0;
      median = at rtts (n / 2);
      worst = at rtts (n - 1);
      last_run = newest h;
    }

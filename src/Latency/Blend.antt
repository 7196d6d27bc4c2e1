-- ===== src/Latency/Blend.antt =====
-- What a sweep leaves of earlier measurements, and the summary of the measurements.
use gluetun_proton_list_upda.Prelude.{
  ℕ, zero, suc, ◌+◌, ◌-◌, ◌/◌, ◌≤◌, ◌<◌, ◌≡◌, refl, sym, subst, true, false, List, [], ◌∷◌, Option,
  none, some, arith, ltb, ◌==◌, if◌then◌else◌, is_some, length, String, ◌||◌, get_elem?-some, All,
  Memᴰ, Bool-cases, inl, inr, ltb_false→le, mem_of_get_elem?, All-mem,
}
use gluetun_proton_list_upda.Prelude.Addr.{Addr, addr_eq, addr_beq_iff}
use gluetun_proton_list_upda.Prelude.Table.{find}
use gluetun_proton_list_upda.Prelude.Sort.{sort_stable, IsSorted, IsWeakOrder, sort_stable-IsSorted}
use gluetun_proton_list_upda.Prelude.Real.{Float}
use gluetun_proton_list_upda.Latency.{
  Result, History, Dial, failed, connected, blend, forget, is_wanted, probe_one, dial_all,
  summarize, positive_rtts, at, lookup,
}

-- A measurement that has failed once is erased by a second failure: `record` keeps the round trip
-- only of a measurement that is still good.
pub failure-failure :
    {F : Type 0} (fl : Float F) (factor : F) (previous first second : Result)
    → is_some first.err ≡ true
    → is_some second.err ≡ true
    → blend fl factor (some (blend fl factor (some previous) first)) second ≡ second
unfolding blend
failure-failure fl factor previous first second e e' = ground arith

find-forget :
    (h : History) (wanted : List Addr) (ip : Addr)
    → find ip (forget h wanted).0 ≡ (if is_wanted ip wanted then find ip h else none)
unfolding forget find
find-forget [] wanted ip = ground arith
find-forget ((j, r) ∷ h) wanted ip = ground (arith, find-forget h wanted ip, addr_beq_iff j ip)

forget_count :
    (h : History) (wanted : List Addr) → length (forget h wanted).0 + (forget h wanted).1 ≡ length h
unfolding forget
forget_count [] wanted = refl
forget_count ((j, r) ∷ h) wanted = ground (arith, forget_count h wanted)

-- `Forget` leaves the measurements of the wanted addresses as they were and none of the others, and
-- counts what it drops.
pub forget-lookup :
    (h : History) (wanted : List Addr) (ip : Addr)
    → (lookup (forget h wanted).0 ip ≡ (if is_wanted ip wanted then lookup h ip else none))
      × (length (forget h wanted).0 + (forget h wanted).1 ≡ length h)
unfolding lookup
forget-lookup h wanted ip = (find-forget h wanted ip, forget_count h wanted)

-- The dials that connected.
unfoldable pub times : List Dial → List ℕ
times [] = []
times (failed e ∷ rest) = times rest
times (connected t ∷ rest) = t ∷ times rest

-- `best` after the dials that connected.
pick : ℕ → List ℕ → ℕ
pick best [] = best
pick best (t ∷ ts) = pick (if best == 0 || ltb t best then t else best) ts

dial_all-pick :
    (dials : List Dial) (best n : ℕ) (last : Option String)
    → ((dial_all dials best n last).0 ≡ pick best (times dials))
      × ((dial_all dials best n last).1 ≡ n + length (times dials))
unfolding dial_all times pick
dial_all-pick [] best n last = (refl, omega arith)
dial_all-pick (failed e ∷ rest) best n last = dial_all-pick rest best n (some e)
dial_all-pick (connected t ∷ rest) best n last =
    let (a, b) = dial_all-pick rest (if best == 0 || ltb t best then t else best) (suc n) last in
    (a, omega arith)

pick_better :
    (best t : ℕ) (ts : List ℕ) → (best == 0 || ltb t best) ≡ true → pick best (t ∷ ts) ≡ pick t ts
unfolding pick
pick_better best t ts h = rw h refl

pick_worse :
    (best t : ℕ) (ts : List ℕ)
    → (best == 0 || ltb t best) ≡ false
    → pick best (t ∷ ts) ≡ pick best ts
unfolding pick
pick_worse best t ts h = rw h refl

-- `v` is positive, and the least of the list's numbers.
abbrev IsLeast : ℕ → List ℕ → Type 0
IsLeast v ts = (0 < v) × All (λ t. v ≤ t) ts × Memᴰ v ts

skip_second : {v a b : ℕ} {ts : List ℕ} → Memᴰ v (a ∷ ts) → Memᴰ v (a ∷ b ∷ ts)
skip_second (Memᴰ.head e) = Memᴰ.head e
skip_second (Memᴰ.tail n) = Memᴰ.tail (Memᴰ.tail n)

pick-IsLeast :
    (best : ℕ) (ts : List ℕ) → 0 < best → All (λ t. 0 < t) ts → IsLeast (pick best ts) (best ∷ ts)
pick-IsLeast best [] h hs = unfold pick in (h, (omega arith, tt), Memᴰ.head refl)
pick-IsLeast best (t ∷ ts) h hs = elim (Bool-cases (best == 0 || ltb t best)) [
  | inl better ↦
      let (pos, (le, les), m) = pick-IsLeast t ts hs.0 hs.1 in
      subst (λ v. IsLeast v (best ∷ t ∷ ts)) (sym (pick_better best t ts better))
        (pos, (ground arith, (le, les)), Memᴰ.tail m)
  | inr worse ↦
      let (pos, (le, les), m) = pick-IsLeast best ts h hs.1 in
      subst (λ v. IsLeast v (best ∷ t ∷ ts)) (sym (pick_worse best t ts worse))
        (pos, (le, (ground arith, les)), skip_second m)
]

-- A probe that did not connect, and one that did.
pub data Probed (ts : List ℕ) (r : Result) : Type 0 where
  unreachable : ts ≡ [] → is_some r.err ≡ true → r.rtt ≡ 0 → r.samples ≡ 0 → Probed ts r
  reached :
      r.err ≡ none → All (λ t. r.rtt ≤ t) ts → Memᴰ r.rtt ts → r.samples ≡ length ts → Probed ts r

-- Where no dial takes no time at all, a probe without a connection is an error with no round trip;
-- with one it is no error, its round trip is the least of the connection times, and it counts the
-- connections.
pub probe_one-Probed :
    (now : ℕ) (dials : List Dial)
    → All (λ t. 0 < t) (times dials)
    → Probed (times dials) (probe_one now dials)
unfolding probe_one
probe_one-Probed now dials pos = go (times dials) refl (dial_all-pick dials 0 0 none) pos
  where
    go :
        (ts : List ℕ)
        → times dials ≡ ts
        → ((dial_all dials 0 0 none).0 ≡ pick 0 (times dials))
          × ((dial_all dials 0 0 none).1 ≡ 0 + length (times dials))
        → All (λ t. 0 < t) (times dials)
        → Probed (times dials) (probe_one now dials)
    go [] e (b, n) h =
        unreachable e (ground (arith, b, n, e)) (ground (arith, b, n, e)) (ground (arith, b, n, e))
    go (t ∷ ts) e (b, n) h =
        let positive : All (λ x. 0 < x) (t ∷ ts) = subst (All (λ x. 0 < x)) e h in
        let (pos', les, m) = pick-IsLeast t ts positive.0 positive.1 in
        let rtt : (probe_one now dials).rtt ≡ pick t ts =
          ground (arith, b, n, e, pick_better 0 t ts refl) in
        reached (ground (arith, b, n, e))
          (subst (λ v. All (λ x. v ≤ x) (times dials)) (sym rtt)
            (subst (All (λ x. pick t ts ≤ x)) (sym e) les))
          (subst (λ v. Memᴰ v (times dials)) (sym rtt) (subst (Memᴰ (pick t ts)) (sym e) m))
          (ground (arith, b, n, e))

ltb-IsWeakOrder : IsWeakOrder ltb
ltb-IsWeakOrder = record {
  asym = λ a b h. ground arith;
  not_less_trans = λ a b c h k. ground arith;
}

sorted_at : (l : List ℕ) (i j : ℕ) → IsSorted ltb l → i ≤ j → j < length l → at l i ≤ at l j
unfolding at
sorted_at [] i j s h k = elim k [ ]
sorted_at (x ∷ l) zero zero s h k = omega arith
sorted_at (x ∷ l) zero (suc j) s h k =
    let (v, e) = get_elem?-some l j (omega arith) in
    rw (e, at) (ltb_false→le v x (All-mem (λ y. ltb y x ≡ false) l s.0 (mem_of_get_elem? l j e)))
sorted_at (x ∷ l) (suc i) zero s h k = absurd (omega arith)
sorted_at (x ∷ l) (suc i) (suc j) s h k = sorted_at l i j s.1 (omega arith) (omega arith)

-- The summary's best, median and worst round trips are in order, whatever was measured.
pub summarize_ordered :
    (h : History)
    → ((summarize h).best ≤ (summarize h).median) × ((summarize h).median ≤ (summarize h).worst)
unfolding summarize
summarize_ordered h =
    go (sort_stable ltb (positive_rtts h))
      (sort_stable-IsSorted ltb ltb-IsWeakOrder (positive_rtts h))
  where
    go :
        (l : List ℕ)
        → IsSorted ltb l
        → (at l 0 ≤ at l (length l / 2)) × (at l (length l / 2) ≤ at l (length l - 1))
    go [] s = unfold at in (omega arith, omega arith)
    go (x ∷ l) s = (
      sorted_at (x ∷ l) 0 (length (x ∷ l) / 2) s (omega arith) (omega arith),
      sorted_at (x ∷ l) (length (x ∷ l) / 2) (length (x ∷ l) - 1) s (omega arith) (omega arith),
    )

-- ===== src/Logbuf/Ring.antt =====
-- The ring buffer implements a list of everything appended since the last reset, newest first.
use gluetun_proton_list_upda.Prelude.{
  ℕ, zero, suc, ◌+◌, ◌-◌, ◌*◌, ◌%◌, ◌≤◌, ◌<◌, min, ◌≡◌, refl, ap, ◌∙◌, true, false, ◌&&◌, List, [],
  ◌∷◌, some, length, get_elem?, set, take, drop, length-set, length-map, length-replicate,
  get_elem?-set_self, get_elem?-set_ne, get_elem?-some, ltb, ◌==◌, if◌then◌else◌, arith,
}
use gluetun_proton_list_upda.Logbuf.{
  Record, Buffer, new_buffer, append, reset, count, slot, collect, records, zero_record,
}

slot_index : ℕ → ℕ → ℕ → ℕ
slot_index len next i = (next + len * 2 - 1 - i) % len

-- The slot in closed form.
slot_index_lem :
    (len next i : ℕ)
    → next < len
    → i < len
    → slot_index len next i ≡ (if ltb i next then next - 1 - i else next + len - 1 - i)
unfolding slot_index
slot_index_lem len next i h k = grind arith

advance_lem :
    (len next : ℕ) → next < len → (next + 1) % len ≡ (if next + 1 == len then 0 else next + 1)
advance_lem len next h = grind arith

-- The buffer holds the newest part of the history `h`.
record Holds (b : Buffer) (h : List Record) : Type 0 where
  next_lt : b.next < length b.records
  unfilled : b.filled ≡ false → b.next ≡ length h
  full : b.filled ≡ true → length b.records ≤ length h
  slots :
      (i : ℕ)
      → i < length b.records
      → i < length h
      → get_elem? b.records (slot_index (length b.records) b.next i) ≡ get_elem? h i

slot-append :
    (len next i : ℕ)
    → next < len
    → suc i < len
    → slot_index len ((next + 1) % len) (suc i) ≡ slot_index len next i
slot-append len next i h k = ground (
  arith,
  advance_lem len next h,
  slot_index_lem len ((next + 1) % len) (suc i),
  slot_index_lem len next i,
)

slot-append_zero : (len next : ℕ) → next < len → slot_index len ((next + 1) % len) 0 ≡ next
slot-append_zero len next h =
    ground (arith, advance_lem len next h, slot_index_lem len ((next + 1) % len) 0)

next_ne_slot : (len next i : ℕ) → next < len → suc i < len → next ≡ slot_index len next i → ⊥
next_ne_slot len next i h k = ground (arith, slot_index_lem len next i)

module _ (b : Buffer) (r : Record) (h : List Record) (holds : Holds b h) where
  append_slots :
      (i : ℕ)
      → i < length b.records
      → i < length (r ∷ h)
      → get_elem?
          (set b.records b.next r)
          (slot_index (length b.records) ((b.next + 1) % length b.records) i)
        ≡ get_elem? (r ∷ h) i
  append_slots zero lt _ =
      rw (slot-append_zero (length b.records) b.next holds.next_lt)
        (get_elem?-set_self b.records b.next r holds.next_lt)
  append_slots (suc i) lt lt' = rw (slot-append (length b.records) b.next i holds.next_lt lt) (
      get_elem?-set_ne b.records b.next (slot_index (length b.records) b.next i) r
        (next_ne_slot (length b.records) b.next i holds.next_lt lt)
      ∙ holds.slots i (omega arith) (omega arith))

  append_next_lt : (b.next + 1) % length b.records < length b.records
  append_next_lt =
      ground (arith, advance_lem (length b.records) b.next holds.next_lt, holds.next_lt)

  append-Holds : Holds (append b r) (r ∷ h)
  unfolding append
  append-Holds = record {
    next_lt = rw length-set append_next_lt;
    unfilled = λ e.
        ground (
          arith,
          advance_lem (length b.records) b.next holds.next_lt,
          holds.unfilled,
          holds.next_lt,
        );
    full = λ e. rw length-set (
        ground (
          arith,
          advance_lem (length b.records) b.next holds.next_lt,
          holds.unfilled,
          holds.full,
          holds.next_lt,
        ));
    slots = λ i lt lt'. rw length-set (append_slots i (rw length-set at lt) lt');
  }

reset-Holds : (b : Buffer) → 0 < length b.records → Holds (reset b) []
unfolding reset
reset-Holds b pos = record {
  next_lt = rw length-map pos;
  unfilled = λ _. refl;
  full = λ e. cc;
  slots = λ i _ lt. elim lt [ ];
}

new_buffer-Holds : (size : ℕ) → Holds (new_buffer size) []
unfolding new_buffer
new_buffer-Holds size = record {
  next_lt = rw length-replicate (ground arith);
  unfilled = λ _. refl;
  full = λ e. cc;
  slots = λ i _ lt. elim lt [ ];
}

-- What a client can do to the buffer.
pub data Op : Type 0 where
  log : Record → Op
  clear : Op

pub apply : Buffer → Op → Buffer
apply b (log r) = append b r
apply b clear = reset b

unfoldable pub run : Buffer → List Op → Buffer
unfolding apply
run b [] = b
run b (op ∷ ops) = run (apply b op) ops

-- The same operations on a plain list, newest first.
unfoldable pub history : List Record → List Op → List Record
history h [] = h
history h (log r ∷ ops) = history (r ∷ h) ops
history h (clear ∷ ops) = history [] ops

run-Holds :
    (b : Buffer) (h : List Record) (ops : List Op) → Holds b h → Holds (run b ops) (history h ops)
unfolding run history
run-Holds b h [] holds = holds
run-Holds b h (log r ∷ ops) holds = run-Holds (append b r) (r ∷ h) ops (append-Holds b r h holds)
run-Holds b h (clear ∷ ops) holds =
    run-Holds (reset b) [] ops (reset-Holds b (omega (arith, holds.next_lt)))

length-run : (b : Buffer) (ops : List Op) → length (run b ops).records ≡ length b.records
unfolding run append reset
length-run b [] = refl
length-run b (log r ∷ ops) = length-run (append b r) ops ∙ length-set b.records b.next r
length-run b (clear ∷ ops) = length-run (reset b) ops ∙ length-map b.records (λ _. zero_record)

drop-get_elem? :
    {A : Type 0} (xs : List A) (i : ℕ) {x : A}
    → get_elem? xs i ≡ some x
    → drop i xs ≡ x ∷ drop (suc i) xs
drop-get_elem? [] i h = cc
drop-get_elem? (y ∷ xs) zero h = cc
drop-get_elem? (y ∷ xs) (suc i) h = drop-get_elem? xs i h

slot_lem :
    (b : Buffer) (h : List Record) (i : ℕ)
    → Holds b h
    → i < length b.records
    → i < length h
    → get_elem? b.records (slot b i) ≡ get_elem? h i
unfolding slot slot_index
slot_lem b h i holds = holds.slots i

-- The rounds of `collect` from `i` on read the history from `i` on.
collect-take :
    (b : Buffer) (h : List Record) (left i : ℕ)
    → Holds b h
    → i + left ≤ length b.records
    → i + left ≤ length h
    → collect b left i ≡ take left (drop i h)
unfolding collect
collect-take b h zero i holds le le' = refl
collect-take b h (suc left) i holds le le' =
    let (r, e) = get_elem?-some h i (omega arith) in
    rw (slot_lem b h i holds (omega arith) (omega arith) ∙ e, collect)
      (rw (drop-get_elem? h i e)
        (ap (λ l. r ∷ l) (collect-take b h left (suc i) holds (omega arith) (omega arith))))

-- What `Records` promises of a history: its newest part, as far as the ring and the limit reach.
unfoldable pub recent : ℕ → ℕ → List Record → List Record
recent size limit h =
    let stored = min size (length h) in
    take (if ltb 0 limit && ltb limit stored then limit else stored) h

count_lem :
    (b : Buffer) (h : List Record) (limit : ℕ)
    → Holds b h
    → count b limit ≡ (
        if ltb 0 limit && ltb limit (min (length b.records) (length h))
        then limit
        else min (length b.records) (length h))
unfolding count
count_lem b h limit holds = ground (arith, holds.unfilled, holds.full, holds.next_lt)

-- After any appends and resets, `Records(limit)` of a buffer made for `size` records is the newest
-- part of what was appended since the last reset, newest first: as many records as the ring has
-- slots (200 where `size` is below 1), or `limit` if that is positive and less.
pub records-run :
    (size limit : ℕ) (ops : List Op)
    → records (run (new_buffer size) ops) limit
      ≡ recent (if ltb size 1 then 200 else size) limit (history [] ops)
unfolding records recent
records-run size limit ops =
    let b = run (new_buffer size) ops in
    let h = history [] ops in
    let holds = run-Holds (new_buffer size) [] ops (new_buffer-Holds size) in
    let slots : length b.records ≡ (if ltb size 1 then 200 else size) =
      length-run (new_buffer size) ops ∙ (unfold new_buffer in length-replicate _ _) in
    rw (count_lem b h limit holds) (
      collect-take b h _ 0 holds (ground arith) (ground arith)
      ∙ ap
          (λ n.
            take (if ltb 0 limit && ltb limit (min n (length h)) then limit else min n (length h))
              h)
          slots)

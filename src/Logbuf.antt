-- ===== src/Logbuf.antt =====
-- internal/logbuf/logbuf.go: the fixed-size ring of log records behind the dashboard.
-- A method that mutates `*Buffer` returns the new record. The mutex makes each method one step.
pub mod Ring
pub mod Tests
use gluetun_proton_list_upda.Prelude.{
  ℕ, suc, ◌+◌, ◌-◌, ◌*◌, ◌%◌, ◌≡◌, Bool, true, false, ◌&&◌, String, List, [], ◌∷◌, Option, none,
  some, length, get_elem?, set, replicate, map, ltb, ◌==◌, if◌then◌else◌,
}
use gluetun_proton_list_upda.Prelude.Table.{Table}

-- The attributes are the strings that `Handle` renders them to.
pub record Record : Type 0 where
  pub time : ℕ
  pub level : String
  pub message : String
  pub attrs : Table String String

-- What `make` and `clear` leave in a slot.
abbrev pub zero_record : Record
zero_record = record { time = 0; level = ""; message = ""; attrs = [] }

pub record Buffer : Type 0 where
  pub records : List Record
  pub next : ℕ
  pub filled : Bool

-- A size below 1 is given as 0.
unfoldable pub new_buffer : ℕ → Buffer
new_buffer size = record {
  records = replicate (if ltb size 1 then 200 else size) zero_record;
  next = 0;
  filled = false;
}

unfoldable pub append : Buffer → Record → Buffer
append b r =
    let next = (b.next + 1) % length b.records in
    record {
      records = set b.records b.next r;
      next = next;
      filled = if next == 0 then true else b.filled;
    }

unfoldable pub reset : Buffer → Buffer
reset b = record { records = map (λ _. zero_record) b.records; next = 0; filled = false }

-- How many records `Records` returns; a limit that is not positive is given as 0.
unfoldable pub count : Buffer → ℕ → ℕ
count b limit =
    let stored = if b.filled then length b.records else b.next in
    if ltb 0 limit && ltb limit stored then limit else stored

-- The slot written `i + 1` appends ago: `b.next - 1 - i + len(b.records)*2`, which is not negative
-- for `i` below the number of slots, so that the order of `+` and `-` does not matter.
unfoldable pub slot : Buffer → ℕ → ℕ
slot b i = (b.next + length b.records * 2 - 1 - i) % length b.records

-- The loop of `Records` from round `i`, with `left` rounds to go. An index out of range would panic.
unfoldable pub collect : Buffer → ℕ → ℕ → List Record
collect b ℕ.zero i = []
collect b (suc left) i =
    let rest = collect b left (suc i) in
    elim (get_elem? b.records (slot b i)) [ none ↦ rest | some r ↦ r ∷ rest ]

unfoldable pub records : Buffer → ℕ → List Record
unfolding collect slot count
records b limit = collect b (count b limit) 0

-- ===== src/Monitor/Seen.antt =====
-- c_monitor/main.c, monitor_loop: the table of the inputs that have been seen, by their CRC. `counters` is
-- the heap of its `uint32_t` values, and a `uint64_t *` that holds a hash is the number of its block.
pub mod Invariant
use fuzz_monitor.Base.{
  ℕ, ◌+◌, ◌*◌, ◌%◌, ◌^◌, ◌-◌, Bool, true, false, List, [], ◌∷◌, ◌++◌, Option, none, some, length,
  get_elem?, set, ltb, ◌==◌, if◌then◌else◌,
}
use fuzz_monitor.Collections.{ok, err, Collections}
use fuzz_monitor.Util.{util_crc64}

-- cmp_uint64, of which the table reads only whether it is 0.
unfoldable pub cmp_uint64 : ℕ → ℕ → ℕ
cmp_uint64 n1 n2 = if ltb n2 n1 then 1 else if ltb n1 n2 then 2 ^ 32 - 1 else 0

unfoldable pub same_hash : ℕ → ℕ → Bool
same_hash n1 n2 = cmp_uint64 n1 n2 == 0

module _ (lib : Collections) where
  open lib use {HashTable, hashtable_get, hashtable_add, hashtable_size}

  pub record Seen : Type 0 where
    pub seen_inputs_table : HashTable ℕ ℕ
    pub counters : List ℕ
    pub seen_total : ℕ
    pub max_seen_input : ℕ
    pub max_seen_input_k : ℕ
    pub next : ℕ
    pub freed : List ℕ

  -- `crashed` is a failed assertion or a read beyond the buffer.
  pub data Noted : Type 0 where
    noted : Seen → ℕ → Noted
    crashed : Noted

  -- The counter behind `seen_inputs_value` after the input has been counted.
  unfoldable pub count_input : ℕ → Seen → ℕ → Noted
  count_input now s buf_hash = elim (hashtable_get same_hash s.seen_inputs_table buf_hash) [
    | ok value ↦ elim (get_elem? s.counters value) [
      | none ↦ crashed
      | some hits ↦
          noted (record s { counters = set s.counters value ((hits + 1) % 2 ^ 32) })
            ((hits + 1) % 2 ^ 32)
    ]
    | err _ ↦ elim (hashtable_add same_hash now s.seen_inputs_table buf_hash (length s.counters)) [
      | err _ ↦ crashed
      | ok table ↦ noted (record s { seen_inputs_table = table; counters = s.counters ++ 1 ∷ [] }) 1
    ]
  ]

  -- The maximum, and the release of a hash that the table did not take for a key.
  unfoldable pub raise_max : Seen → ℕ → ℕ → Seen
  raise_max s buf_hash seen_inputs_value =
      let higher = ltb s.max_seen_input seen_inputs_value in
      record s {
        max_seen_input = if higher then seen_inputs_value else s.max_seen_input;
        max_seen_input_k = if higher then buf_hash else s.max_seen_input_k;
        next = s.next + 1;
        freed = if ltb 1 seen_inputs_value then s.freed ++ s.next ∷ [] else s.freed;
      }

  -- `seen_avg > 2`: the quotient of the doubles is greater than 2 just where the total is greater than
  -- twice the size, while both are below 2^52.
  unfoldable pub reset_total : Seen → Seen
  reset_total s =
      let size = hashtable_size s.seen_inputs_table in
      record s { seen_total = if ltb (2 * size) s.seen_total then size else s.seen_total }

  -- From `seen_total++` to the reset of the total.
  unfoldable pub note_input : ℕ → Seen → List ℕ → ℕ → Noted
  note_input now s buf size = elim (util_crc64 buf size) [
    | none ↦ crashed
    | some buf_hash ↦ elim (count_input now (record s { seen_total = s.seen_total + 1 }) buf_hash) [
      | crashed ↦ crashed
      | noted s' value ↦ noted (reset_total (raise_max s' buf_hash value)) value
    ]
  ]

  unfoldable pub seen_start : HashTable ℕ ℕ → Seen
  seen_start table = record {
    seen_inputs_table = table;
    counters = [];
    seen_total = 0;
    max_seen_input = 0;
    max_seen_input_k = 0;
    next = 0;
    freed = [];
  }

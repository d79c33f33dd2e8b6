-- ===== src/Monitor/Seen/Invariant.antt =====
-- The table of seen inputs of c_monitor/main.c counts every input, and what it keeps true.
use fuzz_monitor.Base.{
  ℕ, ◌+◌, ◌*◌, ◌%◌, ◌^◌, ◌≤◌, ◌<◌, ◌≡◌, ◌↔◌, refl, ◌∙◌, ◌⊎◌, inl, inr, true, List, [], ◌∷◌, ◌++◌,
  some, length, get_elem?-lt, set, max, ltb, ◌==◌, if◌then◌else◌, Option-cases, arith,
}
use fuzz_monitor.Collections.{ok, Collections, IsHashTable, HasMemory, Result-cases}
use fuzz_monitor.Monitor.Counters.{
  hits_of, Linked, Counts, increment-Counts, increment-Linked, insert-Counts, insert-Linked,
  Linked-new, hits_of_new,
}
use fuzz_monitor.Monitor.Seen.{
  cmp_uint64, same_hash, Seen, Noted, noted, crashed, count_input, raise_max, reset_total,
  note_input, seen_start,
}
use fuzz_monitor.Util.{util_crc64}

-- cmp_uint64 returns 0 for equal numbers and for no others.
pub same_hash_iff : (n1 n2 : ℕ) → (same_hash n1 n2 ≡ true) ↔ (n1 ≡ n2)
unfolding same_hash cmp_uint64
same_hash_iff n1 n2 = ground arith

same_test : (k j a b : ℕ) → (if same_hash k j then a else b) ≡ (if k == j then a else b)
unfolding same_hash cmp_uint64
same_test k j a b = ground arith

module _ (lib : Collections) where
  open lib use {HashTable, hashtable_new, hashtable_get, hashtable_add, hashtable_size}

  abbrev pub seen_hits : Seen lib → ℕ → ℕ
  seen_hits s k = hits_of lib same_hash s.seen_inputs_table s.counters k

  -- Every hash has a counter of its own, no counter is above the maximum, and the mean number of hits,
  -- by the running total, is at most 2.
  pub record IsSeen (s : Seen lib) : Type 0 where
    pub linked : Linked lib same_hash (2 ^ 32) s.seen_inputs_table s.counters
    pub highest : (k : ℕ) → seen_hits s k ≤ s.max_seen_input
    pub total : s.seen_total ≤ 2 * hashtable_size s.seen_inputs_table

  -- What noting an input of hash `buf_hash` does.
  pub record IsNoted (s : Seen lib) (buf_hash : ℕ) (s' : Seen lib) (value : ℕ) : Type 0 where
    pub is_seen : IsSeen s'
    pub counts :
        (k : ℕ)
        → seen_hits s' k ≡ (if k == buf_hash then (seen_hits s k + 1) % 2 ^ 32 else seen_hits s k)
    pub value_eq : value ≡ seen_hits s' buf_hash
    pub raised : s'.max_seen_input ≡ max s.max_seen_input value
    pub released :
        seen_hits s buf_hash + 1 < 2 ^ 32
        → s'.freed ≡ (if ltb 0 (seen_hits s buf_hash) then s.freed ++ s.next ∷ [] else s.freed)

  -- What a call that finds memory leaves; a call that does not may abort.
  abbrev Noting : ℕ → Noted lib → Type 0 → Type 1
  Noting now result Left = (result ≡ crashed) × (HasMemory lib now → ⊥) ⊎ Left

  module _ (keys : IsHashTable lib same_hash) (now : ℕ) where
    abbrev Counted : Seen lib → ℕ → Type 0
    Counted s buf_hash =
        (table : HashTable ℕ ℕ) × (counters : List ℕ) × (count_input lib now s buf_hash
          ≡ noted (record s { seen_inputs_table = table; counters = counters })
              ((seen_hits s buf_hash + 1) % 2 ^ 32))
        × Linked lib same_hash (2 ^ 32) table counters
        × Counts lib same_hash (2 ^ 32) s.seen_inputs_table s.counters buf_hash table counters

    count_input_lem :
        (s : Seen lib) (buf_hash : ℕ)
        → Linked lib same_hash (2 ^ 32) s.seen_inputs_table s.counters
        → Noting now (count_input lib now s buf_hash) (Counted s buf_hash)
    unfolding count_input
    count_input_lem s buf_hash l =
        elim (Result-cases (hashtable_get same_hash s.seen_inputs_table buf_hash)) [
          | inl (i, at) ↦
              let (hits, e) = get_elem?-lt s.counters i (l.in_range buf_hash i at) in
              inr (
                s.seen_inputs_table,
                set s.counters i ((hits + 1) % 2 ^ 32),
                rw (at, count_input, hits_of, e) refl,
                increment-Linked lib same_hash keys (2 ^ 32) (omega arith) s.seen_inputs_table
                    s.counters buf_hash l i hits at e,
                increment-Counts lib same_hash keys (2 ^ 32) (omega arith) s.seen_inputs_table
                    s.counters buf_hash l i hits at e,
              )
          | inr (e, missing) ↦
              elim (Result-cases
                (hashtable_add same_hash now s.seen_inputs_table buf_hash (length s.counters))) [
                  | inr (full, fails) ↦ inl (
                    rw (missing, count_input, fails) refl,
                    λ memory.
                        let (table, added) =
                          memory.hashtable_add_ok same_hash s.seen_inputs_table buf_hash
                            (length s.counters) in
                        cc (added, fails),
                  )
                  | inl (table, added) ↦ inr (
                    table,
                    s.counters ++ 1 ∷ [],
                    rw (missing, count_input, hits_of, added) refl,
                    insert-Linked lib same_hash keys (2 ^ 32) (omega arith) s.seen_inputs_table
                        s.counters buf_hash l now table (e, missing) added,
                    insert-Counts lib same_hash keys (2 ^ 32) (omega arith) s.seen_inputs_table
                        s.counters buf_hash l now table (e, missing) added,
                  )
                ]
        ]

    note_input_lem :
        (s : Seen lib) (buf : List ℕ) (size buf_hash : ℕ)
        → IsSeen s
        → util_crc64 buf size ≡ some buf_hash
        → Noting now (note_input lib now s buf size) (
            (s' : Seen lib) × (value : ℕ) × (note_input lib now s buf size ≡ noted s' value)
            × IsNoted s buf_hash s' value)
    unfolding note_input raise_max reset_total
    note_input_lem s buf size buf_hash seen hashed =
        let counted = record s { seen_total = s.seen_total + 1 } in
        elim (count_input_lem counted buf_hash seen.linked) [
          | inl (e, lacking) ↦ inl (rw (hashed, note_input, e) refl, lacking)
          | inr (table, counters, e, linked, counts) ↦
              let value = (seen_hits s buf_hash + 1) % 2 ^ 32 in
              let counts' = λ (k : ℕ).
                counts k ∙ same_test k buf_hash ((seen_hits s k + 1) % 2 ^ 32) (seen_hits s k) in
              let s' = reset_total lib (
                raise_max lib (record counted { seen_inputs_table = table; counters = counters })
                  buf_hash value) in
              inr (
                s',
                value,
                rw (hashed, note_input, e) refl,
                record {
                  is_seen = record {
                    linked = linked;
                    highest = λ k. ground (arith, seen.highest k, counts' k);
                    total = ground arith;
                  };
                  counts = counts';
                  value_eq = ground (arith, counts' buf_hash);
                  raised = ground arith;
                  released = λ fits. ground arith;
                },
              )
        ]

    -- Noting an input of hash `buf_hash`, where memory is found: the counter of that hash goes up by one,
    -- modulo 2^32, and no other does; the value that is reported is that counter; the maximum is raised to
    -- it; the hash's block is freed just where the table had the hash already, unless the counter wraps.
    -- The table stays well formed: no counter is above the maximum, and the total is at most twice the
    -- size of the table.
    pub note_input-IsNoted :
        (s : Seen lib) (buf : List ℕ) (size buf_hash : ℕ)
        → HasMemory lib now
        → IsSeen s
        → util_crc64 buf size ≡ some buf_hash
        → (s' : Seen lib) × (value : ℕ) × (note_input lib now s buf size ≡ noted s' value)
          × IsNoted s buf_hash s' value
    note_input-IsNoted s buf size buf_hash memory seen hashed =
        elim (note_input_lem s buf size buf_hash seen hashed) [
          | inl (e, lacking) ↦ absurd (lacking memory)
          | inr left ↦ left
        ]

    pub seen_start-IsSeen :
        (table : HashTable ℕ ℕ) → hashtable_new now ≡ ok table → IsSeen (seen_start lib table)
    unfolding seen_start
    seen_start-IsSeen table new = record {
      linked = Linked-new lib same_hash keys (2 ^ 32) (omega arith) now table new;
      highest = λ k.
          omega (arith, hits_of_new lib same_hash keys (2 ^ 32) (omega arith) now table [] k new);
      total = omega arith;
    }

    -- What a call leaves where it comes to its end, memory or not.
    abbrev pub KeepsSeen : Noted lib → Type 0
    KeepsSeen (noted s' value) = IsSeen s'
    KeepsSeen crashed = Unit {0}

    pub note_input-KeepsSeen :
        (s : Seen lib) (buf : List ℕ) (size : ℕ)
        → IsSeen s
        → KeepsSeen (note_input lib now s buf size)
    unfolding note_input
    note_input-KeepsSeen s buf size seen = elim (Option-cases (util_crc64 buf size)) [
      | inl e ↦ rw (e, note_input) tt
      | inr (buf_hash, hashed) ↦ elim (note_input_lem s buf size buf_hash seen hashed) [
        | inl (e, lacking) ↦ rw e tt
        | inr (s', value, e, is_noted) ↦ rw e (is_noted.is_seen)
      ]
    ]

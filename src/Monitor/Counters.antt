-- ===== src/Monitor/Counters.antt =====
-- c_monitor/main.c counts branches and inputs alike: a hash table maps a key to its counter on the heap.
-- Here are what such a table says of a key, and the counting of one more hit.
use native.Mathlib.Nat.{mod-eq_of_lt}
use fuzz_monitor.Base.{
  ℕ, ◌+◌, ◌%◌, ◌<◌, ◌≡◌, ◌≢◌, refl, sym, ap, ◌∙◌, ◌⊎◌, inl, inr, true, false, List, [], ◌∷◌, ◌++◌,
  none, some, length, All, All-map, length-append, length-set, get_elem?, get_elem?-set_self,
  get_elem?-set_ne, get_elem?-append_left, get_elem?-append_length, lt-length_of_get_elem?, set,
  Bool, Bool-cases, Option-cases, ℕ_discrete, if◌then◌else◌, arith,
}
use fuzz_monitor.Collections.{CcStat, ok, err, Collections, IsHashTable, Result-cases}

module _ (lib : Collections) {K : Type 0} (same : K → K → Bool) where
  open lib use {
    HashTable, hashtable_new, hashtable_get, hashtable_add, hashtable_size, hashtable_entries,
  }

  -- The counter of a key, 0 for a key that the table does not have.
  abbrev pub hits_of : HashTable K ℕ → List ℕ → K → ℕ
  hits_of table counters key = elim (hashtable_get same table key) [
    | err _ ↦ 0
    | ok i ↦ elim (get_elem? counters i) [ none ↦ 0 | some hits ↦ hits ]
  ]

  -- Every key of the table has a counter of its own, and the counters are below `size`.
  pub record Linked (size : ℕ) (table : HashTable K ℕ) (counters : List ℕ) : Type 0 where
    pub in_range : (k : K) (i : ℕ) → hashtable_get same table k ≡ ok i → i < length counters
    pub apart :
        (j k : K) (i : ℕ)
        → hashtable_get same table j ≡ ok i
        → hashtable_get same table k ≡ ok i
        → j ≡ k
    pub small : (i hits : ℕ) → get_elem? counters i ≡ some hits → hits < size
    pub listed :
        All (λ entry. hashtable_get same table (entry.0) ≡ ok (entry.1)) (hashtable_entries table)

  -- One more hit of `key`, and no other key is touched.
  abbrev pub Counts : ℕ → HashTable K ℕ → List ℕ → K → HashTable K ℕ → List ℕ → Type 0
  Counts size table counters key table' counters' =
      (k : K)
      → hits_of table' counters' k
        ≡ (if same k key then (hits_of table counters k + 1) % size else hits_of table counters k)

  pub hits_of-lt :
      (size : ℕ) (table : HashTable K ℕ) (counters : List ℕ) (k : K)
      → 1 < size
      → Linked size table counters
      → hits_of table counters k < size
  hits_of-lt size table counters k big l = elim (Result-cases (hashtable_get same table k)) [
    | inr (s, e) ↦ rw (hits_of, e) (omega arith)
    | inl (i, e) ↦ elim (Option-cases (get_elem? counters i)) [
      | inl out ↦ rw (hits_of, e, out) (omega arith)
      | inr (h, at) ↦ rw (hits_of, e, at) (l.small i h at)
    ]
  ]

  module _ (keys : IsHashTable lib same) (size : ℕ) (big : 1 < size) where
    same_key : (j k : K) → same j k ≡ true → j ≡ k
    same_key j k h = (keys.same_iff j k).0 h

    -- A new table has no keys.
    pub hits_of_new :
        (now : ℕ) (table : HashTable K ℕ) (counters : List ℕ) (k : K)
        → hashtable_new now ≡ ok table
        → hits_of table counters k ≡ 0
    hits_of_new now table counters k new = rw (hits_of, keys.get_new now table k new) refl

    pub Linked-new :
        (now : ℕ) (table : HashTable K ℕ) → hashtable_new now ≡ ok table → Linked size table []
    Linked-new now table new = record {
      in_range = λ k i get. absurd (cc (keys.get_new now table k new, get));
      apart = λ j k i one two. absurd (cc (keys.get_new now table j new, one));
      small = λ i hits at. absurd (cc at);
      listed = rw (keys.entries_new now table new) tt;
    }

    module _ (table : HashTable K ℕ) (counters : List ℕ) (key : K)
        (l : Linked size table counters) where
      module _ (i hits : ℕ) (at : hashtable_get same table key ≡ ok i)
          (e : get_elem? counters i ≡ some hits) where
        other_counter :
            (k : K) (j : ℕ) → hashtable_get same table k ≡ ok j → same k key ≡ false → i ≢ j
        other_counter k j get ne same =
            let equal : k ≡ key = l.apart k key j get (at ∙ ap ok same) in
            cc ((keys.same_iff k key).1 equal)

        pub increment-Counts :
            Counts size table counters key table (set counters i ((hits + 1) % size))
        increment-Counts k = elim (Bool-cases (same k key)) [
          | inl same ↦
              rw
                (
                  same,
                  same_key k key same,
                  hits_of,
                  at,
                  e,
                  get_elem?-set_self counters i ((hits + 1) % size) (l.in_range key i at),
                )
                refl
          | inr ne ↦ elim (Result-cases (hashtable_get same table k)) [
            | inl (j, get) ↦
                rw
                  (
                    ne,
                    hits_of,
                    get,
                    get_elem?-set_ne counters i j ((hits + 1) % size) (other_counter k j get ne),
                  )
                  refl
            | inr (s, get) ↦ rw (ne, hits_of, get) refl
          ]
        ]

        pub increment-Linked : Linked size table (set counters i ((hits + 1) % size))
        increment-Linked = record {
          in_range = λ k j get.
              omega (arith, l.in_range k j get, length-set counters i ((hits + 1) % size));
          apart = l.apart;
          small = λ j h at'. elim (ℕ_discrete i j) [
            | yes same ↦
                let stored =
                  get_elem?-set_self counters i ((hits + 1) % size) (l.in_range key i at) in
                let value : h ≡ (hits + 1) % size = ground (arith, stored, at', same) in omega arith
            | no ne ↦ l.small j h (sym (get_elem?-set_ne counters i j ((hits + 1) % size) ne) ∙ at')
          ];
          listed = l.listed;
        }

      module _ (now : ℕ) (table' : HashTable K ℕ)
          (missing : (k : CcStat) × (hashtable_get same table key ≡ err k))
          (added : hashtable_add same now table key (length counters) ≡ ok table') where
        get_old :
            (k : K) → same k key ≡ false → hashtable_get same table' k ≡ hashtable_get same table k
        get_old k ne = keys.get_add_other now table table' key (length counters) k added ne

        get_new_key : hashtable_get same table' key ≡ ok (length counters)
        get_new_key = keys.get_add_same now table table' key (length counters) added

        pub insert-Counts : Counts size table counters key table' (counters ++ 1 ∷ [])
        insert-Counts k = elim (Bool-cases (same k key)) [
          | inl same ↦
              rw
                (
                  same,
                  same_key k key same,
                  hits_of,
                  get_new_key,
                  missing.1,
                  get_elem?-append_length counters 1 [],
                )
                (sym (mod-eq_of_lt big))
          | inr ne ↦ elim (Result-cases (hashtable_get same table k)) [
            | inl (j, get) ↦
                rw
                  (
                    ne,
                    hits_of,
                    get_old k ne,
                    get,
                    get_elem?-append_left counters (1 ∷ []) j (l.in_range k j get),
                  )
                  refl
            | inr (s, get) ↦ rw (ne, hits_of, get_old k ne, get) refl
          ]
        ]

        get_listed :
            (k : K) (i : ℕ) → hashtable_get same table k ≡ ok i → hashtable_get same table' k ≡ ok i
        get_listed k i get = elim (Bool-cases (same k key)) [
          | inl here ↦
              let equal = same_key k key here in
              absurd (cc (get, ap (hashtable_get same table) equal, missing.1))
          | inr ne ↦ get_old k ne ∙ get
        ]

        -- A key of the larger table is the new one or an old one.
        get_either :
            (k : K) (i : ℕ)
            → hashtable_get same table' k ≡ ok i
            → ((k ≡ key) × (i ≡ length counters)) ⊎ (hashtable_get same table k ≡ ok i)
        get_either k i get = elim (Bool-cases (same k key)) [
          | inl here ↦
              let equal = same_key k key here in
              let again : ok (length counters) ≡ ok i =
                sym get_new_key ∙ ap (hashtable_get same table') (sym equal) ∙ get in
              inl (equal, cc again)
          | inr ne ↦ inr (sym (get_old k ne) ∙ get)
        ]

        pub insert-Linked : Linked size table' (counters ++ 1 ∷ [])
        insert-Linked = record {
          in_range = λ k j get. elim (get_either k j get) [
            | inl (_, last) ↦ omega (arith, length-append counters (1 ∷ []))
            | inr old ↦ omega (arith, l.in_range k j old, length-append counters (1 ∷ []))
          ];
          apart = λ j k i one two. elim (get_either j i one) [
            | inl (a, i_last) ↦ elim (get_either k i two) [
              | inl (b, _) ↦ a ∙ sym b
              | inr old ↦ absurd (omega (arith, l.in_range k i old))
            ]
            | inr a ↦ elim (get_either k i two) [
              | inl (_, i_last) ↦ absurd (omega (arith, l.in_range j i a))
              | inr b ↦ l.apart j k i a b
            ]
          ];
          small = λ j h at. elim (ℕ_discrete j (length counters)) [
            | yes same ↦
                let one : some 1 ≡ some h =
                  sym (get_elem?-append_length counters 1 [])
                  ∙ ap (get_elem? (counters ++ 1 ∷ [])) (sym same)
                  ∙ at in
                let h_one : 1 ≡ h = cc one in omega arith
            | no ne ↦
                let bound = lt-length_of_get_elem? (counters ++ 1 ∷ []) j at in
                let inside : j < length counters = omega (arith, length-append counters (1 ∷ [])) in
                l.small j h (sym (get_elem?-append_left counters (1 ∷ []) j inside) ∙ at)
          ];
          listed =
              keys.entries_add (λ entry. hashtable_get same table' (entry.0) ≡ ok (entry.1)) now
                table table' key (length counters) added get_new_key
                (All-map (λ entry get. get_listed (entry.0) (entry.1) get) (hashtable_entries table)
                  l.listed);
        }

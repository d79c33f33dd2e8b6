-- ===== src/Collections/Lists.antt =====
-- Containers that meet the laws of Collections-C: each is the list of its items, and memory is found
-- while the call's number is below `limit`.
use fuzz_monitor.Base.{
  All, subst, ap₂, ◌+◌, Bool, true, false, sym, inl, inr, ◌↔◌, Bool-cases, ℕ, ◌<◌, ◌≡◌, refl, List,
  [], ◌∷◌, ◌++◌, Option, none, some, length, get_elem?, ltb, if◌then◌else◌, arith,
}
use fuzz_monitor.Collections.{
  cc_err_key_not_found, IsHashTable, IsFailure, CcStat, cc_err_alloc, cc_err_other, Result, ok, err,
  Collections, IsCollections, HasMemory,
}

abbrev within {ℓ} : {A : Type ℓ} → ℕ → ℕ → A → Result A
within limit now a = if ltb now limit then ok a else err cc_err_alloc

abbrev pub or_out_of_range {ℓ} : {A : Type ℓ} → Option A → Result A
or_out_of_range none = err (cc_err_other 1)
or_out_of_range (some a) = ok a

abbrev pub first {ℓ} : {A : Type ℓ} → List A → Result (A × List A)
first [] = err (cc_err_other 1)
first (x ∷ xs) = ok (x, xs)

-- A table is the list of its entries; a key that is added again takes the new value.
abbrev pub find_entry : {K V : Type 0} → (K → K → Bool) → List (K × V) → K → Result V
find_entry same [] k = err cc_err_key_not_found
find_entry same ((j, v) ∷ t) k = if same k j then ok v else find_entry same t k

abbrev pub put_entry : {K V : Type 0} → (K → K → Bool) → List (K × V) → K → V → List (K × V)
put_entry same [] k v = (k, v) ∷ []
put_entry same ((j, w) ∷ t) k v = if same k j then (j, v) ∷ t else (j, w) ∷ put_entry same t k v

abbrev pub list_collections : ℕ → Collections
list_collections limit = record {
  Array = List;
  array_new = λ now. within limit now [];
  array_items = λ a. a;
  array_size = λ a. length a;
  array_add = λ now a x. within limit now (a ++ x ∷ []);
  array_get_at = λ a i. or_out_of_range (get_elem? a i);
  CList = List;
  list_new = λ now. within limit now [];
  list_items = λ l. l;
  list_size = λ l. length l;
  list_add = λ now l x. within limit now (l ++ x ∷ []);
  Queue = List;
  queue_new = λ now. within limit now [];
  queue_items = λ q. q;
  queue_size = λ q. length q;
  queue_enqueue = λ now q x. within limit now (q ++ x ∷ []);
  queue_poll = λ q. first q;
  HashTable = λ K V. List (K × V);
  hashtable_new = λ now. within limit now [];
  hashtable_get = λ same t k. find_entry same t k;
  hashtable_add = λ same now t k v. within limit now (put_entry same t k v);
  hashtable_size = λ t. length t;
  hashtable_entries = λ t. t;
}

within_ok {ℓ} : {A : Type ℓ} (limit now : ℕ) (a b : A) → within limit now a ≡ ok b → b ≡ a
within_ok limit now a b e = ground arith

within_err {ℓ} :
    {A : Type ℓ} (limit now : ℕ) (a : A) (s : CcStat) → within limit now a ≡ err s → IsFailure s
within_err limit now a s e = ground arith

pub list_IsCollections : (limit : ℕ) → IsCollections (list_collections limit)
list_IsCollections limit = record {
  array_new_items = λ now a e. within_ok limit now [] a e;
  array_size_items = λ a. refl;
  array_add_items = λ now a b x e. within_ok limit now (a ++ x ∷ []) b e;
  array_add_fails = λ now a x s e. within_err limit now (a ++ x ∷ []) s e;
  array_get_at_items = λ a i x e. rw e;
  list_new_items = λ now a e. within_ok limit now [] a e;
  list_new_fails = λ {A} now s e. within_err limit now (let l : List A = [] in l) s e;
  list_size_items = λ l. refl;
  list_add_items = λ now a b x e. within_ok limit now (a ++ x ∷ []) b e;
  list_add_fails = λ now a x s e. within_err limit now (a ++ x ∷ []) s e;
  queue_new_items = λ now a e. within_ok limit now [] a e;
  queue_size_items = λ q. refl;
  queue_enqueue_items = λ now a b x e. within_ok limit now (a ++ x ∷ []) b e;
  queue_poll_items = λ q x xs e. (xs, rw e, refl);
}

pub list_HasMemory : (limit now : ℕ) → now < limit → HasMemory (list_collections limit) now
list_HasMemory limit now h = record {
  array_new_ok = ([], found []);
  array_add_ok = λ a x. (a ++ x ∷ [], found (a ++ x ∷ []));
  list_new_ok = ([], found []);
  list_add_ok = λ a x. (a ++ x ∷ [], found (a ++ x ∷ []));
  queue_new_ok = ([], found []);
  queue_enqueue_ok = λ a x. (a ++ x ∷ [], found (a ++ x ∷ []));
  hashtable_new_ok = ([], found []);
  hashtable_add_ok = λ same t k v. (put_entry same t k v, found (put_entry same t k v));
}
  where
    found : {A : Type 0} (a : A) → within limit now a ≡ ok a
    found a = ground arith

module _ {K V : Type 0} (same : K → K → Bool)
    (same_iff : (j k : K) → (same j k ≡ true) ↔ (j ≡ k)) where
  find-put_same :
      (t : List (K × V)) (k : K) (v : V) → find_entry same (put_entry same t k v) k ≡ ok v
  find-put_same [] k v = rw ((same_iff k k).1 refl)
  find-put_same ((j, w) ∷ t) k v = elim (Bool-cases (same k j)) [
    | inl here ↦ rw (here, here)
    | inr later ↦ rw (later, later) (find-put_same t k v)
  ]

  find-put_other :
      (t : List (K × V)) (k : K) (v : V) (j : K)
      → same j k ≡ false
      → find_entry same (put_entry same t k v) j ≡ find_entry same t j
  find-put_other [] k v j ne = rw ne
  find-put_other ((i, w) ∷ t) k v j ne = elim (Bool-cases (same k i)) [
    | inl here ↦
        let miss : same j i ≡ false = rw (sym ((same_iff k i).0 here)) ne in rw (here, miss)
    | inr later ↦ elim (Bool-cases (same j i)) [
      | inl hit ↦ rw (later, hit)
      | inr miss ↦ rw (later, miss) (find-put_other t k v j ne)
    ]
  ]

  length-put_new :
      (t : List (K × V)) (k : K) (v : V) (s : CcStat)
      → find_entry same t k ≡ err s
      → length (put_entry same t k v) ≡ length t + 1
  length-put_new [] k v s e = omega arith
  length-put_new ((j, w) ∷ t) k v s e = elim (Bool-cases (same k j)) [
    | inl here ↦ absurd (cc (rw here at e))
    | inr later ↦ rw later (omega (arith, length-put_new t k v s (rw later at e)))
  ]

  put-All :
      (P : K × V → Type 0) (t : List (K × V)) (k : K) (v : V)
      → P (k, v)
      → All P t
      → All P (put_entry same t k v)
  put-All P [] k v new old = (new, tt)
  put-All P ((j, w) ∷ t) k v new old = elim (Bool-cases (same k j)) [
    | inl here ↦ rw (here, put_entry) (subst (λ i. P (i, v)) ((same_iff k j).0 here) new, old.1)
    | inr later ↦ rw (later, put_entry) (old.0, put-All P t k v new old.1)
  ]

  find-All :
      (P : K × V → Type 0) (t : List (K × V)) (k : K) (v : V)
      → find_entry same t k ≡ ok v
      → All P t
      → P (k, v)
  find-All P [] k v e all = absurd (cc e)
  find-All P ((j, w) ∷ t) k v e all = elim (Bool-cases (same k j)) [
    | inl here ↦
        let value : ok w ≡ ok v = rw here at e in
        subst P (ap₂ (λ (i : K) (x : V). (i, x)) (sym ((same_iff k j).0 here)) (cc value)) all.0
    | inr later ↦ find-All P t k v (rw later at e) all.1
  ]

pub list_IsHashTable :
    {K : Type 0} (limit : ℕ) (same : K → K → Bool)
    → ((j k : K) → (same j k ≡ true) ↔ (j ≡ k))
    → IsHashTable (list_collections limit) same
list_IsHashTable limit same iff = record {
  same_iff = iff;
  get_new = λ now t k e. rw (within_ok limit now [] t e);
  get_add_same = λ now t u k v e.
      rw (within_ok limit now (put_entry same t k v) u e) (find-put_same same iff t k v);
  get_add_other = λ now t u k v j e ne.
      rw (within_ok limit now (put_entry same t k v) u e) (find-put_other same iff t k v j ne);
  size_entries = λ t. refl;
  size_new = λ now t e. rw (within_ok limit now [] t e);
  size_add_new = λ now t u k v s e new.
      rw (within_ok limit now (put_entry same t k v) u e) (length-put_new same iff t k v s new);
  entries_new = λ now t e. ground (arith, within_ok limit now [] t e);
  entries_add = λ P now t u k v e new old.
      subst (All P) (sym (within_ok limit now (put_entry same t k v) u e))
        (put-All same iff P t k v new old);
  entries_get = λ P t k v e all. find-All same iff P t k v e all;
}

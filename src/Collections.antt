-- ===== src/Collections.antt =====
-- The containers of Collections-C, a git submodule of the repository. The code calls its array, list,
-- queue and hash table; here they are parameters, and what its documentation says of them are laws.
-- `now` numbers the call that allocates: whether memory is found may change from call to call.
pub mod Lists
use fuzz_monitor.Base.{
  refl, ◌⊎◌, inl, inr, ◌↔◌, Bool, true, false, ℕ, suc, ◌+◌, ◌≡◌, ◌≢◌, List, [], ◌∷◌, ◌++◌, map,
  Option, none, some, length, get_elem?, All,
}

-- `enum cc_stat`: the names that the code uses, and the rest by number.
pub data CcStat : Type 0 where
  cc_ok cc_err_alloc cc_err_key_not_found cc_err_value_not_found : CcStat
  cc_err_other : ℕ → CcStat

-- A status that an allocating operation may fail with.
abbrev pub IsFailure : CcStat → Type 0
IsFailure cc_err_alloc = Unit {0}
IsFailure (cc_err_other n) = Unit {0}
IsFailure other = ⊥

-- The status of a call, with what it hands back where that is `CC_OK`.
pub data Result {ℓ} (A : Type ℓ) : Type ℓ where
  ok : A → Result A
  err : CcStat → Result A

-- The functions of the library. A container's items stand in the order in which its iterator yields
-- them, and the iterator's index counts from 0.
pub record Collections : Type 1 where
  pub Array : Type 0 → Type 0
  pub array_new : {A : Type 0} → ℕ → Result (Array A)
  pub array_items : {A : Type 0} → Array A → List A
  pub array_size : {A : Type 0} → Array A → ℕ
  pub array_add : {A : Type 0} → ℕ → Array A → A → Result (Array A)
  pub array_get_at : {A : Type 0} → Array A → ℕ → Result A
  pub CList : Type 0 → Type 0
  pub list_new : {A : Type 0} → ℕ → Result (CList A)
  pub list_items : {A : Type 0} → CList A → List A
  pub list_size : {A : Type 0} → CList A → ℕ
  pub list_add : {A : Type 0} → ℕ → CList A → A → Result (CList A)
  pub Queue : Type 0 → Type 0
  pub queue_new : {A : Type 0} → ℕ → Result (Queue A)
  pub queue_items : {A : Type 0} → Queue A → List A
  pub queue_size : {A : Type 0} → Queue A → ℕ
  pub queue_enqueue : {A : Type 0} → ℕ → Queue A → A → Result (Queue A)
  pub queue_poll : {A : Type 0} → Queue A → Result (A × Queue A)
  -- The table's `key_compare` is an argument of its calls: `true` where it returns 0.
  pub HashTable : Type 0 → Type 0 → Type 0
  pub hashtable_new : {K V : Type 0} → ℕ → Result (HashTable K V)
  pub hashtable_get : {K V : Type 0} → (K → K → Bool) → HashTable K V → K → Result V
  pub hashtable_add :
      {K V : Type 0} → (K → K → Bool) → ℕ → HashTable K V → K → V → Result (HashTable K V)
  pub hashtable_size : {K V : Type 0} → HashTable K V → ℕ
  pub hashtable_entries : {K V : Type 0} → HashTable K V → List (K × V)

module _ (lib : Collections) where
  open lib use {
    Array, array_new, array_items, array_size, array_add, array_get_at, CList, list_new, list_items,
    list_size, list_add, Queue, queue_new, queue_items, queue_size, queue_enqueue, queue_poll,
    HashTable, hashtable_new, hashtable_get, hashtable_add, hashtable_size, hashtable_entries,
  }

  -- The documented behaviour of the array, the list and the queue.
  pub record IsCollections : Type 1 where
    pub array_new_items :
        {A : Type 0} (now : ℕ) (a : Array A) → array_new now ≡ ok a → array_items a ≡ []
    pub array_size_items : {A : Type 0} (a : Array A) → array_size a ≡ length (array_items a)
    pub array_add_items :
        {A : Type 0} (now : ℕ) (a b : Array A) (x : A)
        → array_add now a x ≡ ok b
        → array_items b ≡ array_items a ++ x ∷ []
    pub array_add_fails :
        {A : Type 0} (now : ℕ) (a : Array A) (x : A) (s : CcStat)
        → array_add now a x ≡ err s
        → IsFailure s
    pub array_get_at_items :
        {A : Type 0} (a : Array A) (i : ℕ) (x : A)
        → get_elem? (array_items a) i ≡ some x
        → array_get_at a i ≡ ok x
    pub list_new_items :
        {A : Type 0} (now : ℕ) (l : CList A) → list_new now ≡ ok l → list_items l ≡ []
    pub list_new_fails :
        {A : Type 0} (now : ℕ) (s : CcStat) → list_new {A = A} now ≡ err s → IsFailure s
    pub list_size_items : {A : Type 0} (l : CList A) → list_size l ≡ length (list_items l)
    pub list_add_items :
        {A : Type 0} (now : ℕ) (l m : CList A) (x : A)
        → list_add now l x ≡ ok m
        → list_items m ≡ list_items l ++ x ∷ []
    pub list_add_fails :
        {A : Type 0} (now : ℕ) (l : CList A) (x : A) (s : CcStat)
        → list_add now l x ≡ err s
        → IsFailure s
    pub queue_new_items :
        {A : Type 0} (now : ℕ) (q : Queue A) → queue_new now ≡ ok q → queue_items q ≡ []
    pub queue_size_items : {A : Type 0} (q : Queue A) → queue_size q ≡ length (queue_items q)
    pub queue_enqueue_items :
        {A : Type 0} (now : ℕ) (q r : Queue A) (x : A)
        → queue_enqueue now q x ≡ ok r
        → queue_items r ≡ queue_items q ++ x ∷ []
    pub queue_poll_items :
        {A : Type 0} (q : Queue A) (x : A) (xs : List A)
        → queue_items q ≡ x ∷ xs
        → (r : Queue A) × (queue_poll q ≡ ok (x, r)) × (queue_items r ≡ xs)

  -- The documented behaviour of the hash table, for keys that `same` tells apart.
  pub record IsHashTable {K : Type 0} (same : K → K → Bool) : Type 1 where
    pub same_iff : (j k : K) → (same j k ≡ true) ↔ (j ≡ k)
    pub get_new :
        {V : Type 0} (now : ℕ) (t : HashTable K V) (k : K)
        → hashtable_new now ≡ ok t
        → hashtable_get same t k ≡ err cc_err_key_not_found
    pub get_add_same :
        {V : Type 0} (now : ℕ) (t u : HashTable K V) (k : K) (v : V)
        → hashtable_add same now t k v ≡ ok u
        → hashtable_get same u k ≡ ok v
    pub get_add_other :
        {V : Type 0} (now : ℕ) (t u : HashTable K V) (k : K) (v : V) (j : K)
        → hashtable_add same now t k v ≡ ok u
        → same j k ≡ false
        → hashtable_get same u j ≡ hashtable_get same t j
    pub size_entries :
        {V : Type 0} (t : HashTable K V) → hashtable_size t ≡ length (hashtable_entries t)
    pub size_new :
        {V : Type 0} (now : ℕ) (t : HashTable K V) → hashtable_new now ≡ ok t → hashtable_size t ≡ 0
    pub size_add_new :
        {V : Type 0} (now : ℕ) (t u : HashTable K V) (k : K) (v : V) (s : CcStat)
        → hashtable_add same now t k v ≡ ok u
        → hashtable_get same t k ≡ err s
        → hashtable_size u ≡ hashtable_size t + 1
    pub entries_new :
        {V : Type 0} (now : ℕ) (t : HashTable K V)
        → hashtable_new now ≡ ok t
        → hashtable_entries t ≡ []
    -- An entry of the table is the one that was added, or one that was there before.
    pub entries_add :
        {V : Type 0} (P : K × V → Type 0) (now : ℕ) (t u : HashTable K V) (k : K) (v : V)
        → hashtable_add same now t k v ≡ ok u
        → P (k, v)
        → All P (hashtable_entries t)
        → All P (hashtable_entries u)
    -- What is found stands in an entry.
    pub entries_get :
        {V : Type 0} (P : K × V → Type 0) (t : HashTable K V) (k : K) (v : V)
        → hashtable_get same t k ≡ ok v
        → All P (hashtable_entries t)
        → P (k, v)

  -- Every allocation that is made by the call `now` finds memory.
  pub record HasMemory (now : ℕ) : Type 1 where
    pub array_new_ok : {A : Type 0} → (a : Array A) × (array_new now ≡ ok a)
    pub array_add_ok :
        {A : Type 0} (a : Array A) (x : A) → (b : Array A) × (array_add now a x ≡ ok b)
    pub list_new_ok : {A : Type 0} → (l : CList A) × (list_new now ≡ ok l)
    pub list_add_ok : {A : Type 0} (l : CList A) (x : A) → (m : CList A) × (list_add now l x ≡ ok m)
    pub queue_new_ok : {A : Type 0} → (q : Queue A) × (queue_new now ≡ ok q)
    pub queue_enqueue_ok :
        {A : Type 0} (q : Queue A) (x : A) → (r : Queue A) × (queue_enqueue now q x ≡ ok r)
    pub hashtable_new_ok : {K V : Type 0} → (t : HashTable K V) × (hashtable_new now ≡ ok t)
    pub hashtable_add_ok :
        {K V : Type 0} (same : K → K → Bool) (t : HashTable K V) (k : K) (v : V)
        → (u : HashTable K V) × (hashtable_add same now t k v ≡ ok u)

pub Result-cases {ℓ} :
    {A : Type ℓ} (r : Result A) → ((a : A) × (r ≡ ok a)) ⊎ ((s : CcStat) × (r ≡ err s))
Result-cases (ok a) = inl (a, refl)
Result-cases (err s) = inr (s, refl)

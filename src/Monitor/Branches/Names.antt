-- ===== src/Monitor/Branches/Names.antt =====
-- c_monitor/main.c: which keys the table of branches has after a call of process_branches.
use fuzz_monitor.Base.{
  ℕ, ◌+◌, ◌<◌, ◌≡◌, refl, sym, subst, ◌⊎◌, inl, inr, List, [], ◌∷◌, All, All-map, arith,
}
use fuzz_monitor.Text.{Text}
use fuzz_monitor.Text.Decimal.{text_eq_iff}
use fuzz_monitor.Collections.{Collections}
use fuzz_monitor.Monitor.Branches.Address.{branch_key}
use fuzz_monitor.Monitor.Branches.Steps.{AllKeys}
use fuzz_monitor.Monitor.Branches.Runs.{occurrences}

abbrev pub HasKey : Text → List (Text × ℕ) → Type 0
HasKey k [] = ⊥
HasKey k (entry ∷ entries) = (k ≡ entry.0) ⊎ HasKey k entries

pub All-HasKey :
    (P : Text → Type 0) (entries : List (Text × ℕ)) (k : Text)
    → All (λ entry. P (entry.0)) entries
    → HasKey k entries
    → P k
All-HasKey P [] k all has = absurd has
All-HasKey P (entry ∷ entries) k all (inl e) = subst P (sym e) all.0
All-HasKey P (entry ∷ entries) k all (inr has) = All-HasKey P entries k all.1 has

has_own : (entries : List (Text × ℕ)) → All (λ entry. HasKey (entry.0) entries) entries
has_own [] = tt
has_own (entry ∷ entries) = (
  inl refl,
  All-map (λ (e : Text × ℕ) (has : HasKey (e.0) entries). inr has) entries (has_own entries),
)

occurs_own : (ends : List (ℕ × ℕ)) → All (λ e. 0 < occurrences (branch_key e.0 e.1) ends) ends
occurs_own [] = tt
occurs_own (e ∷ ends) =
    let same = (text_eq_iff (branch_key e.0 e.1) (branch_key e.0 e.1)).1 refl in
    (
      rw same (omega arith),
      All-map (λ (d : ℕ × ℕ) (occurs : 0 < occurrences (branch_key d.0 d.1) ends). omega arith) ends
          (occurs_own ends),
    )

module _ (lib : Collections) where
  open lib use {HashTable, hashtable_entries}

  -- A key of the table is one of those before, or one that has been counted.
  abbrev pub Adds : HashTable Text ℕ → (Text → ℕ) → HashTable Text ℕ → Type 0
  Adds table counted table' =
      All (λ entry. HasKey (entry.0) (hashtable_entries table) ⊎ (0 < counted (entry.0)))
        (hashtable_entries table')

  pub run-Adds :
      (table' table : HashTable Text ℕ) (ends : List (ℕ × ℕ))
      → ((P : Text → Type 0)
          → All (λ e. P (branch_key e.0 e.1)) ends
          → AllKeys lib P table
          → AllKeys lib P table')
      → Adds table (λ k. occurrences k ends) table'
  run-Adds table' table ends names =
      names (λ k. HasKey k (hashtable_entries table) ⊎ (0 < occurrences k ends))
        (All-map (λ (e : ℕ × ℕ) (occurs : 0 < occurrences (branch_key e.0 e.1) ends). inr occurs)
          ends (occurs_own ends))
        (All-map (λ (e : Text × ℕ) (has : HasKey (e.0) (hashtable_entries table)). inl has)
          (hashtable_entries table) (has_own (hashtable_entries table)))

  pub Adds-nothing : (table : HashTable Text ℕ) (counted : Text → ℕ) → Adds table counted table
  Adds-nothing table counted =
      All-map (λ (e : Text × ℕ) (has : HasKey (e.0) (hashtable_entries table)). inl has)
        (hashtable_entries table) (has_own (hashtable_entries table))

  pub Adds-trans :
      (table table' table'' : HashTable Text ℕ) (first second : Text → ℕ)
      → Adds table first table'
      → Adds table' second table''
      → Adds table (λ k. first k + second k) table''
  Adds-trans table table' table'' first second one two =
      All-map
        (λ (e : Text × ℕ) (either : HasKey (e.0) (hashtable_entries table') ⊎ (0 < second (e.0))).
          elim either [
            | inr counted ↦ inr (omega arith)
            | inl has ↦
                elim (All-HasKey (λ k. HasKey k (hashtable_entries table) ⊎ (0 < first k))
                  (hashtable_entries table') (e.0) one has) [
                    | inl old ↦ inl old
                    | inr counted ↦ inr (omega arith)
                  ]
          ])
        (hashtable_entries table'') two

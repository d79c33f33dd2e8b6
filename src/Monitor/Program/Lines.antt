-- ===== src/Monitor/Program/Lines.antt =====
-- c_monitor/main.c: the lines of free_hashtable for the branches that a run has counted.
use fuzz_monitor.Base.{
  ℕ, ◌≤◌, ◌<◌, ◌≡◌, refl, sym, ap, ap₂, ◌∙◌, ◌⊎◌, inl, inr, List, [], ◌∷◌, ◌++◌, map, All, All-map,
  none, some, get_elem?, ltb, Bool-cases, arith,
}
use fuzz_monitor.Text.{Text, text_eq, long_max}
use fuzz_monitor.Text.Decimal.{text_eq_iff}
use fuzz_monitor.Bb.{BasicBlock}
use fuzz_monitor.Monitor.Branches.Address.{branch_key}
use fuzz_monitor.Monitor.Branches.Runs.{recorded, occurrences}
use fuzz_monitor.Monitor.Branches.Names.{HasKey}
use fuzz_monitor.Monitor.Tables.{labelled_line}
use fuzz_monitor.Monitor.Tables.Rounds.{entry_of, IsReadable, hits_at, lines_of}
use fuzz_monitor.Monitor.Loop.Works.{Work, branches_of}

-- The ends of the branches that are not skipped are addresses that `atol` reads.
abbrev pub AreLow : List BasicBlock → List Work → Type 0
AreLow bbs ws =
    All (λ w. All (λ e. (e.0 ≤ long_max) × (e.1 ≤ long_max)) (recorded none bbs w.branches)) ws

-- A key is that of two such ends.
abbrev pub IsLow : Text → Type 0
IsLow k = (f : ℕ) × (t : ℕ) × (k ≡ branch_key f t) × (f ≤ long_max) × (t ≤ long_max)

occurrences-IsLow :
    (k : Text) (taken : List (ℕ × ℕ))
    → All (λ e. (e.0 ≤ long_max) × (e.1 ≤ long_max)) taken
    → 0 < occurrences k taken
    → IsLow k
occurrences-IsLow k [] low occurs = absurd (omega arith)
occurrences-IsLow k (e ∷ taken) low occurs = elim (Bool-cases (text_eq k (branch_key e.0 e.1))) [
  | inl here ↦ (e.0, e.1, (text_eq_iff k (branch_key e.0 e.1)).0 here, low.0.0, low.0.1)
  | inr other ↦
      let later : 0 < occurrences k taken = omega (arith, rw other at occurs) in
      occurrences-IsLow k taken low.1 later
]

pub branches_of-IsLow :
    (k : Text) (bbs : List BasicBlock) (ws : List Work)
    → AreLow bbs ws
    → 0 < branches_of k none bbs ws
    → IsLow k
branches_of-IsLow k bbs [] low counted = absurd (omega arith)
branches_of-IsLow k bbs (w ∷ ws) low counted =
    elim (Bool-cases (ltb 0 (occurrences k (recorded none bbs w.branches)))) [
      | inl here ↦ occurrences-IsLow k (recorded none bbs w.branches) low.0 (ground arith)
      | inr other ↦ branches_of-IsLow k bbs ws low.1 (ground arith)
    ]

-- One line for each branch, with its count.
abbrev pub count_lines : (Text → ℕ) → List (ℕ × ℕ) → Text
count_lines count [] = []
count_lines count ((from, to) ∷ edges) =
    labelled_line from to (count (branch_key from to)) ++ count_lines count edges

abbrev pub HasLine : Text → List (ℕ × ℕ) → Type 0
HasLine k [] = ⊥
HasLine k ((from, to) ∷ edges) = (k ≡ branch_key from to) ⊎ HasLine k edges

-- An entry of the table as free_hashtable reads it.
abbrev pub Reads : (Text → ℕ) → List ℕ → Text × ℕ → Type 0
Reads count counters (key, value) =
    IsLow key × (hits : ℕ) × (get_elem? counters value ≡ some hits) × (hits ≡ count key)

-- The branches of entries, with their counts.
abbrev pub Listed : (Text → ℕ) → List ℕ → List (Text × ℕ) → Type 0
Listed count counters entries =
    (branches : List (ℕ × ℕ × ℕ)) × (edges : List (ℕ × ℕ)) × (entries ≡ map entry_of branches)
    × All (IsReadable counters) branches
    × (lines_of counters branches ≡ count_lines count edges)
    × All (λ entry. HasLine (entry.0) edges) entries
    × All (λ e. HasKey (branch_key e.0 e.1) entries) edges

pub list_entries :
    (count : Text → ℕ) (counters : List ℕ) (entries : List (Text × ℕ))
    → All (Reads count counters) entries
    → Listed count counters entries
list_entries count counters [] all = ([], [], refl, tt, refl, tt, tt)
list_entries count counters ((key, value) ∷ entries) all =
    let ((f, t, name, low, low'), hits, at, counted) = all.0 in
    let (branches, edges, same, readable, lines, have, are) =
      list_entries count counters entries all.1 in
    let number : hits_at counters value ≡ count (branch_key f t) =
      rw (at, hits_at) (counted ∙ ap count name) in
    (
      (f, t, value) ∷ branches,
      (f, t) ∷ edges,
      ap₂ (λ k es. (k, value) ∷ es) name same,
      ((low, low', hits, at), readable),
      ap₂ (λ n rest. labelled_line f t n ++ rest) number lines,
      (inl name, All-map (λ (e : Text × ℕ) (has : HasLine (e.0) edges). inr has) entries have),
      (
        inl (sym name),
        All-map (λ (e : ℕ × ℕ) (has : HasKey (branch_key e.0 e.1) entries). inr has) edges are,
      ),
    )

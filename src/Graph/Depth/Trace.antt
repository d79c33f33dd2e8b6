-- ===== src/Graph/Depth/Trace.antt =====
-- The breadth-first search of c_monitor/graph.c on plain lists, with the elements that have left the
-- queue: what its steps do to the flags, the queue and the depth.
use fuzz_monitor.Base.{
  ℕ, zero, suc, ◌≤◌, ◌≡◌, refl, ◌⊎◌, inl, inr, ◌↔◌, max, Bool, true, false, List, [], ◌∷◌, ◌++◌,
  Option, none, some, set, if◌then◌else◌, arith,
}

pub record BfsQueueElm : Type 0 where
  pub depth : ℕ
  pub index : ℕ

-- For each node the indices of its targets, `none` for a target that is no node.
abbrev pub Arcs : Type 0
Arcs = List (List (Option ℕ))

abbrev pub arcs_at : Arcs → ℕ → List (Option ℕ)
arcs_at [] i = []
arcs_at (os ∷ arcs) zero = os
arcs_at (os ∷ arcs) (suc i) = arcs_at arcs i

abbrev pub flag : List Bool → ℕ → Bool
flag [] i = true
flag (b ∷ bs) zero = b
flag (b ∷ bs) (suc i) = flag bs i

pub record Trace : Type 0 where
  pub past : List BfsQueueElm
  pub pending : List BfsQueueElm
  pub flags : List Bool
  pub deepest : ℕ

abbrev pub push : ℕ → ℕ → Trace → Trace
push d i t = record t {
  pending = t.pending ++ record { depth = d; index = i } ∷ [];
  flags = set t.flags i true;
}

abbrev pub deepened : ℕ → Trace → Trace
deepened d t = record t { deepest = max t.deepest d }

unfoldable pub mark : ℕ → Trace → Option ℕ → Trace
mark d t none = deepened d t
mark d t (some i) = deepened d (if flag t.flags i then t else push d i t)

unfoldable pub mark_all : ℕ → Trace → List (Option ℕ) → Trace
mark_all d t [] = t
mark_all d t (o ∷ os) = mark_all d (mark d t o) os

-- The element `e` leaves the queue, of which `rest` remains.
unfoldable pub advance : Arcs → Trace → BfsQueueElm → List BfsQueueElm → Trace
advance arcs t e rest =
    mark_all (suc e.depth) (record t { past = e ∷ t.past; pending = rest }) (arcs_at arcs e.index)

abbrev pub HasArc : List (Option ℕ) → ℕ → Type 0
HasArc [] j = ⊥
HasArc (o ∷ os) j = (o ≡ some j) ⊎ HasArc os j

-- `k` arcs lead from `s` to `i`.
pub data Walk (arcs : Arcs) (s : ℕ) : ℕ → ℕ → Type 0 where
  stay : Walk arcs s 0 s
  step : {k i j : ℕ} → Walk arcs s k i → HasArc (arcs_at arcs i) j → Walk arcs s (suc k) j

abbrev pub Elem : ℕ → ℕ → List BfsQueueElm → Type 0
Elem k i [] = ⊥
Elem k i (e ∷ es) = (k ≡ e.depth) × (i ≡ e.index) ⊎ Elem k i es

-- `i` has been met at depth `k`: it has left the queue or waits in it.
abbrev pub Known : Trace → ℕ → ℕ → Type 0
Known t k i = Elem k i t.past ⊎ Elem k i t.pending

-- The depths do not fall along the queue, and start from `low`.
abbrev pub IsSorted : ℕ → List BfsQueueElm → Type 0
IsSorted low [] = Unit {0}
IsSorted low (e ∷ es) = (low ≤ e.depth) × IsSorted e.depth es

pub Elem-concat :
    (k i d j : ℕ) (es : List BfsQueueElm)
    → Elem k i (es ++ record { depth = d; index = j } ∷ []) ↔ (Elem k i es ⊎ (k ≡ d) × (i ≡ j))
Elem-concat k i d j [] = ground arith
Elem-concat k i d j (e ∷ es) = ground (arith, Elem-concat k i d j es)

pub flag-set :
    (fs : List Bool) (i j : ℕ) → (flag (set fs i true) j ≡ true) ↔ ((flag fs j ≡ true) ⊎ (i ≡ j))
flag-set [] i j = ground arith
flag-set (b ∷ fs) zero zero = ground arith
flag-set (b ∷ fs) zero (suc j) = ground arith
flag-set (b ∷ fs) (suc i) zero = ground arith
flag-set (b ∷ fs) (suc i) (suc j) = ground (arith, flag-set fs i j)

pub IsSorted-concat :
    (low d j : ℕ) (es : List BfsQueueElm)
    → IsSorted low es
    → low ≤ d
    → ((k i : ℕ) → Elem k i es → k ≤ d)
    → IsSorted low (es ++ record { depth = d; index = j } ∷ [])
IsSorted-concat low d j [] h le all = (le, tt)
IsSorted-concat low d j (e ∷ es) h le all = (
  h.0,
  IsSorted-concat e.depth d j es h.1 (all e.depth e.index (inl (refl, refl)))
      (λ k i m. all k i (inr m)),
)

-- Marking a target makes known what was known, and the target at depth `d` if its flag was not set.
pub Known-mark :
    (d : ℕ) (t : Trace) (o : Option ℕ) (k j : ℕ)
    → Known (mark d t o) k j ↔ (Known t k j ⊎ (o ≡ some j) × (k ≡ d) × (flag t.flags j ≡ false))
unfolding mark
Known-mark d t none k j = ground arith
Known-mark d t (some i) k j = ground (arith, Elem-concat k j d i t.pending)

pub flag-mark :
    (d : ℕ) (t : Trace) (o : Option ℕ) (j : ℕ)
    → (flag (mark d t o).flags j ≡ true) ↔ ((flag t.flags j ≡ true) ⊎ (o ≡ some j))
unfolding mark
flag-mark d t none j = ground arith
flag-mark d t (some i) j = ground (arith, flag-set t.flags i j)

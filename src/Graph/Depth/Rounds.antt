-- ===== src/Graph/Depth/Rounds.antt =====
-- The rounds of the breadth-first search of c_monitor/graph.c, and what holds when the queue is empty.
use fuzz_monitor.Base.{
  ℕ, zero, suc, ◌+◌, ◌≤◌, ◌<◌, ◌≡◌, ◌≢◌, refl, sym, ap, subst, ◌∙◌, ◌⊎◌, inl, inr, ◌↔◌, max, Bool,
  true, false, List, [], ◌∷◌, Option, none, some, length, length-append, set, dec_le, arith,
}
use fuzz_monitor.Graph.Depth.Trace.{
  BfsQueueElm, Arcs, arcs_at, flag, Trace, mark, mark_all, advance, HasArc, Walk, step, Elem, Known,
  IsSorted,
}
use fuzz_monitor.Graph.Depth.Invariant.{Core, length-mark, mark_all-Core, Known-mark_all, covered}

past-mark_all : (d : ℕ) (t : Trace) (os : List (Option ℕ)) → (mark_all d t os).past ≡ t.past
unfolding mark_all mark
past-mark_all d t [] = refl
past-mark_all d t (none ∷ os) = past-mark_all d (mark d t none) os
past-mark_all d t (some i ∷ os) = past-mark_all d (mark d t (some i)) os ∙ ground arith

deeper : ℕ → List (Option ℕ) → ℕ → ℕ
deeper d [] m = m
deeper d (o ∷ os) m = max m d

deepest-mark : (d : ℕ) (t : Trace) (o : Option ℕ) → (mark d t o).deepest ≡ max t.deepest d
unfolding mark
deepest-mark d t none = refl
deepest-mark d t (some i) = ground arith

deepest-mark_all :
    (d : ℕ) (t : Trace) (os : List (Option ℕ)) → (mark_all d t os).deepest ≡ deeper d os t.deepest
unfolding mark_all deeper
deepest-mark_all d t [] = refl
deepest-mark_all d t (o ∷ []) = deepest-mark d t o
deepest-mark_all d t (o ∷ p ∷ os) =
    omega (arith, deepest-mark_all d (mark d t o) (p ∷ os), deepest-mark d t o)

deeper_grows : (d : ℕ) (os : List (Option ℕ)) (m : ℕ) → m ≤ deeper d os m
unfolding deeper
deeper_grows d [] m = omega arith
deeper_grows d (o ∷ os) m = omega arith

deeper_reaches : (d : ℕ) (os : List (Option ℕ)) (m : ℕ) → os ≢ [] → d ≤ deeper d os m
unfolding deeper
deeper_reaches d [] m ne = absurd (ne refl)
deeper_reaches d (o ∷ os) m ne = omega arith

deeper-cases :
    (d : ℕ) (os : List (Option ℕ)) (m : ℕ) → (deeper d os m ≡ m) ⊎ (os ≢ []) × (deeper d os m ≡ d)
unfolding deeper
deeper-cases d [] m = inl refl
deeper-cases d (o ∷ os) m = elim (dec_le d m) [
  | yes le ↦ inl (omega arith)
  | no gt ↦ inr (λ e. cc, omega arith)
]

length-mark_all :
    (d : ℕ) (t : Trace) (os : List (Option ℕ)) → length (mark_all d t os).flags ≡ length t.flags
unfolding mark_all
length-mark_all d t [] = refl
length-mark_all d t (o ∷ os) = length-mark_all d (mark d t o) os ∙ length-mark d t o

-- The flags that are still false.
abbrev pub unseen : List Bool → ℕ
unseen [] = 0
unseen (false ∷ bs) = suc (unseen bs)
unseen (true ∷ bs) = unseen bs

abbrev pub work : Trace → ℕ
work t = unseen t.flags + length t.pending

unseen-set : (fs : List Bool) (i : ℕ) → flag fs i ≡ false → suc (unseen (set fs i true)) ≡ unseen fs
unseen-set [] i e = cc
unseen-set (b ∷ fs) zero e = rw e
unseen-set (false ∷ fs) (suc i) e = ap suc (unseen-set fs i e)
unseen-set (true ∷ fs) (suc i) e = unseen-set fs i e

work-mark : (d : ℕ) (t : Trace) (o : Option ℕ) → work (mark d t o) ≡ work t
unfolding mark
work-mark d t none = refl
work-mark d t (some i) =
    ground
      (arith, unseen-set t.flags i, length-append t.pending (record { depth = d; index = i } ∷ []))

work-mark_all : (d : ℕ) (t : Trace) (os : List (Option ℕ)) → work (mark_all d t os) ≡ work t
unfolding mark_all
work-mark_all d t [] = refl
work-mark_all d t (o ∷ os) = work-mark_all d (mark d t o) os ∙ work-mark d t o

-- Each round takes one element off the work: a flag that is set stands for an element of the queue.
pub work-advance :
    (arcs : Arcs) (t : Trace) (e : BfsQueueElm) (rest : List BfsQueueElm)
    → t.pending ≡ e ∷ rest
    → suc (work (advance arcs t e rest)) ≡ work t
unfolding advance
work-advance arcs t e rest h = omega (
  arith,
  work-mark_all (suc e.depth) (record t { past = e ∷ t.past; pending = rest })
      (arcs_at arcs e.index),
  ap length h,
)

-- Leaving the queue keeps an element known.
pop-Known :
    (t : Trace) (e : BfsQueueElm) (rest : List BfsQueueElm) (k i : ℕ)
    → t.pending ≡ e ∷ rest
    → Known (record t { past = e ∷ t.past; pending = rest }) k i ↔ Known t k i
pop-Known t e rest k i h = ground arith

module _ (arcs : Arcs) (s size : ℕ) where
  pub record Inv (t : Trace) : Type 0 where
    pub low : ℕ
    pub core : Core arcs s low t
    pub sized : length t.flags ≡ size
    pub closed :
        (k i j : ℕ)
        → Elem k i t.past
        → HasArc (arcs_at arcs i) j
        → (l : ℕ) × (0 < l) × (l ≤ suc k) × Known t l j
    pub deep : (k i : ℕ) → Elem k i t.past → arcs_at arcs i ≢ [] → suc k ≤ t.deepest
    pub attained :
        (t.deepest ≡ 0)
        ⊎ ((k : ℕ) × (i : ℕ) × Elem k i t.past × (arcs_at arcs i ≢ []) × (t.deepest ≡ suc k))

  -- The element at the head of the queue becomes the current one.
  pop-Core :
      (low : ℕ) (t : Trace) (e : BfsQueueElm) (rest : List BfsQueueElm)
      → t.pending ≡ e ∷ rest
      → Core arcs s low t
      → Core arcs s e.depth (record t { past = e ∷ t.past; pending = rest })
  pop-Core low t e rest h c =
      let known = λ (k i : ℕ). pop-Known t e rest k i h in
      let in_order : IsSorted low (e ∷ rest) = subst (IsSorted low) h c.sorted in
      record {
        walk = λ k i m. c.walk k i ((known k i).0 m);
        start = (known 0 s).1 c.start;
        flagged = λ k i m. c.flagged k i ((known k i).0 m);
        seen = λ i on lt. let (k, pos, m) = c.seen i on lt in (k, pos, (known k i).1 m);
        unique = λ k l i m m'. c.unique k l i ((known k i).0 m) ((known l i).0 m');
        bounded = λ k i m. omega (arith, c.bounded k i ((known k i).0 m), in_order.0);
        sorted = in_order.1;
      }

  module _ (in_range : (i j : ℕ) → HasArc (arcs_at arcs i) j → j < size) where
    pub advance-Inv :
        (t : Trace) (e : BfsQueueElm) (rest : List BfsQueueElm)
        → t.pending ≡ e ∷ rest
        → Inv t
        → Inv (advance arcs t e rest)
    unfolding advance
    advance-Inv t e rest h v =
        let u : Trace = record t { past = e ∷ t.past; pending = rest } in
        let os = arcs_at arcs e.index in
        let d = suc e.depth in
        let c = pop-Core v.low t e rest h v.core in
        let here = c.walk e.depth e.index (inl (inl (refl, refl))) in
        let reach : (j : ℕ) → HasArc os j → Walk arcs s d j = λ j m. step here m in
        let past : (mark_all d u os).past ≡ e ∷ t.past = past-mark_all d u os in
        let old : (k i : ℕ) → Known t k i → Known (mark_all d u os) k i =
          λ k i m. Known-mark_all arcs s d u os k i ((pop-Known t e rest k i h).1 m) in
        let deepest : (mark_all d u os).deepest ≡ deeper d os t.deepest = deepest-mark_all d u os in
        record {
          low = e.depth;
          core = mark_all-Core arcs s e.depth u os reach c;
          sized = length-mark_all d u os ∙ v.sized;
          closed = λ k i j m a. elim (subst (Elem k i) past m) [
            | inr before ↦
                let (l, pos, le, known) = v.closed k i j before a in (l, pos, le, old l j known)
            | inl (ek, ei) ↦
                let (l, pos, le, known) =
                  covered arcs s e.depth u os j reach c
                    (subst (λ i. HasArc (arcs_at arcs i) j) ei a)
                    (omega (arith, in_range i j a, v.sized)) in
                (l, pos, omega arith, known)
          ];
          deep = λ k i m ne. elim (subst (Elem k i) past m) [
            | inr before ↦ omega (arith, v.deep k i before ne, deepest, deeper_grows d os t.deepest)
            | inl (ek, ei) ↦ omega (
              arith,
              deepest,
              deeper_reaches d os t.deepest (subst (λ i. arcs_at arcs i ≢ []) ei ne),
            )
          ];
          attained = elim (deeper-cases d os t.deepest) [
            | inr (ne, new) ↦ inr (
              e.depth,
              e.index,
              subst (Elem e.depth e.index) (sym past) (inl (refl, refl)),
              ne,
              deepest ∙ new,
            )
            | inl same ↦ elim v.attained [
              | inl zero_depth ↦ inl (deepest ∙ same ∙ zero_depth)
              | inr (k, i, m, ne, at) ↦
                  inr (k, i, subst (Elem k i) (sym past) (inr m), ne, deepest ∙ same ∙ at)
            ]
          ];
        }

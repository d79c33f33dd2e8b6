-- ===== src/Graph/Depth/Invariant.antt =====
-- What the breadth-first search of c_monitor/graph.c keeps true, one edge and one round at a time.
use fuzz_monitor.Base.{
  ℕ, suc, ◌≤◌, ◌<◌, ◌≡◌, refl, sym, subst, inl, inr, true, List, [], ◌∷◌, Option, none, some,
  length, length-set, Bool-cases, arith,
}
use fuzz_monitor.Graph.Depth.Trace.{
  Arcs, flag, Trace, mark, mark_all, HasArc, Walk, Known, IsSorted, IsSorted-concat, Known-mark,
  flag-mark,
}

pub length-mark : (d : ℕ) (t : Trace) (o : Option ℕ) → length (mark d t o).flags ≡ length t.flags
unfolding mark
length-mark d t none = refl
length-mark d t (some i) = ground (arith, length-set t.flags i true)

module _ (arcs : Arcs) (s : ℕ) where
  -- `now` is the depth of the element that left the queue last.
  pub record Core (now : ℕ) (t : Trace) : Type 0 where
    pub walk : (k i : ℕ) → Known t k i → Walk arcs s k i
    pub start : Known t 0 s
    pub flagged : (k i : ℕ) → Known t k i → 0 < k → flag t.flags i ≡ true
    pub seen :
        (i : ℕ) → flag t.flags i ≡ true → i < length t.flags → (k : ℕ) × (0 < k) × Known t k i
    pub unique : (k l i : ℕ) → Known t k i → Known t l i → 0 < k → 0 < l → k ≡ l
    pub bounded : (k i : ℕ) → Known t k i → k ≤ suc now
    pub sorted : IsSorted now t.pending

  IsSorted-mark :
      (now : ℕ) (t : Trace) (o : Option ℕ) → Core now t → IsSorted now (mark (suc now) t o).pending
  unfolding mark
  IsSorted-mark now t none c = c.sorted
  IsSorted-mark now t (some i) c =
      let more =
        IsSorted-concat now (suc now) i t.pending c.sorted (omega arith)
          (λ k j m. c.bounded k j (inr m)) in
      ground (arith, more, c.sorted)

  mark-Core :
      (now : ℕ) (t : Trace) (o : Option ℕ)
      → ((j : ℕ) → o ≡ some j → Walk arcs s (suc now) j)
      → Core now t
      → Core now (mark (suc now) t o)
  mark-Core now t o reach c =
      let known = λ (k j : ℕ). Known-mark (suc now) t o k j in
      let flags = λ (j : ℕ). flag-mark (suc now) t o j in
      record {
        walk = λ k i m. elim ((known k i).0 m) [
          | inl old ↦ c.walk k i old
          | inr (e, at, _) ↦ subst (λ n. Walk arcs s n i) (sym at) (reach i e)
        ];
        start = (known 0 s).1 (inl c.start);
        flagged = λ k i m pos. elim ((known k i).0 m) [
          | inl old ↦ (flags i).1 (inl (c.flagged k i old pos))
          | inr (e, _, _) ↦ (flags i).1 (inr e)
        ];
        seen = λ i on lt. elim (Bool-cases (flag t.flags i)) [
          | inl old ↦
              let (k, pos, m) = c.seen i old (omega (arith, length-mark (suc now) t o)) in
              (k, pos, (known k i).1 (inl m))
          | inr new ↦ elim ((flags i).0 on) [
            | inl old ↦ absurd (cc new)
            | inr e ↦ (suc now, omega arith, (known (suc now) i).1 (inr (e, refl, new)))
          ]
        ];
        unique = λ k l i m m' p q.
            ground (arith, known k i, known l i, c.unique k l i, c.flagged k i, c.flagged l i);
        bounded = λ k i m. ground (arith, known k i, c.bounded k i);
        sorted = IsSorted-mark now t o c;
      }

  pub mark_all-Core :
      (now : ℕ) (t : Trace) (os : List (Option ℕ))
      → ((j : ℕ) → HasArc os j → Walk arcs s (suc now) j)
      → Core now t
      → Core now (mark_all (suc now) t os)
  unfolding mark_all
  mark_all-Core now t [] reach c = c
  mark_all-Core now t (o ∷ os) reach c =
      mark_all-Core now (mark (suc now) t o) os (λ j m. reach j (inr m))
        (mark-Core now t o (λ j e. reach j (inl e)) c)

  pub Known-mark_all :
      (d : ℕ) (t : Trace) (os : List (Option ℕ)) (k i : ℕ)
      → Known t k i
      → Known (mark_all d t os) k i
  unfolding mark_all
  Known-mark_all d t [] k i m = m
  Known-mark_all d t (o ∷ os) k i m =
      Known-mark_all d (mark d t o) os k i ((Known-mark d t o k i).1 (inl m))

  -- Every target that is a node is known at the depth of the edges or above.
  pub covered :
      (now : ℕ) (t : Trace) (os : List (Option ℕ)) (j : ℕ)
      → ((j : ℕ) → HasArc os j → Walk arcs s (suc now) j)
      → Core now t
      → HasArc os j
      → j < length t.flags
      → (k : ℕ) × (0 < k) × (k ≤ suc now) × Known (mark_all (suc now) t os) k j
  unfolding mark_all
  covered now t [] j reach c m lt = absurd m
  covered now t (o ∷ os) j reach c (inr m) lt =
      covered now (mark (suc now) t o) os j (λ j m. reach j (inr m))
        (mark-Core now t o (λ j e. reach j (inl e)) c) m (omega (arith, length-mark (suc now) t o))
  covered now t (o ∷ os) j reach c (inl e) lt =
      let c' = mark-Core now t o (λ j e. reach j (inl e)) c in
      let on = (flag-mark (suc now) t o j).1 (inr e) in
      let (k, pos, m) = c'.seen j on (omega (arith, length-mark (suc now) t o)) in
      (k, pos, c'.bounded k j m, Known-mark_all (suc now) (mark (suc now) t o) os k j m)

-- ===== src/Monitor/Branches/Heap.antt =====
-- c_monitor/main.c: which of the blocks that process_branches takes from the heap are freed where.
use mathlib.Core.List.{append_assoc, append-nil}
use fuzz_monitor.Base.{
  ℕ, ◌+◌, ◌≡◌, refl, sym, ap, ◌∙◌, inl, inr, List, [], ◌∷◌, ◌++◌, map, foldl, some, ◌==◌,
  if◌then◌else◌, Bool-cases, arith,
}
use mathlib.Core.List.{map-append}
use fuzz_monitor.Graph.{Ptr, has_target}
use fuzz_monitor.Graph.Rows.{Row, insert_edge}
use fuzz_monitor.Monitor.Branches.{release}
use fuzz_monitor.Monitor.Branches.Print.{Fd, null, graph_no_print, file, Sink, graph_print_and_free}

-- How often a block is in a list.
abbrev pub times : ℕ → List ℕ → ℕ
times a [] = 0
times a (x ∷ xs) = (if x == a then 1 else 0) + times a xs

pub times-append : (a : ℕ) (xs ys : List ℕ) → times a (xs ++ ys) ≡ times a xs + times a ys
times-append a [] ys = omega arith
times-append a (x ∷ xs) ys = omega (arith, times-append a xs ys)

abbrev addr_of : Ptr → ℕ
addr_of p = p.addr

-- The blocks that a graph keeps.
abbrev pub kept : List Row → List ℕ
kept [] = []
kept (r ∷ rows) = map addr_of r.targets ++ r.node.addr ∷ kept rows

-- `graph_add` keeps or the `switch` frees each of the two blocks, and not both.
pub insert_edge-release :
    (rows : List Row) (from to : Ptr)
    → (blocks : List ℕ) × (release (insert_edge rows from to).0 from to ≡ some blocks)
      × ((a : ℕ)
          → times a (kept (insert_edge rows from to).1) + times a blocks
            ≡ times a (kept rows) + times a (from.addr ∷ to.addr ∷ []))
unfolding insert_edge release
insert_edge-release [] from to = ([], refl, λ a. omega arith)
insert_edge-release (r ∷ rows) from to = elim (Bool-cases (r.node.value == from.value)) [
  | inl here ↦ elim (Bool-cases (has_target r.targets to.value)) [
    | inl old ↦ rw (here, old) (to.addr ∷ from.addr ∷ [], refl, λ a. omega arith)
    | inr new ↦
        rw (here, new)
          (
            from.addr ∷ [],
            refl,
            λ a. omega (
              arith,
              ap (times a) (map-append addr_of r.targets (to ∷ [])),
              times-append a (map addr_of r.targets) (to.addr ∷ []),
              times-append a (map addr_of r.targets) (r.node.addr ∷ kept rows),
              times-append a (map addr_of (r.targets ++ to ∷ [])) (r.node.addr ∷ kept rows),
            ),
          )
  ]
  | inr later ↦
      let (blocks, freed, sum) = insert_edge-release rows from to in
      rw later (
        blocks,
        freed,
        λ a. omega (
          arith,
          sum a,
          times-append a (map addr_of r.targets) (r.node.addr ∷ kept rows),
          times-append a (map addr_of r.targets) (r.node.addr ∷ kept (insert_edge rows from to).1),
        ),
      )
]

kept_lem :
    (freed : List ℕ) (r : Row) (rows : List Row)
    → (freed ++ map addr_of r.targets ++ r.node.addr ∷ []) ++ kept rows ≡ freed ++ kept (r ∷ rows)
kept_lem freed r rows =
    append_assoc (freed ++ map addr_of r.targets) (r.node.addr ∷ []) (kept rows)
    ∙ append_assoc freed (map addr_of r.targets) (r.node.addr ∷ kept rows)

-- Whatever it prints, the callback of `graph_foreach` frees all that the graph keeps.
pub graph_print_and_free-freed :
    (fd : Fd) (s : Sink) (rows : List Row)
    → (foldl (λ s r. graph_print_and_free fd s r.node r.targets) s rows).freed
      ≡ s.freed ++ kept rows
unfolding graph_print_and_free
graph_print_and_free-freed fd s [] = sym (append-nil s.freed)
graph_print_and_free-freed null s (r ∷ rows) =
    graph_print_and_free-freed null (graph_print_and_free null s r.node r.targets) rows
    ∙ kept_lem s.freed r rows
graph_print_and_free-freed graph_no_print s (r ∷ rows) =
    graph_print_and_free-freed graph_no_print
      (graph_print_and_free graph_no_print s r.node r.targets) rows
    ∙ kept_lem s.freed r rows
graph_print_and_free-freed file s (r ∷ rows) =
    graph_print_and_free-freed file (graph_print_and_free file s r.node r.targets) rows
    ∙ kept_lem s.freed r rows

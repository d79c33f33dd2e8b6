-- ===== src/Monitor/Branches/Runs.antt =====
-- c_monitor/main.c: the loop of process_branches over all branches of an input, and the whole call.
use fuzz_monitor.Base.{
  ℕ, ◌+◌, ◌%◌, ◌^◌, ◌≡◌, refl, ◌⊎◌, inl, inr, ◌↔◌, List, [], ◌∷◌, Option, none, some, Bool, true,
  false, ◌&&◌, leb, length, All, if◌then◌else◌, Bool-cases, arith,
}
use fuzz_monitor.Text.{Text, text_eq}
use fuzz_monitor.Collections.{Collections, IsCollections, IsHashTable, HasMemory}
use fuzz_monitor.Perf.{BtsBranch}
use fuzz_monitor.Sections.{SectionBounds}
use fuzz_monitor.Bb.{BasicBlock}
use fuzz_monitor.Graph.Rows.{Row}
use fuzz_monitor.Graph.Edges.{HasEdge}
use fuzz_monitor.Monitor.{Monitor}
use fuzz_monitor.Monitor.Branches.{Run, going, process_branch, run_branches}
use fuzz_monitor.Monitor.Branches.Address.{
  user_limit, in_kernel, out_of_section, resolve, branch_key,
}
use fuzz_monitor.Monitor.Counters.{hits_of, hits_of-lt}
use fuzz_monitor.Monitor.Branches.Steps.{IsSound, AllKeys, IsRecorded, record_branch-IsRecorded}

-- Both ends are outside the kernel and, where there are bounds, inside the section, its last address
-- included.
abbrev pub is_watched : Option SectionBounds → BtsBranch → Bool
is_watched none b = leb b.from user_limit && leb b.to user_limit
is_watched (some sec) b =
    (leb b.from user_limit && leb b.to user_limit)
    && (leb sec.sec_start b.from && leb b.from sec.sec_end)
    && (leb sec.sec_start b.to && leb b.to sec.sec_end)

-- The ends of the branches that are not skipped.
abbrev pub recorded : Option SectionBounds → List BasicBlock → List BtsBranch → List (ℕ × ℕ)
recorded sec bbs [] = []
recorded sec bbs (b ∷ branches) =
    let rest = recorded sec bbs branches in if is_watched sec b then resolve bbs b ∷ rest else rest

kernel_lem :
    (sec : Option SectionBounds) (b : BtsBranch) → in_kernel b ≡ true → is_watched sec b ≡ false
unfolding in_kernel
kernel_lem none b h = ground arith
kernel_lem (some sec) b h = ground arith

outside_lem :
    (sec : Option SectionBounds) (b : BtsBranch)
    → out_of_section sec b ≡ true
    → is_watched sec b ≡ false
unfolding out_of_section
outside_lem none b h = cc
outside_lem (some sec) b h = ground arith

watched_lem :
    (sec : Option SectionBounds) (b : BtsBranch)
    → in_kernel b ≡ false
    → out_of_section sec b ≡ false
    → is_watched sec b ≡ true
unfolding in_kernel out_of_section
watched_lem none b h k = ground arith
watched_lem (some sec) b h k = ground arith

abbrev pub HasEnds : List (ℕ × ℕ) → ℕ → ℕ → Type 0
HasEnds [] x y = ⊥
HasEnds (e ∷ ends) x y = ((x ≡ e.0) × (y ≡ e.1)) ⊎ HasEnds ends x y

-- How many of the branches have a key.
abbrev pub occurrences : Text → List (ℕ × ℕ) → ℕ
occurrences k [] = 0
occurrences k (e ∷ ends) = (if text_eq k (branch_key e.0 e.1) then 1 else 0) + occurrences k ends

module _ (lib : Collections) where
  open lib use {hashtable_get, hashtable_size}

  -- The variables after the branches with these ends, by those before.
  pub record IsRun (r : Run lib) (rows : List Row) (ends : List (ℕ × ℕ)) (r' : Run lib)
      (rows' : List Row) : Type 1 where
    pub sound : IsSound lib r' rows'
    pub edges : (x y : ℕ) → HasEdge rows' x y ↔ (HasEdge rows x y ⊎ HasEnds ends x y)
    pub counts :
        (k : Text)
        → hits_of lib text_eq r'.branch_hits r'.counters k
          ≡ (hits_of lib text_eq r.branch_hits r.counters k + occurrences k ends) % 2 ^ 64
    pub filtered : r'.filtered_count ≡ r.filtered_count + length ends
    pub size :
        hashtable_size r'.branch_hits + r.new_branches
        ≡ hashtable_size r.branch_hits + r'.new_branches
    pub names :
        (P : Text → Type 0)
        → All (λ e. P (branch_key e.0 e.1)) ends
        → AllKeys lib P r.branch_hits
        → AllKeys lib P r'.branch_hits

  IsRun-nil : (r : Run lib) (rows : List Row) → IsSound lib r rows → IsRun r rows [] r rows
  IsRun-nil r rows sound = record {
    sound = sound;
    edges = λ x y. ground arith;
    counts = λ k. omega (
      arith,
      hits_of-lt lib text_eq (2 ^ 64) r.branch_hits r.counters k (omega arith) sound.linked,
    );
    filtered = omega arith;
    size = refl;
    names = λ P new all. all;
  }

  IsRun-cons :
      (r q p : Run lib) (rows rows' rows'' : List Row) (e : ℕ × ℕ) (ends : List (ℕ × ℕ))
      → IsRecorded lib r rows e.0 e.1 q rows'
      → IsRun q rows' ends p rows''
      → IsRun r rows (e ∷ ends) p rows''
  IsRun-cons r q p rows rows' rows'' e ends first rest = record {
    sound = rest.sound;
    edges = λ x y. ground (arith, rest.edges x y, first.edges x y);
    counts = λ k. ground (arith, rest.counts k, first.counts k);
    filtered = omega (arith, rest.filtered, first.filtered);
    size = omega (arith, rest.size, first.size);
    names = λ P new all. rest.names P new.1 (first.names P new.0 all);
  }

  module _ (laws : IsCollections lib) (keys : IsHashTable lib text_eq) where
    -- The loop over the branches comes to its end where memory is found.
    pub run_branches-IsRun :
        (now : ℕ) (m : Monitor lib) (r : Run lib) (rows : List Row) (branches : List BtsBranch)
        → HasMemory lib now
        → IsSound lib r rows
        → (r' : Run lib) × (rows' : List Row) × (run_branches lib now m r branches ≡ going r')
          × IsRun r rows (recorded m.sec_bounds m.bbs branches) r' rows'
    unfolding run_branches process_branch
    run_branches-IsRun now m r rows [] memory sound = (r, rows, refl, IsRun-nil r rows sound)
    run_branches-IsRun now m r rows (b ∷ branches) memory sound = elim (Bool-cases (in_kernel b)) [
      | inl kernel ↦
          rw (kernel_lem m.sec_bounds b kernel, kernel, run_branches, process_branch)
            (run_branches-IsRun now m r rows branches memory sound)
      | inr user ↦ elim (Bool-cases (out_of_section m.sec_bounds b)) [
        | inl outside ↦
            rw (outside_lem m.sec_bounds b outside, user, run_branches, process_branch, outside)
              (run_branches-IsRun now m r rows branches memory sound)
        | inr inside ↦
            let ends = resolve m.bbs b in
            let (q, rows', e, first) =
              record_branch-IsRecorded lib laws keys now r rows ends.0 ends.1 memory sound in
            let (p, rows'', e', rest) =
              run_branches-IsRun now m q rows' branches memory first.sound in
            rw
              (
                watched_lem m.sec_bounds b user inside,
                user,
                run_branches,
                process_branch,
                inside,
                e,
                e',
              )
              (
                p,
                rows'',
                refl,
                IsRun-cons r q p rows rows' rows'' ends (recorded m.sec_bounds m.bbs branches) first
                    rest,
              )
      ]
    ]

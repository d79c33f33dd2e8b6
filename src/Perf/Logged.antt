-- ===== src/Perf/Logged.antt =====
-- analyze_bts of perf/perf.c where it only logs: which branches it counts.
use native.Mathlib.Nat.{zero-add}
use fuzz_monitor.Base.{
  ℕ, zero, suc, ◌+◌, ◌*◌, ◌≤◌, ◌≡◌, refl, sym, ◌∙◌, ap, inl, inr, true, false, List, [], ◌∷◌, ◌++◌,
  some, length, take, ltb, if◌then◌else◌, Bool-cases, arith,
}
use fuzz_monitor.Perf.{BtsBranch, GblStatus, Output, branch_size, log_branches, analyze_bts}
use fuzz_monitor.Monitor.Branches.Address.{in_kernel}

-- The branches that process_branches does not skip as the kernel's.
abbrev pub users : List BtsBranch → ℕ
users [] = 0
users (br ∷ branches) = (if in_kernel br then 0 else 1) + users branches

log_branches-users :
    (n at counter : ℕ) (branches : List BtsBranch)
    → n ≤ length branches
    → log_branches branches at (at + n * branch_size) counter
      ≡ some (counter + users (take n branches))
unfolding log_branches in_kernel
log_branches-users zero at counter [] h =
    let stop : ltb at (at + 0 * branch_size) ≡ false = ground arith in
    rw stop (ap some (omega arith))
log_branches-users zero at counter (br ∷ branches) h =
    let stop : ltb at (at + 0 * branch_size) ≡ false = ground arith in
    rw stop (ap some (omega arith))
log_branches-users (suc n) at counter [] h = absurd (omega arith)
log_branches-users (suc n) at counter (br ∷ branches) h =
    let on : ltb at (at + suc n * branch_size) ≡ true = ground arith in
    let end : at + branch_size + n * branch_size ≡ at + suc n * branch_size = omega arith in
    let rest = λ (counter : ℕ).
      ap (λ t. log_branches branches (at + branch_size) t counter) (sym end)
      ∙ log_branches-users n (at + branch_size) counter branches (omega arith) in
    elim (Bool-cases (in_kernel br)) [
      | inl kernel ↦ rw (on, kernel) (rest counter ∙ ap some (omega arith))
      | inr user ↦ rw (on, user) (rest (counter + 1) ∙ ap some (omega arith))
    ]

-- Where `aux_head` is at the end of the `n`-th branch, analyze_bts without pointers counts those of the
-- first `n` branches that do not touch the kernel, by the same test as process_branches, and reads no
-- other branch.
pub analyze_bts-users :
    (n : ℕ) (s : GblStatus) (branches : List BtsBranch) (out : Output)
    → n ≤ length branches
    → analyze_bts false s (record { head = n * branch_size; branches = branches }) out
      ≡ some (record out { logged = out.logged ++ users (take n branches) ∷ [] })
unfolding analyze_bts
analyze_bts-users n s branches out h =
    let counted =
      ap (λ t. log_branches branches 0 t 0) (sym (zero-add (n * branch_size)))
      ∙ log_branches-users n 0 0 branches h
      ∙ ap some (zero-add (users (take n branches))) in
    rw (counted, analyze_bts) refl

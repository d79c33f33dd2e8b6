-- ===== src/Preload/Writes.antt =====
-- Which writes preloads/preload.c passes on.
use mathlib.Core.List.{append_assoc, append-nil}
use fuzz_monitor.Base.{
  ℕ, zero, suc, ◌+◌, ◌-◌, ◌*◌, ◌%◌, ◌^◌, ◌≤◌, ◌<◌, ◌≡◌, ◌≢◌, refl, sym, ap, ◌∙◌, inl, inr, true,
  false, List, [], ◌∷◌, ◌++◌, map, Option, none, some, length, get_elem?, All, ltb, ◌==◌,
  Bool-cases, arith,
}
use fuzz_monitor.Text.{Text, contains}
use fuzz_monitor.Preload.{
  Preload, same_fd, skip_n, open_file, write_file, Call, opens, writes, run_calls,
}

same_fd_refl : (fd : Option ℕ) → same_fd fd fd ≡ true
unfolding same_fd
same_fd_refl none = refl
same_fd_refl (some fd) = ground arith

same_fd_ne : (fd out : Option ℕ) → fd ≢ out → same_fd fd out ≡ false
unfolding same_fd
same_fd_ne none none ne = absurd (ne refl)
same_fd_ne none (some out) ne = refl
same_fd_ne (some fd) none ne = refl
same_fd_ne (some fd) (some out) ne = elim (Bool-cases (fd == out)) [
  | inl same ↦ let equal : fd ≡ out = ground arith in absurd (ne (ap some equal))
  | inr other ↦ other
]

write_file-kept :
    (s : Preload) (buf : Text)
    → s.counter < skip_n
    → write_file s s.fuzzer_out_fd buf ≡ record s { counter = s.counter + 1 }
unfolding write_file
write_file-kept s buf low =
    let next : (s.counter + 1) % 2 ^ 64 ≡ s.counter + 1 = omega arith in
    let few : ltb skip_n (s.counter + 1) ≡ false = ground arith in
    rw (same_fd_refl s.fuzzer_out_fd, next, few) refl

write_file-sent :
    (s : Preload) (buf : Text)
    → s.counter ≡ skip_n
    → write_file s s.fuzzer_out_fd buf ≡ record s { counter = 0; sent = s.sent ++ buf ∷ [] }
unfolding write_file
write_file-sent s buf full = rw (same_fd_refl s.fuzzer_out_fd, full) refl

later_place : (k c : ℕ) → c < skip_n → suc (k * 101 + (skip_n - (c + 1))) ≡ k * 101 + (skip_n - c)
later_place k c less = omega arith

-- The buffer that is sent stands in front of those that are sent later.
sent_places :
    (buf : Text) (bufs new : List Text) (c : ℕ)
    → c ≡ skip_n
    → ((k : ℕ) → get_elem? new k ≡ get_elem? bufs (k * 101 + (skip_n - 0)))
    → (k : ℕ) → get_elem? (buf ∷ new) k ≡ get_elem? (buf ∷ bufs) (k * 101 + (skip_n - c))
sent_places buf bufs new c full at zero =
    let first : 0 ≡ 0 * 101 + (skip_n - c) = omega arith in ap (get_elem? (buf ∷ bufs)) first
sent_places buf bufs new c full at (suc k) =
    let place : suc (k * 101 + (skip_n - 0)) ≡ suc k * 101 + (skip_n - c) = omega arith in
    at k ∙ ap (get_elem? (buf ∷ bufs)) place

-- Of writes to the descriptor of the fuzzer's file, with a counter of at most 100 before them, exactly
-- those are sent, in their order, that stand at the places 100 - counter, 201 - counter and so on. The
-- counter after them is that before them plus their number, modulo 101.
pub run_calls-every_101st :
    (path_needle : Text) (s : Preload) (bufs : List Text)
    → s.counter ≤ skip_n
    → let s' = run_calls path_needle s (map (writes s.fuzzer_out_fd) bufs) in
      (new : List Text) × (s'.sent ≡ s.sent ++ new)
      × ((k : ℕ) → get_elem? new k ≡ get_elem? bufs (k * 101 + (skip_n - s.counter)))
      × (s'.counter ≡ (s.counter + length bufs) % 101)
unfolding run_calls
run_calls-every_101st path_needle s [] low = ([], sym (append-nil s.sent), λ k. refl, omega arith)
run_calls-every_101st path_needle s (buf ∷ bufs) low = elim (Bool-cases (ltb s.counter skip_n)) [
  | inl less ↦
      let below : s.counter < skip_n = ground arith in
      let (new, sent, at, left) =
        run_calls-every_101st path_needle (record s { counter = s.counter + 1 }) bufs
          (omega arith) in
      rw (run_calls, write_file-kept s buf below)
        (
          new,
          sent,
          λ k. at k ∙ ap (get_elem? (buf ∷ bufs)) (later_place k s.counter below),
          left ∙ ap (λ t. t % 101) (omega arith),
        )
  | inr not_less ↦
      let full : s.counter ≡ skip_n = ground arith in
      let (new, sent, at, left) =
        run_calls-every_101st path_needle (record s { counter = 0; sent = s.sent ++ buf ∷ [] }) bufs
          (omega arith) in
      rw (run_calls, write_file-sent s buf full)
        (
          buf ∷ new,
          sent ∙ append_assoc s.sent (buf ∷ []) new,
          sent_places buf bufs new s.counter full at,
          left ∙ omega (arith, full),
        )
]

-- Neither an open of a path with the needle nor a write to the descriptor that was noted.
abbrev pub IsOther : Text → Option ℕ → Call → Type 0
IsOther path_needle out (opens path ret) = contains path path_needle ≡ false
IsOther path_needle out (writes fd buf) = fd ≢ out

-- Opens of other paths and writes to other descriptors change nothing for the calls after them.
pub run_calls-others :
    (path_needle : Text) (s : Preload) (others calls : List Call)
    → All (IsOther path_needle s.fuzzer_out_fd) others
    → run_calls path_needle s (others ++ calls) ≡ run_calls path_needle s calls
unfolding run_calls
run_calls-others path_needle s [] calls all = refl
run_calls-others path_needle s (opens path ret ∷ others) calls all =
    let same : (open_file path_needle s path ret).0 ≡ s = unfold open_file in rw all.0 refl in
    ap (λ t. run_calls path_needle t (others ++ calls)) same
    ∙ run_calls-others path_needle s others calls all.1
run_calls-others path_needle s (writes fd buf ∷ others) calls all =
    let same : write_file s fd buf ≡ s =
      unfold write_file in rw (same_fd_ne fd s.fuzzer_out_fd all.0) refl in
    ap (λ t. run_calls path_needle t (others ++ calls)) same
    ∙ run_calls-others path_needle s others calls all.1

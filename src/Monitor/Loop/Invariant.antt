-- ===== src/Monitor/Loop/Invariant.antt =====
-- c_monitor/main.c, monitor_loop: what its turns keep true, whatever their calls answer.
use fuzz_monitor.Base.{
  ℕ, ◌^◌, ◌<◌, ◌≡◌, refl, subst, ◌⊎◌, inl, inr, Bool, List, [], ◌∷◌, Bool-cases, Option-cases,
  arith,
}
use fuzz_monitor.Text.{Text, text_eq}
use fuzz_monitor.Collections.{Collections, IsHashTable}
use fuzz_monitor.Perf.{BtsBranch}
use fuzz_monitor.Perf.Parent.{perf_success, perf_failure, perf_blocked, perf_crash}
use fuzz_monitor.Perf.Api.{
  ApiRet, parent_ret, child_failure, zero_in_child, execs, perf_monitor_api,
}
use fuzz_monitor.Monitor.{Monitor}
use fuzz_monitor.Monitor.Branches.{Returned, zero_returned, minus_one, aborts, process_branches}
use fuzz_monitor.Monitor.Branches.Invariant.{KeepsTable, process_branches-KeepsTable}
use fuzz_monitor.Monitor.Seen.{Seen, Noted, noted, crashed, note_input, same_hash}
use fuzz_monitor.Monitor.Seen.Invariant.{IsSeen, KeepsSeen, note_input-KeepsSeen}
use fuzz_monitor.Monitor.Loop.{
  Exit, Turn, Fetched, input, nothing, breaks, fetch, traced, Loop, Turned, goes, leaves, in_child,
  blocks, crashes, record_input, run_input, take_turn, take_turns,
}
use fuzz_monitor.Perf.Traced.{no_output}
use fuzz_monitor.Monitor.Counters.{Linked}
use fuzz_monitor.Perf.{GblStatus}

module _ (lib : Collections) where
  -- The table of inputs is well formed, every key of the table of branches has a counter of its own, and
  -- the number of inputs fits.
  pub record IsSteady (l : Loop lib) : Type 0 where
    pub seen : IsSeen lib l.seen
    pub linked : Linked lib text_eq (2 ^ 64) l.monitor.branch_hits l.monitor.counters
    pub small : l.monitor.input_n < 2 ^ 64

module _ (lib : Collections) (keys : IsHashTable lib text_eq)
    (hashes : IsHashTable lib same_hash) where
  -- The state after a turn, or where the loop is left.
  abbrev pub StaysSteady : Turned lib → Type 0
  StaysSteady (goes l) = IsSteady lib l
  StaysSteady (leaves exit l) = IsSteady lib l
  StaysSteady (in_child ret l) = IsSteady lib l
  StaysSteady blocks = Unit {0}
  StaysSteady crashes = Unit {0}

  Returned-cases :
      (r : Returned lib)
      → ((result : _) × (r ≡ zero_returned result))
        ⊎ ((m : Monitor lib) × (r ≡ minus_one m))
        ⊎ (r ≡ aborts)
  Returned-cases (zero_returned result) = inl (result, refl)
  Returned-cases (minus_one m) = inr (inl (m, refl))
  Returned-cases aborts = inr (inr refl)

  record_input-StaysSteady :
      (turn : Turn) (l : Loop lib) (branches : List BtsBranch)
      → IsSteady lib l
      → StaysSteady (record_input lib turn l branches)
  unfolding record_input
  record_input-StaysSteady turn l branches s =
      let kept =
        process_branches-KeepsTable lib keys turn.now turn.opens l.monitor branches s.linked in
      elim (Returned-cases (process_branches lib turn.now turn.opens l.monitor branches)) [
        | inl (result, e) ↦
            let (linked, _) = subst (KeepsTable lib keys l.monitor) e kept in
            rw (e, record_input) (record { seen = s.seen; linked = linked; small = omega arith })
        | inr (inl (m, e)) ↦
            let (linked, same) = subst (KeepsTable lib keys l.monitor) e kept in
            let (_, _, _, _, input_n, _) = same in
            rw (e, record_input)
              (record { seen = s.seen; linked = linked; small = omega (arith, s.small) })
        | inr (inr e) ↦ rw (e, record_input) tt
      ]

  IsSteady-status :
      (l : Loop lib) (status : GblStatus)
      → IsSteady lib l
      → IsSteady lib (record l { status = status })
  IsSteady-status l status s = record { seen = s.seen; linked = s.linked; small = s.small }

  ApiRet-cases :
      (r : ApiRet)
      → (r ≡ parent_ret perf_success)
        ⊎ (r ≡ parent_ret perf_failure)
        ⊎ (r ≡ parent_ret perf_blocked)
        ⊎ (r ≡ parent_ret perf_crash)
        ⊎ (r ≡ child_failure)
        ⊎ (r ≡ zero_in_child)
        ⊎ (r ≡ execs)
  ApiRet-cases (parent_ret perf_success) = inl refl
  ApiRet-cases (parent_ret perf_failure) = inr (inl refl)
  ApiRet-cases (parent_ret perf_blocked) = inr (inr (inl refl))
  ApiRet-cases (parent_ret perf_crash) = inr (inr (inr (inl refl)))
  ApiRet-cases child_failure = inr (inr (inr (inr (inl refl))))
  ApiRet-cases zero_in_child = inr (inr (inr (inr (inr (inl refl)))))
  ApiRet-cases execs = inr (inr (inr (inr (inr (inr refl)))))

  run_input-StaysSteady :
      (turn : Turn) (l : Loop lib) → IsSteady lib l → StaysSteady (run_input lib turn l)
  unfolding run_input
  run_input-StaysSteady turn l s =
      let api = perf_monitor_api turn.calls l.status no_output in
      let s' = IsSteady-status l api.status s in
      elim (ApiRet-cases api.ret) [
        | inl e ↦ elim (Option-cases (traced turn.calls.system.last api.output.count)) [
          | inl beyond ↦ rw (e, run_input, beyond) tt
          | inr (branches, found) ↦
              rw (e, run_input, found)
                (record_input-StaysSteady turn (record l { status = api.status }) branches s')
        ]
        | inr (inl e) ↦ rw (e, run_input) s'
        | inr (inr (inl e)) ↦ rw (e, run_input) tt
        | inr (inr (inr (inl e))) ↦ rw (e, run_input) tt
        | inr (inr (inr (inr (inl e)))) ↦ rw (e, run_input) s'
        | inr (inr (inr (inr (inr (inl e))))) ↦ rw (e, run_input) s'
        | inr (inr (inr (inr (inr (inr e))))) ↦ rw (e, run_input) s'
      ]

  Fetched-cases :
      (f : Fetched)
      → ((buf : Text) × (size : ℕ) × (from_corpus : Bool) × (f ≡ input buf size from_corpus))
        ⊎ (f ≡ nothing)
        ⊎ ((exit : Exit) × (f ≡ breaks exit))
  Fetched-cases (input buf size from_corpus) = inl (buf, size, from_corpus, refl)
  Fetched-cases nothing = inr (inl refl)
  Fetched-cases (breaks exit) = inr (inr (exit, refl))

  Noted-cases :
      (n : Noted lib) → ((s : Seen lib) × (value : ℕ) × (n ≡ noted s value)) ⊎ (n ≡ crashed)
  Noted-cases (noted s value) = inl (s, value, refl)
  Noted-cases crashed = inr refl

  take_turn-StaysSteady :
      (wd : ℕ) (turn : Turn) (l : Loop lib) → IsSteady lib l → StaysSteady (take_turn lib wd turn l)
  unfolding take_turn
  take_turn-StaysSteady wd turn l s =
      elim (Fetched-cases (fetch wd l.monitor.fuzz_corpus_path turn)) [
        | inr (inl e) ↦ rw (e, take_turn) s
        | inr (inr (exit, e)) ↦ rw (e, take_turn) s
        | inl (buf, size, from_corpus, e) ↦
            let kept = note_input-KeepsSeen lib hashes turn.now l.seen buf size s.seen in
            elim (Noted-cases (note_input lib turn.now l.seen buf size)) [
              | inr n ↦ rw (e, take_turn, n) tt
              | inl (seen, value, n) ↦
                  rw (e, take_turn, n)
                    (run_input-StaysSteady turn (record l { seen = seen })
                      (record {
                        seen = subst (KeepsSeen lib hashes turn.now) n kept;
                        linked = s.linked;
                        small = s.small;
                      }))
            ]
      ]

  Turned-cases :
      (t : Turned lib)
      → ((l : Loop lib) × (t ≡ goes l))
        ⊎ ((exit : Exit) × (l : Loop lib) × (t ≡ leaves exit l))
        ⊎ ((ret : ApiRet) × (l : Loop lib) × (t ≡ in_child ret l))
        ⊎ (t ≡ blocks)
        ⊎ (t ≡ crashes)
  Turned-cases (goes l) = inl (l, refl)
  Turned-cases (leaves exit l) = inr (inl (exit, l, refl))
  Turned-cases (in_child ret l) = inr (inr (inl (ret, l, refl)))
  Turned-cases blocks = inr (inr (inr (inl refl)))
  Turned-cases crashes = inr (inr (inr (inr refl)))

  -- Whatever the calls answer, and whether memory is found or not: through any turns, and where the loop
  -- is left, each CRC and each key of a branch has a counter of its own, no counter of a CRC is above the
  -- maximum, the running total is at most twice the number of CRCs, and the number of inputs fits 64 bits.
  pub take_turns-StaysSteady :
      (wd : ℕ) (l : Loop lib) (turns : List Turn)
      → IsSteady lib l
      → StaysSteady (take_turns lib wd l turns)
  unfolding take_turns
  take_turns-StaysSteady wd l [] s = s
  take_turns-StaysSteady wd l (turn ∷ turns) s = elim (Bool-cases turn.running) [
    | inr stopped ↦ rw (stopped, take_turns) s
    | inl running ↦
        let kept = take_turn-StaysSteady wd turn l s in
        elim (Turned-cases (take_turn lib wd turn l)) [
          | inl (l', e) ↦
              rw (e, take_turns, running)
                (take_turns-StaysSteady wd l' turns (subst StaysSteady e kept))
          | inr (inl (exit, l', e)) ↦ rw (e, take_turns, running) (subst StaysSteady e kept)
          | inr (inr (inl (ret, l', e))) ↦ rw (e, take_turns, running) (subst StaysSteady e kept)
          | inr (inr (inr (inl e))) ↦ rw (e, take_turns, running) tt
          | inr (inr (inr (inr e))) ↦ rw (e, take_turns, running) tt
        ]
  ]

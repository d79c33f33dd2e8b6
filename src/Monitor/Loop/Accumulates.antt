-- ===== src/Monitor/Loop/Accumulates.antt =====
-- c_monitor/main.c, monitor_loop: what its turns have added up, where no call fails.
use fuzz_monitor.Base.{
  ℕ, ◌+◌, ◌%◌, ◌^◌, ◌<◌, ◌≡◌, refl, sym, subst, ap, ◌∙◌, true, List, [], ◌∷◌, ◌++◌, some, length,
  take-length, All-map, ◌⊎◌, inl, inr, ltb, ◌==◌, if◌then◌else◌, arith,
}
use fuzz_monitor.Text.{Text, text_eq}
use fuzz_monitor.Collections.{Collections, IsCollections, IsHashTable, HasMemory}
use fuzz_monitor.Util.{util_crc64}
use fuzz_monitor.Util.Bitwise.{reference_crc}
use fuzz_monitor.Util.Crc.{util_crc64-reference}
use fuzz_monitor.Perf.{GblStatus}
use fuzz_monitor.Perf.Api.{perf_monitor_api}
use fuzz_monitor.Monitor.Branches.{process_branches}
use fuzz_monitor.Monitor.Branches.Runs.{recorded, occurrences}
use fuzz_monitor.Monitor.Branches.Names.{HasKey}
use fuzz_monitor.Monitor.Branches.Whole.{process_branches-counts}
use fuzz_monitor.Monitor.Counters.{hits_of-lt}
use fuzz_monitor.Monitor.Seen.{Seen, same_hash}
use fuzz_monitor.Monitor.Seen.Invariant.{seen_hits, IsSeen, note_input-IsNoted}
use fuzz_monitor.Monitor.Loop.{
  Turn, nothing, fetch, Loop, goes, record_input, take_turn, take_turns,
}
use fuzz_monitor.Monitor.Loop.Invariant.{IsSteady}
use fuzz_monitor.Monitor.Loop.Works.{
  Work, inputs_of, Works, Runs, done, idle, works, HasAdded, HasAdded-nil, HasAdded-cons,
}
use fuzz_monitor.Monitor.Loop.Turns.{run_input-IsTraced}
use fuzz_monitor.Perf.Traced.{no_output}

module _ (lib : Collections) where
  take_turn-idle :
      (wd : ℕ) (turn : Turn) (l : Loop lib)
      → fetch wd l.monitor.fuzz_corpus_path turn ≡ nothing
      → take_turn lib wd turn l ≡ goes l
  unfolding take_turn
  take_turn-idle wd turn l e = rw (e, take_turn) refl

  take_turns-goes :
      (wd : ℕ) (l l' : Loop lib) (turn : Turn) (turns : List Turn)
      → turn.running ≡ true
      → take_turn lib wd turn l ≡ goes l'
      → take_turns lib wd l (turn ∷ turns) ≡ take_turns lib wd l' turns
  unfolding take_turns
  take_turns-goes wd l l' turn turns running turned = rw (turned, take_turns, running) refl

  one_more :
      (k crc before after : ℕ)
      → before < 2 ^ 32
      → after ≡ (if k == crc then (before + 1) % 2 ^ 32 else before)
      → after ≡ (before + ((if k == crc then 1 else 0) + 0)) % 2 ^ 32
  one_more k crc before after small e = ground arith

  module _ (laws : IsCollections lib) (keys : IsHashTable lib text_eq)
      (hashes : IsHashTable lib same_hash) where
    record_input-HasAdded :
        (turn : Turn) (l : Loop lib) (seen : Seen lib) (status : GblStatus) (w : Work)
        → HasMemory lib turn.now
        → turn.opens ≡ true
        → IsSteady lib l
        → IsSeen lib seen
        → ((k : ℕ)
            → seen_hits lib seen k ≡ (seen_hits lib l.seen k + inputs_of k (w ∷ [])) % 2 ^ 32)
        → (l' : Loop lib) × (record_input lib turn
              (record l { seen = seen; status = status })
              w.branches
            ≡ goes l')
          × HasAdded lib l (w ∷ []) l'
    unfolding record_input
    record_input-HasAdded turn l seen status w memory opens s is_seen inputs =
        let (result, e, hits, filtered, grown, linked, same, names) =
          process_branches-counts lib laws keys turn.now memory l.monitor s.linked w.branches in
        let (sut, sec_bounds, bbs, graph_path, input_n, path) = same in
        let e' = ap (λ o. process_branches lib turn.now o l.monitor w.branches) opens ∙ e in
        (
          record l {
            seen = seen;
            status = status;
            monitor = record (result.monitor) { input_n = (l.monitor.input_n + 1) % 2 ^ 64 };
            max_depth = if ltb l.max_depth result.depth then result.depth else l.max_depth;
          },
          rw (e', record_input) refl,
          record {
            steady = record { seen = is_seen; linked = linked; small = omega arith };
            inputs = inputs;
            hits = λ key. omega (arith, hits key);
            names =
                All-map
                  (λ (e : Text × ℕ)
                      (either : HasKey (e.0) (lib.hashtable_entries l.monitor.branch_hits)
                        ⊎ (0
                            < occurrences (e.0)
                                (recorded l.monitor.sec_bounds l.monitor.bbs w.branches))).
                    elim either [ inl old ↦ inl old | inr counted ↦ inr (omega arith) ])
                  (lib.hashtable_entries result.monitor.branch_hits) names;
            input_n = omega arith;
            max_depth = ground arith;
            sec_bounds_eq = sec_bounds;
            bbs_eq = bbs;
            path_eq = path;
          },
        )

    take_turn-HasAdded :
        (wd : ℕ) (turn : Turn) (l : Loop lib) (w : Work)
        → IsSteady lib l
        → Works lib wd l.monitor.fuzz_corpus_path turn w
        → (l' : Loop lib) × (take_turn lib wd turn l ≡ goes l') × HasAdded lib l (w ∷ []) l'
    unfolding take_turn
    take_turn-HasAdded wd turn l w s t =
        let hashed : util_crc64 w.text (length w.text) ≡ some (reference_crc w.text) =
          util_crc64-reference w.text (length w.text) t.are_bytes (omega arith)
          ∙ ap (λ text. some (reference_crc text)) (take-length w.text) in
        let (seen', value, noted, is_noted) =
          note_input-IsNoted lib hashes turn.now l.seen w.text (length w.text)
            (reference_crc w.text) t.memory s.seen hashed in
        let api = perf_monitor_api turn.calls l.status no_output in
        let inputs = λ (k : ℕ).
          one_more k (reference_crc w.text) (seen_hits lib l.seen k) (seen_hits lib seen' k)
            (hits_of-lt lib same_hash (2 ^ 32) l.seen.seen_inputs_table l.seen.counters k
              (omega arith) s.seen.linked)
            (is_noted.counts k) in
        let (l', e, added) =
          record_input-HasAdded turn l seen' api.status w t.memory t.opens s is_noted.is_seen
            inputs in
        (
          l',
          rw (t.fetched, take_turn, noted)
              (run_input-IsTraced lib turn (record l { seen = seen' }) w.branches t.traces ∙ e),
          added,
        )

    -- Through turns in which memory is found and no call fails, on inputs of bytes and with idle turns
    -- between them, the loop goes on to the turns that follow. Each CRC has then been counted once for
    -- each of the inputs that has it, modulo 2^32; each key once for each branch of those inputs that
    -- is not skipped and has it, and the inputs themselves, modulo 2^64; no other key has come into
    -- the table. `max_depth` is no lower, the section, the blocks and the path are the same, and what
    -- a turn may rely on still holds.
    pub take_turns-HasAdded :
        (wd : ℕ) (path : Text) (l : Loop lib) (turns rest : List Turn) (ws : List Work)
        → IsSteady lib l
        → l.monitor.fuzz_corpus_path ≡ path
        → Runs lib wd path turns ws
        → (l' : Loop lib) × (take_turns lib wd l (turns ++ rest) ≡ take_turns lib wd l' rest)
          × HasAdded lib l ws l'
    unfolding take_turns
    take_turns-HasAdded wd path l [] rest ws s at done = (l, refl, HasAdded-nil lib l s)
    take_turns-HasAdded wd path l (turn ∷ turns) rest ws s at (idle running nothing_there r) =
        let (l', e, added) = take_turns-HasAdded wd path l turns rest ws s at r in
        let idles =
          take_turn-idle wd turn l
            (subst (λ p. fetch wd p turn ≡ nothing) (sym at) nothing_there) in
        (l', take_turns-goes wd l l turn (turns ++ rest) running idles ∙ e, added)
    take_turns-HasAdded wd path l (turn ∷ turns) rest (w ∷ ws) s at (works running t r) =
        let (l', turned, one) =
          take_turn-HasAdded wd turn l w s (subst (λ p. Works lib wd p turn w) (sym at) t) in
        let (l'', e, added) =
          take_turns-HasAdded wd path l' turns rest ws one.steady (one.path_eq ∙ at) r in
        (
          l'',
          take_turns-goes wd l l' turn (turns ++ rest) running turned ∙ e,
          HasAdded-cons lib l l' l'' w ws one added,
        )

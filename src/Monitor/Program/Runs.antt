-- ===== src/Monitor/Program/Runs.antt =====
-- c_monitor/main.c: a whole run of the monitor in which no call fails.
use native.Mathlib.Nat.{zero-add}
use fuzz_monitor.Base.{
  ℕ, ◌+◌, ◌%◌, ◌<◌, ◌^◌, subst, ◌⊎◌, inl, inr, All, All-map, ◌≡◌, ◌≢◌, refl, ap, ap₂, ◌∙◌, true,
  false, ◌&&◌, List, [], ◌∷◌, ◌++◌, none, some, arith,
}
use fuzz_monitor.Text.{Text, codes, text_eq}
use fuzz_monitor.Collections.{Collections, IsCollections, IsHashTable, HasMemory}
use fuzz_monitor.Bb.{BasicBlock, found, basic_blocks_find}
use fuzz_monitor.Monitor.{Monitor}
use fuzz_monitor.Monitor.Counters.{hits_of, hits_of_new, Linked, Linked-new}
use fuzz_monitor.Monitor.Branches.Names.{HasKey, Adds}
use fuzz_monitor.Monitor.Seen.{same_hash}
use fuzz_monitor.Monitor.Tables.{Entries, no_entries, free_entries, nothing_written, free_hashtable}
use fuzz_monitor.Monitor.Loop.{Exit, exit_success, Turn}
use fuzz_monitor.Monitor.Loop.Works.{Work, Runs, branches_of}
use fuzz_monitor.Monitor.Session.{watched, watch_loop, loop_start, monitor_loop}
use fuzz_monitor.Monitor.Session.Returns.{monitor_loop-returned}
use fuzz_monitor.Monitor.Program.{
  Options, no_options, take_option, take_options, World, first_status, is_given, ends, end_program,
  run_loop, run_monitor, find_bounds, run_main,
}
use fuzz_monitor.Monitor.Program.Usage.{Lacks, lacking, run_main-starts}

sec_keeps :
    (o : Options) (opt : ℕ) (optarg : Text)
    → opt ≢ b's'
    → (take_option o (opt, optarg)).sec_name ≡ o.sec_name
unfolding take_option
sec_keeps o opt optarg other = ground arith

graph_keeps :
    (o : Options) (opt : ℕ) (optarg : Text)
    → opt ≢ b'g'
    → (take_option o (opt, optarg)).graph_filename ≡ o.graph_filename
unfolding take_option
graph_keeps o opt optarg other = ground arith

-- The system's part in a run without failures, with the blocks of the program and the inputs of the loop.
pub record RunsWell (lib : Collections) (w : World) (corpus : Text) (bbs : List BasicBlock)
    (ws : List Work) : Type 1 where
  pub blocks : basic_blocks_find w.keeps w.stream ≡ found bbs
  pub context : w.context_ok ≡ true
  pub socket : w.socket_ok ≡ true
  pub bind : w.bind_ok ≡ true
  pub table_memory : HasMemory lib w.table_now
  pub loop_memory : HasMemory lib w.loop_now
  pub init : w.init_ok ≡ true
  pub wd : ℕ
  pub watch : watch_loop corpus w.attempts ≡ watched wd
  pub turns : List Turn
  pub stop : Turn
  pub rest : List Turn
  pub turns_eq : w.turns ≡ turns ++ stop ∷ rest
  pub runs : Runs lib wd corpus turns ws
  pub stops : stop.running ≡ false

module _ (lib : Collections) where
  open lib use {HashTable, hashtable_entries}

  -- What the table of branches says at the end of the loop.
  pub record HasCounted (bbs : List BasicBlock) (ws : List Work) (m : Monitor lib) : Type 0 where
    pub linked : Linked lib text_eq (2 ^ 64) m.branch_hits m.counters
    pub hits :
        (key : Text)
        → hits_of lib text_eq m.branch_hits m.counters key ≡ branches_of key none bbs ws % 2 ^ 64
    pub names :
        All (λ entry. 0 < branches_of (entry.0) none bbs ws) (hashtable_entries m.branch_hits)

  -- All keys of what was a new table have been counted.
  names-new :
      (table' table : HashTable Text ℕ) (counted : Text → ℕ)
      → hashtable_entries table ≡ []
      → Adds lib table counted table'
      → All (λ entry. 0 < counted (entry.0)) (hashtable_entries table')
  names-new table' table counted e adds =
      All-map
        (λ (entry : Text × ℕ) (either : HasKey (entry.0) [] ⊎ (0 < counted (entry.0))).
          elim either [ inl old ↦ absurd old | inr counts ↦ counts ])
        (hashtable_entries table')
        (subst
          (λ es.
            All (λ entry. HasKey (entry.0) es ⊎ (0 < counted (entry.0))) (hashtable_entries table'))
          e adds)

module _ (lib : Collections) (laws : IsCollections lib) (keys : IsHashTable lib text_eq)
    (hashes : IsHashTable lib same_hash) where
  end_program-none :
      (w : World) (o : Options) (ret : Exit) (m : Monitor lib)
      → o.graph_filename ≡ none
      → end_program lib w o ret m
        ≡ ends ret (nothing_written (free_entries no_entries (lib.hashtable_entries m.branch_hits)))
  unfolding end_program is_given free_hashtable
  end_program-none w o ret m e = rw (e, end_program, is_given, free_hashtable) refl

  run_loop-ends :
      (w : World) (o : Options) (sut : List Text) (corpus : Text) (bbs : List BasicBlock)
      (ws : List Work)
      → RunsWell lib w corpus bbs ws
      → (m : Monitor lib) × (run_loop lib w o sut corpus none bbs
          ≡ end_program lib w o exit_success m)
        × HasCounted lib bbs ws m
  unfolding run_loop loop_start
  run_loop-ends w o sut corpus bbs ws r =
      let (table, new) = r.table_memory.hashtable_new_ok in
      let m : Monitor lib = record {
        sut = sut;
        branch_hits = table;
        counters = [];
        sec_bounds = none;
        bbs = bbs;
        graph_indiv_path = elim o.graph_indiv_path [ none ↦ codes "(null)" | some path ↦ path ];
        input_n = 0;
        fuzz_corpus_path = corpus;
      } in
      let linked = Linked-new lib text_eq keys (2 ^ 64) (omega arith) w.table_now table new in
      let (seen, l, e, _, added) =
        monitor_loop-returned lib hashes laws keys w.loop_now r.loop_memory r.wd w.attempts r.turns
          r.rest r.stop ws o.print_seen_inputs m first_status linked (omega arith) r.watch r.runs
          r.stops in
      let e' =
        ap₂
          (λ init turns.
            monitor_loop lib w.loop_now init w.attempts turns o.print_seen_inputs m first_status)
          r.init r.turns_eq
        ∙ e in
      (
        l.monitor,
        rw (new, run_loop, e') refl,
        record {
          linked = added.steady.linked;
          hits = λ key.
              added.hits key
              ∙ ap (λ n. (n + branches_of key none bbs ws) % 2 ^ 64)
                  (hits_of_new lib text_eq keys (2 ^ 64) (omega arith) w.table_now table [] key new)
              ∙ ap (λ n. n % 2 ^ 64) (zero-add (branches_of key none bbs ws));
          names =
              names-new lib l.monitor.branch_hits table (λ key. branches_of key none bbs ws)
                (keys.entries_new w.table_now table new) added.names;
        },
      )

  run_monitor-ends :
      (w : World) (o : Options) (sut : List Text) (corpus : Text) (bbs : List BasicBlock)
      (ws : List Work)
      → RunsWell lib w corpus bbs ws
      → (m : Monitor lib) × (run_monitor lib w o sut corpus none
          ≡ end_program lib w o exit_success m)
        × HasCounted lib bbs ws m
  unfolding run_monitor
  run_monitor-ends w o sut corpus bbs ws r =
      let connected : (w.context_ok && w.socket_ok && w.bind_ok) ≡ true =
        rw (r.context, r.socket, r.bind) refl in
      let (m, e, counted) = run_loop-ends w o sut corpus bbs ws r in
      (m, rw (r.blocks, run_monitor, connected) e, counted)

  -- The run up to free_hashtable.
  pub run_main-ends :
      (w : World) (opts pre post pre' post' : List (ℕ × Text)) (command script corpus : Text)
      (args : List Text) (bbs : List BasicBlock) (ws : List Work)
      → opts ≡ pre ++ (b'b', script) ∷ post
      → Lacks b'b' post
      → opts ≡ pre' ++ (b'c', corpus) ∷ post'
      → Lacks b'c' post'
      → Lacks b's' opts
      → RunsWell lib w corpus bbs ws
      → (m : Monitor lib) × (run_main lib w opts (command ∷ args)
          ≡ end_program lib w (take_options opts) exit_success m)
        × HasCounted lib bbs ws m
  unfolding find_bounds take_options no_options take_option
  run_main-ends w opts pre post pre' post' command script corpus args bbs ws at last at' last'
        no_sec r =
      let o = take_options opts in
      let sec : o.sec_name ≡ none =
        lacking b's' (λ o. o.sec_name) sec_keeps (λ o optarg. refl) no_options opts no_sec in
      let (m, e, counted) = run_monitor-ends w o (command ∷ args) corpus bbs ws r in
      (
        m,
        run_main-starts lib w opts pre post pre' post' command script corpus args at last at' last'
            ∙ ap (find_bounds lib w o (command ∷ args) corpus) sec
            ∙ e,
        counted,
      )

  -- A whole run of the monitor, without -s and -g, in which every call succeeds: the script prints the blocks
  -- of the program, the watch is added, the loop works on inputs until `keep_running` is cleared, and main
  -- returns EXIT_SUCCESS.
  pub run_main-success :
      (w : World) (opts pre post pre' post' : List (ℕ × Text)) (command script corpus : Text)
      (args : List Text) (bbs : List BasicBlock) (ws : List Work)
      → opts ≡ pre ++ (b'b', script) ∷ post
      → Lacks b'b' post
      → opts ≡ pre' ++ (b'c', corpus) ∷ post'
      → Lacks b'c' post'
      → Lacks b's' opts
      → Lacks b'g' opts
      → RunsWell lib w corpus bbs ws
      → (freed : Entries) × (run_main lib w opts (command ∷ args)
          ≡ ends exit_success (nothing_written freed))
  unfolding take_options no_options take_option
  run_main-success w opts pre post pre' post' command script corpus args bbs ws at last at' last'
        no_sec no_g r =
      let o = take_options opts in
      let graph : o.graph_filename ≡ none =
        lacking b'g' (λ o. o.graph_filename) graph_keeps (λ o optarg. refl) no_options opts no_g in
      let (m, e, _) =
        run_main-ends w opts pre post pre' post' command script corpus args bbs ws at last at' last'
          no_sec r in
      (
        free_entries no_entries (lib.hashtable_entries m.branch_hits),
        e ∙ end_program-none w o exit_success m graph,
      )

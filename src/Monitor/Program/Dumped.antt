-- ===== src/Monitor/Program/Dumped.antt =====
-- c_monitor/main.c: what the file of -g says after a whole run of the monitor.
use fuzz_monitor.Base.{
  ℕ, ◌%◌, ◌^◌, ◌<◌, ◌≢◌, ◌≡◌, refl, sym, ap, ◌∙◌, ◌⊎◌, inl, inr, true, List, [], ◌∷◌, ◌++◌, All,
  All-map, none, some, get_elem?-lt, arith,
}
use fuzz_monitor.Text.{Text, codes, text_eq}
use fuzz_monitor.Collections.{Collections, IsCollections, IsHashTable, HasMemory, ok, Result-cases}
use fuzz_monitor.Bb.{BasicBlock}
use fuzz_monitor.Monitor.{Monitor}
use fuzz_monitor.Monitor.Counters.{hits_of}
use fuzz_monitor.Monitor.Seen.{same_hash}
use fuzz_monitor.Monitor.Branches.Address.{branch_key}
use fuzz_monitor.Monitor.Branches.Names.{HasKey, All-HasKey}
use fuzz_monitor.Monitor.Branches.Print.{Sink}
use fuzz_monitor.Monitor.Tables.{Entries, file_written, free_hashtable}
use fuzz_monitor.Monitor.Tables.Written.{free_hashtable-IsWritten}
use fuzz_monitor.Monitor.Loop.{exit_success}
use fuzz_monitor.Monitor.Loop.Works.{Work, branches_of}
use fuzz_monitor.Monitor.Program.{
  take_option, World, Options, take_options, is_given, ends, end_program, run_main,
}
use fuzz_monitor.Monitor.Program.Usage.{Lacks, last_given}
use fuzz_monitor.Monitor.Program.Runs.{RunsWell, HasCounted, run_main-ends}
use fuzz_monitor.Monitor.Program.Lines.{
  AreLow, branches_of-IsLow, count_lines, HasLine, Reads, list_entries,
}

graph_other :
    (o : Options) (opt : ℕ) (optarg : Text)
    → opt ≢ b'g'
    → (take_option o (opt, optarg)).graph_filename ≡ o.graph_filename
unfolding take_option
graph_other o opt optarg other = ground arith

graph_sets :
    (o : Options) (optarg : Text) → (take_option o (b'g', optarg)).graph_filename ≡ some optarg
unfolding take_option
graph_sets o optarg = refl

module _ (lib : Collections) (bbs : List BasicBlock) (ws : List Work) where
  open lib use {hashtable_get, hashtable_entries}

  -- How often a branch has been counted, for its key.
  abbrev pub count_of : Text → ℕ
  count_of k = branches_of k none bbs ws % 2 ^ 64

  entry-Reads :
      (m : Monitor lib) (key : Text) (value : ℕ)
      → HasCounted lib bbs ws m
      → AreLow bbs ws
      → hashtable_get text_eq m.branch_hits key ≡ ok value
      → 0 < branches_of key none bbs ws
      → Reads count_of m.counters (key, value)
  entry-Reads m key value counted low get taken =
      let (hits, at) = get_elem?-lt m.counters value (counted.linked.in_range key value get) in
      let number : hits_of lib text_eq m.branch_hits m.counters key ≡ hits =
        rw (get, hits_of, at) refl in
      (branches_of-IsLow key bbs ws low taken, hits, at, sym number ∙ counted.hits key)

  entries-Reads :
      (m : Monitor lib) (entries : List (Text × ℕ))
      → HasCounted lib bbs ws m
      → AreLow bbs ws
      → All (λ entry. hashtable_get text_eq m.branch_hits (entry.0) ≡ ok (entry.1)) entries
      → All (λ entry. 0 < branches_of (entry.0) none bbs ws) entries
      → All (Reads count_of m.counters) entries
  entries-Reads m [] counted low gets names = tt
  entries-Reads m ((key, value) ∷ entries) counted low gets names = (
    entry-Reads m key value counted low gets.0 names.0,
    entries-Reads m entries counted low gets.1 names.1,
  )

  -- A key that has been counted has its line.
  count_of-HasLine :
      (keys : IsHashTable lib text_eq) (m : Monitor lib) (edges : List (ℕ × ℕ)) (k : Text)
      → HasCounted lib bbs ws m
      → All (λ entry. HasLine (entry.0) edges) (hashtable_entries m.branch_hits)
      → (count_of k ≡ 0) ⊎ HasLine k edges
  count_of-HasLine keys m edges k counted lines =
      elim (Result-cases (hashtable_get text_eq m.branch_hits k)) [
        | inl (value, get) ↦
            inr
              (keys.entries_get (λ entry. HasLine (entry.0) edges) m.branch_hits k value get lines)
        | inr (s, missing) ↦
            let nothing : hits_of lib text_eq m.branch_hits m.counters k ≡ 0 =
              rw (missing, hits_of) refl in
            inl (sym (counted.hits k) ∙ nothing)
      ]

  end_program-file :
      (w : World) (o : Options) (m : Monitor lib) (file : Text) (sink : Sink) (next : ℕ)
      (numbers : ℕ × ℕ) (freed : Entries)
      → o.graph_filename ≡ some file
      → w.opens ≡ true
      → free_hashtable lib w.end_now true true m.branch_hits m.counters
        ≡ file_written sink next numbers freed
      → end_program lib w o exit_success m
        ≡ ends exit_success (file_written sink next numbers freed)
  unfolding end_program is_given
  end_program-file w o m file sink next numbers freed given opens e =
      rw (given, opens, end_program, is_given, e) refl

  -- A whole run of the monitor with -g and without -s, in which every call succeeds and the ends of the
  -- branches that are not skipped are below 2^63: main returns EXIT_SUCCESS, and the file of -g has one
  -- line after the other for branches whose key has been counted, with the count of the key over all
  -- inputs, modulo 2^64. Every key has such a line, unless its count modulo 2^64 is 0.
  pub run_main-graph :
      (laws : IsCollections lib) (keys : IsHashTable lib text_eq)
      (hashes : IsHashTable lib same_hash) (w : World)
      (opts pre post pre' post' pre'' post'' : List (ℕ × Text)) (command script corpus file : Text)
      (args : List Text)
      → opts ≡ pre ++ (b'b', script) ∷ post
      → Lacks b'b' post
      → opts ≡ pre' ++ (b'c', corpus) ∷ post'
      → Lacks b'c' post'
      → opts ≡ pre'' ++ (b'g', file) ∷ post''
      → Lacks b'g' post''
      → Lacks b's' opts
      → RunsWell lib w corpus bbs ws
      → AreLow bbs ws
      → w.opens ≡ true
      → HasMemory lib w.end_now
      → (edges : List (ℕ × ℕ)) × (sink : Sink) × (next : ℕ) × (numbers : ℕ × ℕ) × (freed : Entries)
        × (run_main lib w opts (command ∷ args)
            ≡ ends exit_success (file_written sink next numbers freed))
        × (sink.written
            ≡ (codes "digraph {" ++ 10 ∷ [])
              ++ count_lines count_of edges
              ++ (codes "}" ++ 10 ∷ []))
        × All (λ e. 0 < branches_of (branch_key e.0 e.1) none bbs ws) edges
        × ((k : Text) → (count_of k ≡ 0) ⊎ HasLine k edges)
  run_main-graph laws keys hashes w opts pre post pre' post' pre'' post'' command script corpus file
        args at last at' last' at'' last'' no_sec r low opens memory =
      let (m, e, counted) =
        run_main-ends lib laws keys hashes w opts pre post pre' post' command script corpus args bbs
          ws at last at' last' no_sec r in
      let entries = hashtable_entries m.branch_hits in
      let (branches, edges, same, readable, lines, have, are) =
        list_entries count_of m.counters entries
          (entries-Reads m entries counted low counted.linked.listed counted.names) in
      let (sink, next, numbers, freed, dumped, written, _, _, _, _) =
        free_hashtable-IsWritten lib laws w.end_now memory keys m.branch_hits m.counters branches
          same readable in
      let given : (take_options opts).graph_filename ≡ some file =
        last_given b'g' (λ o. o.graph_filename) graph_other graph_sets opts pre'' post'' file at''
          last'' in
      (
        edges,
        sink,
        next,
        numbers,
        freed,
        e
            ∙ end_program-file w (take_options opts) m file sink next numbers freed given opens
                dumped,
        written ∙ ap (λ t. (codes "digraph {" ++ 10 ∷ []) ++ t ++ (codes "}" ++ 10 ∷ [])) lines,
        All-map
            (λ (b : ℕ × ℕ) (has : HasKey (branch_key b.0 b.1) entries).
              All-HasKey (λ k. 0 < branches_of k none bbs ws) entries (branch_key b.0 b.1)
                counted.names has)
            edges are,
        λ k. count_of-HasLine keys m edges k counted have,
      )

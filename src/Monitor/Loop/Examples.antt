-- ===== src/Monitor/Loop/Examples.antt =====
-- Turns of monitor_loop of c_monitor/main.c: one without an input, and two with the same three bytes.
use fuzz_monitor.Base.{
  ℕ, ◌^◌, ◌<◌, ◌≡◌, refl, true, false, List, [], ◌∷◌, ◌++◌, none, length, replicate,
  length-replicate, suc, ap, arith,
}
use fuzz_monitor.Text.{Text, codes, text_eq}
use fuzz_monitor.Text.Decimal.{text_eq_iff}
use fuzz_monitor.Collections.{Collections, IsHashTable}
use fuzz_monitor.Collections.Lists.{list_collections, list_IsHashTable}
use fuzz_monitor.Util.Bitwise.{reference_crc}
use fuzz_monitor.Util.Crc.{util_crc64-reference}
use fuzz_monitor.Perf.{GblStatus, null}
use fuzz_monitor.Graph.Examples.{laws, memory}
use fuzz_monitor.Monitor.{Monitor}
use fuzz_monitor.Monitor.Counters.{Linked-new}
use fuzz_monitor.Monitor.Seen.{same_hash, Seen, noted, note_input, seen_start}
use fuzz_monitor.Monitor.Seen.Invariant.{
  same_hash_iff, IsSeen, IsNoted, note_input-IsNoted, seen_start-IsSeen,
}
use fuzz_monitor.Monitor.Inotify.{again, inotify_maybe_read}
use fuzz_monitor.Monitor.Loop.{
  buf_sz, message, eagain, Turn, fetch, Loop, crashes, take_turn, take_turns,
}
use fuzz_monitor.Perf.Reader.Examples.{branches, calls, calls-IsTraced}
use fuzz_monitor.Monitor.Loop.Invariant.{IsSteady, StaysSteady, take_turns-StaysSteady}
use fuzz_monitor.Monitor.Loop.Works.{Work, Works, Runs, done, idle, works, HasAdded}
use fuzz_monitor.Monitor.Loop.Bounds.{fetch-message, take_turn-oversized}
use fuzz_monitor.Monitor.Loop.Accumulates.{take_turns-HasAdded}

abbrev pub lists : Collections
lists = list_collections 9

pub keys : IsHashTable lists text_eq
keys = list_IsHashTable 9 text_eq text_eq_iff

pub hashes : IsHashTable lists same_hash
hashes = list_IsHashTable 9 same_hash same_hash_iff

abbrev pub text : Text
text = codes "abc"

abbrev pub turn_of : Text → Turn
turn_of text = record {
  running = true;
  received = message text;
  running_after = true;
  read = again;
  files = λ path. none;
  now = 3;
  calls = calls;
  opens = true;
}

abbrev pub idle_turn : Turn
idle_turn = record (turn_of []) { received = eagain }

abbrev pub turns : List Turn
turns = idle_turn ∷ turn_of text ∷ turn_of text ∷ []

abbrev pub inputs : List Work
inputs =
    record { text = text; branches = branches } ∷ record { text = text; branches = branches } ∷ []

abbrev pub corpus : Text
corpus = codes "out/corpus"

text-Works : Works lists 1 corpus (turn_of text) (record { text = text; branches = branches })
text-Works = record {
  from_corpus = false;
  fetched = fetch-message 1 corpus (turn_of text) text refl (omega arith);
  are_bytes = omega arith;
  memory = memory;
  opens = refl;
  traces = calls-IsTraced;
}

pub turns-Runs : Runs lists 1 corpus turns inputs
unfolding fetch inotify_maybe_read
turns-Runs = idle refl refl (works refl text-Works (works refl text-Works done))

abbrev status : GblStatus
status = record {
  child_pid = none;
  perf_fd = none;
  data_ready = 0;
  mmap_buf = null;
  mmap_aux = null;
}

abbrev pub monitor : Monitor lists
monitor = record {
  sut = codes "/bin/sut" ∷ [];
  branch_hits = [];
  counters = [];
  sec_bounds = none;
  bbs = [];
  graph_indiv_path = codes "/tmp";
  input_n = 0;
  fuzz_corpus_path = corpus;
}

abbrev start : Loop lists
start = record { monitor = monitor; seen = seen_start lists []; status = status; max_depth = 0 }

start-IsSeen : IsSeen lists start.seen
start-IsSeen = seen_start-IsSeen lists hashes 3 [] refl

start-IsSteady : IsSteady lists start
start-IsSteady = record {
  seen = start-IsSeen;
  linked = Linked-new lists text_eq keys (2 ^ 64) (omega arith) 3 [] refl;
  small = omega arith;
}

note_input-IsNoted_example :
    (s' : Seen lists) × (value : ℕ) × (note_input lists 3 start.seen text 3 ≡ noted s' value)
    × IsNoted lists start.seen (reference_crc text) s' value
note_input-IsNoted_example =
    note_input-IsNoted lists hashes 3 start.seen text 3 (reference_crc text) memory start-IsSeen
      (util_crc64-reference text 3 (omega arith) (omega arith))

take_turns-HasAdded_example :
    (l : Loop lists) × (take_turns lists 1 start (turns ++ []) ≡ take_turns lists 1 l [])
    × HasAdded lists start inputs l
take_turns-HasAdded_example =
    take_turns-HasAdded lists laws keys hashes 1 corpus start turns [] inputs start-IsSteady refl
      turns-Runs

take_turns-StaysSteady_example :
    StaysSteady lists keys hashes (take_turns lists 1 start (turn_of (codes "a") ∷ idle_turn ∷ []))
take_turns-StaysSteady_example =
    take_turns-StaysSteady lists keys hashes 1 start (turn_of (codes "a") ∷ idle_turn ∷ [])
      start-IsSteady

long_text : Text
long_text = replicate (suc buf_sz) 0

longer : (n : ℕ) (t : Text) → t ≡ replicate (suc n) 0 → n < length t
longer n t e = omega (arith, ap length e, length-replicate {A = ℕ} n 0)

take_turn-oversized_example : take_turn lists 1 (turn_of long_text) start ≡ crashes
unfolding long_text
take_turn-oversized_example =
    take_turn-oversized lists 1 (turn_of long_text) start long_text refl
      (longer buf_sz long_text refl)

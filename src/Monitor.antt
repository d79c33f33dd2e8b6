-- ===== src/Monitor.antt =====
-- c_monitor/main.c: the monitor. This file has its state; the children model its functions.
pub mod Counters
pub mod Seen
pub mod Inotify
pub mod Loop
pub mod Session
pub mod Program
pub mod Branches
pub mod Tables
use fuzz_monitor.Base.{◌≡◌, ℕ, List, Option}
use fuzz_monitor.Collections.{Collections}
use fuzz_monitor.Text.{Text}
use fuzz_monitor.Sections.{SectionBounds}
use fuzz_monitor.Bb.{BasicBlock}

-- `branch_hits` maps a key to the number of its counter, and `counters` is the heap of the counters.
pub record Monitor (lib : Collections) : Type 0 where
  pub sut : List Text
  pub branch_hits : lib.HashTable Text ℕ
  pub counters : List ℕ
  pub sec_bounds : Option SectionBounds
  pub bbs : List BasicBlock
  pub graph_indiv_path : Text
  pub input_n : ℕ
  pub fuzz_corpus_path : Text

-- All but the table and its counters.
abbrev pub SameSettings : (lib : Collections) → Monitor lib → Monitor lib → Type 0
SameSettings lib m m' =
    (m'.sut ≡ m.sut)
    × (m'.sec_bounds ≡ m.sec_bounds)
    × (m'.bbs ≡ m.bbs)
    × (m'.graph_indiv_path ≡ m.graph_indiv_path)
    × (m'.input_n ≡ m.input_n)
    × (m'.fuzz_corpus_path ≡ m.fuzz_corpus_path)

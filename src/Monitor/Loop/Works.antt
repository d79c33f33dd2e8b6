-- ===== src/Monitor/Loop/Works.antt =====
-- c_monitor/main.c, monitor_loop: the inputs of its turns where no call fails, and what they add up to.
use fuzz_monitor.Base.{
  IsBytes, ℕ, ◌+◌, ◌%◌, ◌^◌, ◌≤◌, ◌≡◌, refl, ap₂, ◌∙◌, Bool, true, List, [], ◌∷◌, Option, length,
  All-map, ◌<◌, ◌⊎◌, inl, inr, ◌==◌, if◌then◌else◌, arith,
}
use fuzz_monitor.Text.{Text, text_eq}
use fuzz_monitor.Collections.{Collections, HasMemory}
use fuzz_monitor.Sections.{SectionBounds}
use fuzz_monitor.Bb.{BasicBlock}
use fuzz_monitor.Util.Bitwise.{reference_crc}
use fuzz_monitor.Perf.{BtsBranch}
use fuzz_monitor.Monitor.Branches.Runs.{recorded, occurrences}
use fuzz_monitor.Monitor.Branches.Names.{HasKey, Adds, Adds-nothing, Adds-trans}
use fuzz_monitor.Monitor.Counters.{hits_of, hits_of-lt}
use fuzz_monitor.Monitor.Seen.{same_hash}
use fuzz_monitor.Monitor.Seen.Invariant.{seen_hits}
use fuzz_monitor.Monitor.Loop.{Turn, input, nothing, fetch, Loop}
use fuzz_monitor.Monitor.Loop.Invariant.{IsSteady}
use fuzz_monitor.Perf.Traced.{IsTraced}

-- An input, and the branches that the program takes on it.
pub record Work : Type 0 where
  pub text : Text
  pub branches : List BtsBranch

-- How many of the inputs have a CRC.
abbrev pub inputs_of : ℕ → List Work → ℕ
inputs_of k [] = 0
inputs_of k (w ∷ works) = (if k == reference_crc w.text then 1 else 0) + inputs_of k works

-- How many of the branches that are not skipped have a key.
abbrev pub branches_of : Text → Option SectionBounds → List BasicBlock → List Work → ℕ
branches_of key sec bbs [] = 0
branches_of key sec bbs (w ∷ works) =
    occurrences key (recorded sec bbs w.branches) + branches_of key sec bbs works

module _ (lib : Collections) where
  -- A turn fetches a whole input, and no call fails on it.
  pub record Works (wd : ℕ) (path : Text) (turn : Turn) (w : Work) : Type 1 where
    pub from_corpus : Bool
    pub fetched : fetch wd path turn ≡ input w.text (length w.text) from_corpus
    pub are_bytes : IsBytes w.text
    pub memory : HasMemory lib turn.now
    pub opens : turn.opens ≡ true
    pub traces : IsTraced turn.calls w.branches

  -- Turns without an input, and turns with the inputs of a list.
  pub data Runs (wd : ℕ) (path : Text) : List Turn → List Work → Type 1 where
    done : Runs wd path [] []
    idle :
        {turn : Turn} {turns : List Turn} {works : List Work}
        → turn.running ≡ true
        → fetch wd path turn ≡ nothing
        → Runs wd path turns works
        → Runs wd path (turn ∷ turns) works
    works :
        {turn : Turn} {turns : List Turn} {w : Work} {ws : List Work}
        → turn.running ≡ true
        → Works wd path turn w
        → Runs wd path turns ws
        → Runs wd path (turn ∷ turns) (w ∷ ws)

  pub record HasAdded (l : Loop lib) (ws : List Work) (l' : Loop lib) : Type 0 where
    pub steady : IsSteady lib l'
    pub inputs :
        (k : ℕ) → seen_hits lib l'.seen k ≡ (seen_hits lib l.seen k + inputs_of k ws) % 2 ^ 32
    pub hits :
        (key : Text)
        → hits_of lib text_eq l'.monitor.branch_hits l'.monitor.counters key
          ≡ (hits_of lib text_eq l.monitor.branch_hits l.monitor.counters key
              + branches_of key l.monitor.sec_bounds l.monitor.bbs ws)
            % 2 ^ 64
    pub names :
        Adds lib l.monitor.branch_hits
          (λ key. branches_of key l.monitor.sec_bounds l.monitor.bbs ws)
          l'.monitor.branch_hits
    pub input_n : l'.monitor.input_n ≡ (l.monitor.input_n + length ws) % 2 ^ 64
    pub max_depth : l.max_depth ≤ l'.max_depth
    pub sec_bounds_eq : l'.monitor.sec_bounds ≡ l.monitor.sec_bounds
    pub bbs_eq : l'.monitor.bbs ≡ l.monitor.bbs
    pub path_eq : l'.monitor.fuzz_corpus_path ≡ l.monitor.fuzz_corpus_path

  pub HasAdded-nil : (l : Loop lib) → IsSteady lib l → HasAdded l [] l
  HasAdded-nil l s = record {
    steady = s;
    inputs = λ k. omega (
      arith,
      hits_of-lt lib same_hash (2 ^ 32) l.seen.seen_inputs_table l.seen.counters k (omega arith)
          s.seen.linked,
    );
    hits = λ key. omega (
      arith,
      hits_of-lt lib text_eq (2 ^ 64) l.monitor.branch_hits l.monitor.counters key (omega arith)
          s.linked,
    );
    names = Adds-nothing lib l.monitor.branch_hits (λ key. 0);
    input_n = omega (arith, s.small);
    max_depth = omega arith;
    sec_bounds_eq = refl;
    bbs_eq = refl;
    path_eq = refl;
  }

  pub HasAdded-cons :
      (l l' l'' : Loop lib) (w : Work) (ws : List Work)
      → HasAdded l (w ∷ []) l'
      → HasAdded l' ws l''
      → HasAdded l (w ∷ ws) l''
  HasAdded-cons l l' l'' w ws one rest = record {
    steady = rest.steady;
    inputs = λ k. omega (arith, one.inputs k, rest.inputs k);
    hits = λ key. omega (
      arith,
      one.hits key,
      rest.hits key,
      ap₂ (λ sec bbs. branches_of key sec bbs ws) one.sec_bounds_eq one.bbs_eq,
    );
    names =
        All-map
          (λ (e : Text × ℕ)
              (either : HasKey (e.0) (lib.hashtable_entries l.monitor.branch_hits)
                ⊎ (0
                    < branches_of (e.0) l.monitor.sec_bounds l.monitor.bbs (w ∷ [])
                      + branches_of (e.0) l'.monitor.sec_bounds l'.monitor.bbs ws)).
            elim either [
              | inl old ↦ inl old
              | inr counted ↦ inr (
                  omega (
                    arith,
                    ap₂ (λ sec bbs. branches_of (e.0) sec bbs ws) one.sec_bounds_eq one.bbs_eq,
                  ))
            ])
          (lib.hashtable_entries l''.monitor.branch_hits)
          (Adds-trans lib l.monitor.branch_hits l'.monitor.branch_hits l''.monitor.branch_hits
            (λ key. branches_of key l.monitor.sec_bounds l.monitor.bbs (w ∷ []))
            (λ key. branches_of key l'.monitor.sec_bounds l'.monitor.bbs ws) one.names rest.names);
    input_n = omega (arith, one.input_n, rest.input_n);
    max_depth = omega (arith, one.max_depth, rest.max_depth);
    sec_bounds_eq = rest.sec_bounds_eq ∙ one.sec_bounds_eq;
    bbs_eq = rest.bbs_eq ∙ one.bbs_eq;
    path_eq = rest.path_eq ∙ one.path_eq;
  }

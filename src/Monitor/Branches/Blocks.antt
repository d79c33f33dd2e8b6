-- ===== src/Monitor/Branches/Blocks.antt =====
-- The basic blocks that c_monitor/main.c records a branch by.
use fuzz_monitor.Base.{
  ℕ, ◌<◌, ◌≡◌, refl, ap, ap₂, ◌∙◌, ◌⊎◌, inl, true, leb, ltb, ◌&&◌, ◌≤◌, List, [], ◌∷◌, ◌==◌,
  if◌then◌else◌, arith,
}
use fuzz_monitor.Perf.{BtsBranch}
use fuzz_monitor.Bb.{BasicBlock}
use fuzz_monitor.Monitor.Branches.Address.{in_block, find_blocks, resolve}

-- The first block that the address lies in, by its start; 0 if there is none.
abbrev pub block_start : List BasicBlock → ℕ → ℕ
block_start [] address = 0
block_start (bb ∷ bbs) address =
    if leb bb.from address && ltb address bb.to then bb.from else block_start bbs address

-- No address lies in two blocks of the list, and no block starts at 0.
abbrev pub AreDisjoint : List BasicBlock → Type 0
AreDisjoint [] = Unit {0}
AreDisjoint (bb ∷ bbs) =
    (0 < bb.from)
    × ((address : ℕ) → bb.from ≤ address → address < bb.to → block_start bbs address ≡ 0)
    × AreDisjoint bbs

-- The block of an address, or the address itself where no block has it.
abbrev pub block_of : List BasicBlock → ℕ → ℕ
block_of bbs address = if block_start bbs address == 0 then address else block_start bbs address

-- The same by the test of the code, which the proof does not open.
found_start : List BasicBlock → ℕ → ℕ
found_start [] address = 0
found_start (bb ∷ bbs) address =
    let rest = found_start bbs address in if in_block address bb then bb.from else rest

found_start-block_start :
    (bbs : List BasicBlock) (address : ℕ) → found_start bbs address ≡ block_start bbs address
unfolding found_start in_block
found_start-block_start [] address = refl
found_start-block_start (bb ∷ bbs) address =
    ap (λ t. if leb bb.from address && ltb address bb.to then bb.from else t)
      (found_start-block_start bbs address)

in_block-bounds :
    (address : ℕ) (bb : BasicBlock)
    → in_block address bb ≡ true
    → (bb.from ≤ address) × (address < bb.to)
unfolding in_block
in_block-bounds address bb h = ground arith

abbrev IsApart : List BasicBlock → Type 0
IsApart [] = Unit {0}
IsApart (bb ∷ bbs) =
    (0 < bb.from)
    × ((address : ℕ) → in_block address bb ≡ true → found_start bbs address ≡ 0)
    × IsApart bbs

AreDisjoint-IsApart : (bbs : List BasicBlock) → AreDisjoint bbs → IsApart bbs
AreDisjoint-IsApart [] d = tt
AreDisjoint-IsApart (bb ∷ bbs) (pos, apart, d) = (
  pos,
  λ address h.
      let (low, high) = in_block-bounds address bb h in
      found_start-block_start bbs address ∙ apart address low high,
  AreDisjoint-IsApart bbs d,
)

merged : ℕ → ℕ → ℕ
merged found later = if found == 0 then later else found

find_blocks_lem :
    (bbs : List BasicBlock) (branch : BtsBranch) (from_bb to_bb : ℕ)
    → IsApart bbs
    → (from_bb ≡ 0) ⊎ (found_start bbs branch.from ≡ 0)
    → (to_bb ≡ 0) ⊎ (found_start bbs branch.to ≡ 0)
    → find_blocks bbs branch from_bb to_bb
      ≡ (merged from_bb (found_start bbs branch.from), merged to_bb (found_start bbs branch.to))
unfolding find_blocks merged found_start
find_blocks_lem [] branch f t d hf ht = ground arith
find_blocks_lem (bb ∷ bbs) branch f t (pos, apart, d) hf ht = ground (
  arith,
  apart branch.from,
  apart branch.to,
  find_blocks_lem bbs branch (if in_block branch.from bb then bb.from else f)
      (if in_block branch.to bb then bb.from else t) d,
)

resolve_lem :
    (bbs : List BasicBlock) (branch : BtsBranch)
    → IsApart bbs
    → resolve bbs branch ≡ (
      if found_start bbs branch.from == 0 then branch.from else found_start bbs branch.from,
      if found_start bbs branch.to == 0 then branch.to else found_start bbs branch.to,
    )
unfolding resolve merged
resolve_lem bbs branch d = ground (arith, find_blocks_lem bbs branch 0 0 d (inl refl) (inl refl))

-- For basic blocks of which no two share an address and none starts at 0, each end of a branch is
-- recorded by the start of the block that it lies in, or by itself where no block has it, whatever the
-- other end is and although the loop stops early.
pub resolve-block_of :
    (bbs : List BasicBlock) (branch : BtsBranch)
    → AreDisjoint bbs
    → resolve bbs branch ≡ (block_of bbs branch.from, block_of bbs branch.to)
resolve-block_of bbs branch d =
    resolve_lem bbs branch (AreDisjoint-IsApart bbs d)
    ∙ ap₂ (λ f t. (if f == 0 then branch.from else f, if t == 0 then branch.to else t))
        (found_start-block_start bbs branch.from) (found_start-block_start bbs branch.to)

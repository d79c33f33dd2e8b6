-- ===== src/Monitor/Branches/Address.antt =====
-- c_monitor/main.c, process_branches: which branches are skipped, the basic blocks that the others are
-- recorded by, and the key that is counted.
use fuzz_monitor.Base.{
  ℕ, Bool, false, not, ◌&&◌, ◌||◌, List, [], ◌∷◌, ◌++◌, Option, none, some, ltb, leb, ◌==◌,
  if◌then◌else◌,
}
use fuzz_monitor.Text.{Text, codes, decimal, snprintf}
use fuzz_monitor.Perf.{BtsBranch}
use fuzz_monitor.Sections.{SectionBounds}
use fuzz_monitor.Bb.{BasicBlock}

abbrev pub hash_key_sep : Text
hash_key_sep = codes "/"

abbrev pub hash_key_sz : ℕ
hash_key_sz = 64

-- Addresses above this one are the kernel's.
abbrev pub user_limit : ℕ
user_limit = 0xffffffff00000000

-- The two tests that `continue`.
unfoldable pub in_kernel : BtsBranch → Bool
in_kernel branch = ltb user_limit branch.from || ltb user_limit branch.to

unfoldable pub out_of_section : Option SectionBounds → BtsBranch → Bool
out_of_section none branch = false
out_of_section (some sec) branch =
    ltb branch.from sec.sec_start
    || ltb sec.sec_end branch.from
    || (ltb branch.to sec.sec_start || ltb sec.sec_end branch.to)

unfoldable pub in_block : ℕ → BasicBlock → Bool
in_block address bb = leb bb.from address && ltb address bb.to

-- The loop over the basic blocks, with `*from_bb` and `*to_bb`.
unfoldable pub find_blocks : List BasicBlock → BtsBranch → ℕ → ℕ → ℕ × ℕ
find_blocks [] branch from_bb to_bb = (from_bb, to_bb)
find_blocks (bb ∷ bbs) branch from_bb to_bb =
    let from_bb' = if in_block branch.from bb then bb.from else from_bb in
    let to_bb' = if in_block branch.to bb then bb.from else to_bb in
    let rest = find_blocks bbs branch from_bb' to_bb' in
    if not (from_bb' == 0) && not (to_bb' == 0) then (from_bb', to_bb') else rest

-- The ends of the branch as they are recorded.
unfoldable pub resolve : List BasicBlock → BtsBranch → ℕ × ℕ
resolve bbs branch =
    let (from_bb, to_bb) = find_blocks bbs branch 0 0 in
    (if from_bb == 0 then branch.from else from_bb, if to_bb == 0 then branch.to else to_bb)

unfoldable pub branch_key : ℕ → ℕ → Text
branch_key from to = snprintf hash_key_sz (decimal from ++ hash_key_sep ++ decimal to)

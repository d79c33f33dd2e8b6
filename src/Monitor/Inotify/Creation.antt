-- ===== src/Monitor/Inotify/Creation.antt =====
-- c_monitor/main.c, inotify_wait4_creation: how long it waits, and for which names.
use fuzz_monitor.Base.{
  ◌≡◌, ◌≢◌, refl, ap, ◌∙◌, ◌⊎◌, inl, inr, Bool, true, false, ◌&&◌, List, [], ◌∷◌, ◌++◌, All, none,
  some, ◌==◌, if◌then◌else◌, Bool-cases, arith,
}
use fuzz_monitor.Text.{Text, contains}
use fuzz_monitor.Text.Search.{contains-append, contains-split}
use fuzz_monitor.Monitor.Inotify.{
  InotifyEvent, again, read_fails, event, split_last_slash, WaitRound, stopped, answers, leaves,
  waits, wait_rounds, ret_zero, ret_minus_one, still_waiting, inotify_wait4_creation,
}

-- No slash stands in a text.
abbrev pub HasNoSlash : Text → Type 0
HasNoSlash = All (λ c. c ≢ b'/')

split_none : (name : Text) → HasNoSlash name → split_last_slash name ≡ none
unfolding split_last_slash
split_none [] h = refl
split_none (c ∷ name) h = elim (Bool-cases (c == b'/')) [
  | inl slash ↦ let equal : c ≡ b'/' = ground arith in absurd (h.0 equal)
  | inr other ↦ rw (split_none name h.1, split_last_slash, other) refl
]

split_lem :
    (parent name : Text)
    → HasNoSlash name
    → split_last_slash (parent ++ b'/' ∷ name) ≡ some (parent, name)
unfolding split_last_slash
split_lem [] name h = rw (split_none name h, split_last_slash) refl
split_lem (c ∷ parent) name h = rw (split_lem parent name h, split_last_slash) refl

-- The event is about the creation of something with another name.
abbrev pub IsOther : Text → WaitRound → Type 0
IsOther name stopped = ⊥
IsOther name (answers again) = Unit {0}
IsOther name (answers read_fails) = ⊥
IsOther name (answers (event e)) =
    (e.create ≡ false) ⊎ ((before after : Text) → e.name ≢ before ++ (name ++ after))

other_lem :
    (name : Text) (e : InotifyEvent)
    → IsOther name (answers (event e))
    → (e.create && contains e.name name) ≡ false
other_lem name e (inl quiet) = rw quiet refl
other_lem name e (inr apart) = elim (Bool-cases (contains e.name name)) [
  | inl found ↦
      let (before, after, at) = contains-split e.name name found in absurd (apart before after at)
  | inr absent ↦ ground arith
]

wait_rounds-leaves :
    (name : Text) (pre rest : List WaitRound) (e : InotifyEvent) (before after : Text)
    → All (IsOther name) pre
    → e.create ≡ true
    → e.name ≡ before ++ (name ++ after)
    → wait_rounds name (pre ++ answers (event e) ∷ rest) ≡ leaves
unfolding wait_rounds
wait_rounds-leaves name [] rest e before after others made at =
    let found : contains e.name name ≡ true =
      ap (λ t. contains t name) at ∙ contains-append before name after in
    rw (found, wait_rounds, made) refl
wait_rounds-leaves name (stopped ∷ pre) rest e before after others made at = absurd others.0
wait_rounds-leaves name (answers again ∷ pre) rest e before after others made at =
    wait_rounds-leaves name pre rest e before after others.1 made at
wait_rounds-leaves name (answers read_fails ∷ pre) rest e before after others made at =
    absurd others.0
wait_rounds-leaves name (answers (event other) ∷ pre) rest e before after others made at =
    rw (other_lem name other others.0, wait_rounds)
      (wait_rounds-leaves name pre rest e before after others.1 made at)

wait_rounds-waits :
    (name : Text) (rounds : List WaitRound)
    → All (IsOther name) rounds
    → wait_rounds name rounds ≡ waits
unfolding wait_rounds
wait_rounds-waits name [] others = refl
wait_rounds-waits name (stopped ∷ rounds) others = absurd others.0
wait_rounds-waits name (answers again ∷ rounds) others = wait_rounds-waits name rounds others.1
wait_rounds-waits name (answers read_fails ∷ rounds) others = absurd others.0
wait_rounds-waits name (answers (event other) ∷ rounds) others =
    rw (other_lem name other others.0, wait_rounds) (wait_rounds-waits name rounds others.1)

-- While the directory that a path names is missing and its parent can be watched,
-- inotify_wait4_creation waits as long as `keep_running` stays set, no read fails, and nothing is created
-- in the parent whose name has the directory's name in it. At the first such creation it returns: 0 where
-- the watch can be removed, and -1 otherwise.
pub inotify_wait4_creation-returns :
    (parent name : Text) (rm_ok : Bool) (pre rest : List WaitRound) (e : InotifyEvent)
    (before after : Text)
    → HasNoSlash name
    → All (IsOther name) pre
    → e.create ≡ true
    → e.name ≡ before ++ (name ++ after)
    → let path = parent ++ b'/' ∷ name in
      (inotify_wait4_creation path true rm_ok pre ≡ still_waiting)
      × (inotify_wait4_creation path true rm_ok (pre ++ answers (event e) ∷ rest)
          ≡ (if rm_ok then ret_zero else ret_minus_one))
unfolding inotify_wait4_creation
inotify_wait4_creation-returns parent name rm_ok pre rest e before after plain others made at = (
  rw (split_lem parent name plain, inotify_wait4_creation, wait_rounds-waits name pre others) refl,
  rw
      (
        split_lem parent name plain,
        inotify_wait4_creation,
        wait_rounds-leaves name pre rest e before after others made at,
      )
      refl,
)

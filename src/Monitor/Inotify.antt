-- ===== src/Monitor/Inotify.antt =====
-- c_monitor/main.c: inotify_maybe_read and inotify_wait4_creation. What `read` and `open` answer is data:
-- the state of `errno` with -1, an event, the file system as a function of the path.
pub mod Creation
pub mod Examples
use fuzz_monitor.Base.{
  ℕ, zero, suc, Bool, true, false, not, ◌&&◌, List, [], ◌∷◌, ◌++◌, Option, none, some, length, take,
  ◌==◌, if◌then◌else◌,
}
use fuzz_monitor.Text.{Text, contains, starts_with, codes, snprintf}

-- `struct inotify_event`: its watch, the two bits of the mask that are tested, and its name, which is
-- empty where `len` is 0.
pub record InotifyEvent : Type 0 where
  pub wd : ℕ
  pub delete_self : Bool
  pub create : Bool
  pub name : Text

-- `again` stands for EAGAIN and EWOULDBLOCK.
pub data EventRead : Type 0 where
  again read_fails : EventRead
  event : InotifyEvent → EventRead

abbrev pub path_max : ℕ
path_max = 4096

-- A file that opens can still fail to be read.
abbrev pub Files : Type 0
Files = Text → Option (Option Text)

-- -1, or the bytes that were put into the buffer; 0 is no bytes.
pub data MaybeRead : Type 0 where
  read_minus_one : MaybeRead
  bytes : Text → MaybeRead

unfoldable pub read_file : Files → Text → ℕ → MaybeRead
read_file files path buf_len = elim (files path) [
  | none ↦ read_minus_one
  | some none ↦ read_minus_one
  | some (some content) ↦ bytes (take buf_len content)
]

unfoldable pub inotify_maybe_read : EventRead → Files → ℕ → Text → ℕ → MaybeRead
inotify_maybe_read again files wd path buf_len = bytes []
inotify_maybe_read read_fails files wd path buf_len = read_minus_one
inotify_maybe_read (event in_event) files wd path buf_len =
    if not (in_event.wd == wd)
    then bytes []
    else if in_event.delete_self
    then read_minus_one
    else if length in_event.name == 0
    then bytes []
    else read_file files (snprintf path_max (path ++ codes "/" ++ in_event.name)) buf_len

-- `strrchr(path, '/')`: what stands before and behind the last slash.
unfoldable pub split_last_slash : Text → Option (Text × Text)
split_last_slash [] = none
split_last_slash (c ∷ path) = elim (split_last_slash path) [
  | some (parent, last) ↦ some (c ∷ parent, last)
  | none ↦ if c == b'/' then some ([], path) else none
]

-- A round of the loop that waits: `keep_running` may have gone false before it, and `read` answers.
pub data WaitRound : Type 0 where
  stopped : WaitRound
  answers : EventRead → WaitRound

-- How the loop is left: `waits` with no further round.
pub data WaitEnd : Type 0 where
  leaves waits : WaitEnd

unfoldable pub wait_rounds : Text → List WaitRound → WaitEnd
wait_rounds name [] = waits
wait_rounds name (stopped ∷ rounds) = leaves
wait_rounds name (answers again ∷ rounds) = wait_rounds name rounds
wait_rounds name (answers read_fails ∷ rounds) = leaves
wait_rounds name (answers (event in_event) ∷ rounds) =
    let rest = wait_rounds name rounds in
    if in_event.create && contains in_event.name name then leaves else rest

pub data WaitRet : Type 0 where
  ret_zero ret_minus_one still_waiting : WaitRet

-- `add_ok` and `rm_ok` say whether the watch on the parent can be added and removed.
unfoldable pub inotify_wait4_creation : Text → Bool → Bool → List WaitRound → WaitRet
inotify_wait4_creation path add_ok rm_ok rounds = elim (split_last_slash path) [
  | none ↦ ret_minus_one
  | some (parent, name) ↦
      if add_ok
      then elim (wait_rounds name rounds) [
        | leaves ↦ if rm_ok then ret_zero else ret_minus_one
        | waits ↦ still_waiting
      ]
      else ret_minus_one
]

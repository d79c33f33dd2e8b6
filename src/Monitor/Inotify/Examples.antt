-- ===== src/Monitor/Inotify/Examples.antt =====
-- Runs of inotify_maybe_read and inotify_wait4_creation of c_monitor/main.c.
use fuzz_monitor.Base.{
  ◌≡◌, refl, inl, true, false, List, [], ◌∷◌, ◌++◌, some, none, if◌then◌else◌, arith,
}
use fuzz_monitor.Text.{Text, codes}
use fuzz_monitor.Monitor.Inotify.{
  InotifyEvent, Files, again, event, read_minus_one, bytes, read_file, inotify_maybe_read,
  WaitRound, answers, ret_zero, ret_minus_one, still_waiting, inotify_wait4_creation,
}
use fuzz_monitor.Monitor.Inotify.Creation.{inotify_wait4_creation-returns}

abbrev made : Text → InotifyEvent
made name = record { wd = 1; delete_self = false; create = true; name = name }

abbrev closed : Text → InotifyEvent
closed name = record { wd = 1; delete_self = false; create = false; name = name }

-- Every file has the same three bytes.
abbrev files : Files
files path = some (some (1 ∷ 2 ∷ 3 ∷ []))

abbrev no_files : Files
no_files path = none

file_is_read :
    inotify_maybe_read (event (closed (codes "a"))) files 1 (codes "corpus") 2 ≡ bytes (1 ∷ 2 ∷ [])
unfolding inotify_maybe_read read_file
file_is_read = refl

-- A file that is gone before it is opened.
file_is_gone :
    inotify_maybe_read (event (closed (codes "a"))) no_files 1 (codes "corpus") 2 ≡ read_minus_one
unfolding inotify_maybe_read read_file
file_is_gone = refl

other_watch : inotify_maybe_read (event (closed (codes "a"))) files 2 (codes "corpus") 2 ≡ bytes []
unfolding inotify_maybe_read
other_watch = refl

abbrev pre : List WaitRound
pre = answers again ∷ answers (event (closed (codes "c"))) ∷ []

-- A name with the directory's name in it is enough.
inotify_wait4_creation-returns_example :
    (inotify_wait4_creation (codes "out" ++ b'/' ∷ codes "c") true true pre ≡ still_waiting)
    × (inotify_wait4_creation
          (codes "out" ++ b'/' ∷ codes "c")
          true
          true
          (pre ++ answers (event (made (codes "acb"))) ∷ [])
        ≡ (if true then ret_zero else ret_minus_one))
inotify_wait4_creation-returns_example =
    inotify_wait4_creation-returns (codes "out") (codes "c") true pre [] (made (codes "acb"))
      (codes "a") (codes "b") (omega arith) (tt, (inl refl, tt)) refl refl

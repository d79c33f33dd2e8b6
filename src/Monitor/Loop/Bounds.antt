-- ===== src/Monitor/Loop/Bounds.antt =====
-- c_monitor/main.c, monitor_loop: messages that fit its buffer, and messages that do not.
use fuzz_monitor.Base.{
  ℕ, ◌≤◌, ◌<◌, ◌≡◌, refl, ap, length, take, take-all, length-take, false, arith,
}
use fuzz_monitor.Text.{Text}
use fuzz_monitor.Collections.{Collections}
use fuzz_monitor.Util.Crc.{util_crc64-none}
use fuzz_monitor.Monitor.Seen.{note_input}
use fuzz_monitor.Monitor.Loop.{buf_sz, message, Turn, input, fetch, Loop, crashes, take_turn}

-- A message that fits is fetched whole.
pub fetch-message :
    (wd : ℕ) (path : Text) (turn : Turn) (text : Text)
    → turn.received ≡ message text
    → length text ≤ buf_sz
    → fetch wd path turn ≡ input text (length text) false
unfolding fetch
fetch-message wd path turn text e fits =
    rw (e, fetch) (ap (λ t. input t (length text) false) (take-all buf_sz text fits))

module _ (lib : Collections) where
  -- A message of more than BUF_SZ bytes crashes the monitor: zmq_recv returns its full size, and
  -- util_CRC64 is called with that size, though the buffer has only the first BUF_SZ bytes.
  pub take_turn-oversized :
      (wd : ℕ) (turn : Turn) (l : Loop lib) (text : Text)
      → turn.received ≡ message text
      → buf_sz < length text
      → take_turn lib wd turn l ≡ crashes
  unfolding take_turn fetch note_input
  take_turn-oversized wd turn l text e large =
      let short : length (take buf_sz text) < length text =
        omega (arith, length-take buf_sz text) in
      rw (e, take_turn, fetch, note_input, util_crc64-none (take buf_sz text) (length text) short)
        refl

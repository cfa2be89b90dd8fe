-- ===== src/Logger.antt =====
-- The formatting front end of common/logging.h: `log` walks a format string and puts one element for
-- each character and each argument into the queue that the flushing thread reads. A char is its code.
pub mod Format
pub mod Flush
mod Tests
use low_latency_trading_engi.Base.{
  ℕ, zero, suc, ◌+◌, ◌*◌, Bool, true, false, Option, none, some, List, [], ◌∷◌, ◌++◌, Fault, Result,
  ok, err, bind_result, ℤ, ◌==◌, if◌then◌else◌,
}
use low_latency_trading_engi.LfQueue
use low_latency_trading_engi.LfQueue.{LfQueue}

-- `LogElement`: the tag and the union in one. A float is its bit pattern.
pub data LogElement : Type 0 where
  char : ℕ → LogElement
  integer long_integer long_long_integer : ℤ → LogElement
  unsigned_integer unsigned_long_integer unsigned_long_long_integer : ℕ → LogElement
  float double : ℕ → LogElement

-- What `log` can be given: a value of one of the overloads of `pushValue`, or a string.
pub data Argument : Type 0 where
  value : LogElement → Argument
  text : List ℕ → Argument

abbrev pub log_queue_size : ℕ
log_queue_size = 8 * 1024 * 1024

abbrev pub Queue : Type 0
Queue = LfQueue LogElement

-- The constructor: whether the file opens and the thread that flushes is made is given.
unfoldable pub open_logger : (file_open thread_made : Bool) → Result Queue
open_logger file_open thread_made =
    if file_open
    then if thread_made then ok (LfQueue.make (char 0) log_queue_size) else err Fault.assert_failed
    else err Fault.assert_failed

unfoldable pub push_value : LogElement → Queue → Queue
push_value x q = LfQueue.write q x

-- `pushValue(const char *)`, on the characters before the terminating zero.
unfoldable pub push_chars : List ℕ → Queue → Queue
push_chars [] q = q
push_chars (c ∷ cs) q = push_chars cs (push_value (LogElement.char c) q)

unfoldable pub push_argument : Argument → Queue → Queue
push_argument (value x) q = push_value x q
push_argument (text cs) q = push_chars cs q

-- The format string is the list of its characters. `log` with no argument left, and with some: the
-- character behind a percent sign decides.
unfoldable pub log : List ℕ → List Argument → Queue → Result Queue
log [] [] q = ok q
log [] (a ∷ rest) q = err Fault.fatal
log (c ∷ []) [] q = if c == b'%' then err Fault.fatal else ok (push_value (LogElement.char c) q)
log (c ∷ []) (a ∷ []) q = if c == b'%' then ok (push_argument a q) else err Fault.fatal
log (c ∷ []) (a ∷ b ∷ rest) q = err Fault.fatal
log (c ∷ d ∷ s) [] q =
    let plain = log (d ∷ s) [] (push_value (LogElement.char c) q) in
    let percent = log s [] (push_value (LogElement.char d) q) in
    if c == b'%' then if d == b'%' then percent else err Fault.fatal else plain
log (c ∷ d ∷ s) (a ∷ rest) q =
    let plain = log (d ∷ s) (a ∷ rest) (push_value (LogElement.char c) q) in
    let percent = log s (a ∷ rest) (push_value (LogElement.char d) q) in
    let filled = log (d ∷ s) rest (push_argument a q) in
    if c == b'%' then if d == b'%' then percent else filled else plain

-- What `file_ <<` writes for one element: the case of its tag. How a number is written is the
-- library's: `number` is a parameter.
unfoldable pub written : (number : LogElement → List ℕ) → LogElement → List ℕ
written number (char c) = c ∷ []
written number (integer i) = number (integer i)
written number (long_integer l) = number (long_integer l)
written number (long_long_integer ll) = number (long_long_integer ll)
written number (unsigned_integer ui) = number (unsigned_integer ui)
written number (unsigned_long_integer ul) = number (unsigned_long_integer ul)
written number (unsigned_long_long_integer ull) = number (unsigned_long_long_integer ull)
written number (float f) = number (float f)
written number (double d) = number (double d)

-- One turn of the inner loop of `flushQueue` for what `getNextToRead` returns; `rest` is the turns
-- after it. What is carried along is the queue and what is in the file.
unfoldable pub flush_next :
    (number : LogElement → List ℕ)
    → (rest : Queue → List ℕ → Result (Queue × List ℕ)) → Queue
    → List ℕ
    → Option ℕ
    → Result (Queue × List ℕ)
flush_next number rest q file none = ok (q, file)
flush_next number rest q file (some i) =
    if LfQueue.size q == 0
    then ok (q, file)
    else bind_result (LfQueue.update_read_index q)
        (λ q'. rest q' (file ++ written number (q.store i)))

unfoldable pub flush_loop :
    (number : LogElement → List ℕ) → ℕ → Queue → List ℕ → Result (Queue × List ℕ)
flush_loop number zero q file = err Fault.no_fuel
flush_loop number (suc fuel) q file =
    flush_next number (λ q' file'. flush_loop number fuel q' file') q file
      (LfQueue.get_next_to_read q)

-- One round of the outer loop, which then flushes the file and sleeps.
unfoldable pub flush_queue :
    (number : LogElement → List ℕ) → Queue → List ℕ → Result (Queue × List ℕ)
flush_queue number q file = flush_loop number (LfQueue.size q + 1) q file

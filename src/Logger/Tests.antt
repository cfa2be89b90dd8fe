-- ===== src/Logger/Tests.antt =====
-- A format string with a place and an escaped percent sign, for the theorems on common/logging.h.
use low_latency_trading_engi.Base.{ℕ, ◌+◌, ◌≡◌, refl, List, [], ◌∷◌, ◌++◌, ok, bind_result, arith}
use low_latency_trading_engi.LfQueue.{write_all}
use low_latency_trading_engi.Logger.{LogElement, value, Queue, log, flush_queue}
use low_latency_trading_engi.Logger.Format.{log-line}
use low_latency_trading_engi.LfQueue.Fifo.{IsValid, contents}
use low_latency_trading_engi.Logger.Flush.{text_of, flush-log}

abbrev queue : Queue
queue = record {
  store = λ _. LogElement.char 0;
  store_size = 16;
  next_write_index = 0;
  next_read_index = 0;
  num_elements = 0;
}

log_example :
    log (b'q' ∷ b'%' ∷ b'%' ∷ b'%' ∷ []) (value (LogElement.unsigned_integer 7) ∷ []) queue
    ≡ ok (
        write_all queue
          (LogElement.char b'q' ∷ LogElement.char b'%' ∷ LogElement.unsigned_integer 7 ∷ []))
log_example =
    log-line (b'q' ∷ b'%' ∷ b'%' ∷ b'%' ∷ []) (value (LogElement.unsigned_integer 7) ∷ []) queue

queue-IsValid : IsValid queue
queue-IsValid = record {
  nonempty_store = omega arith;
  store_bound = omega arith;
  read_in = omega arith;
  count_in = omega arith;
  write_at = refl;
}

-- Numbers of one digit.
abbrev digit : LogElement → List ℕ
digit (LogElement.unsigned_integer n) = (b'0' + n) ∷ []
digit _ = []

abbrev written_line : List LogElement
written_line = LogElement.char b'q' ∷ LogElement.char b'%' ∷ LogElement.unsigned_integer 7 ∷ []

flush_example :
    (q' : Queue) × (bind_result
        (log (b'q' ∷ b'%' ∷ b'%' ∷ b'%' ∷ []) (value (LogElement.unsigned_integer 7) ∷ []) queue)
        (λ q1. flush_queue digit q1 (b'.' ∷ []))
      ≡ ok (q', (b'.' ∷ []) ++ text_of digit written_line))
    × IsValid q'
    × (contents q' ≡ [])
flush_example =
    flush-log digit (b'q' ∷ b'%' ∷ b'%' ∷ b'%' ∷ []) (value (LogElement.unsigned_integer 7) ∷ [])
      written_line queue (b'.' ∷ []) queue-IsValid refl refl (omega arith)

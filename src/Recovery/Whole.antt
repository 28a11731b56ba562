-- ===== src/Recovery/Whole.antt =====
-- The outer loop of `Redo` of lib/recovery/log_recovery/log_recovery.go on a log file that fits into its
-- buffer.
use samehada_db.Prelude.{
  ℕ, zero, suc, ◌+◌, ◌≤◌, ◌<◌, ◌≡◌, refl, ap, sym, ◌∙◌, none, some, List, [], ◌∷◌, ◌++◌, arith,
  length, length-append, length-replicate, append_assoc, append-nil, Outcome, done, panic, blocked,
  take, drop, replicate, take-all, length-take_le, length-drop, ◌>>=◌, bind_cong, bind_assoc,
}
use samehada_db.Access.TablePage.{add32}
use samehada_db.Recovery.Buffer.{log_buffer_size}
use samehada_db.Recovery.Record.{LogRecord, header_size, blank_record, no_txn}
use samehada_db.Recovery.Append.{record_bytes}
use samehada_db.Recovery.Redo.{
  PageOps, zero_buffer, LogRecovery, read_log, redo_buffer, redo_loop, redo, new_log_recovery,
  put_txn,
}
use samehada_db.Recovery.Replay.{
  file_of, AreRecords, replay, redo_buffer-records, short-eq, record_bytes-length,
}

-- a file that fits is read in one go
read_log-start :
    (file buffer : List ℕ)
    → 0 < length file
    → length file ≤ length buffer
    → read_log file buffer 0 ≡ some (file ++ drop (length file) buffer, length file)
unfolding read_log
read_log-start file buffer h k = do let all = take-all (length buffer) file k; ground (arith, all)

read_log-inside :
    (file buffer : List ℕ) (at : ℕ)
    → at < length file
    → read_log file buffer at
      ≡ some (
        take (length buffer) (drop at file)
            ++ drop (length (take (length buffer) (drop at file))) buffer,
        length (take (length buffer) (drop at file)),
      )
unfolding read_log
read_log-inside file buffer at h = ground arith

read_log-end : (file buffer : List ℕ) (at : ℕ) → length file ≤ at → read_log file buffer at ≡ none
unfolding read_log
read_log-end file buffer at h = ground arith

unit_law : {A : Type 0} (m : Outcome A) → (m >>= done) ≡ m
unit_law (done a) = refl
unit_law panic = refl
unit_law blocked = refl

length-zeros : (n : ℕ) → length {A = ℕ} (replicate n 0) ≡ n
length-zeros n = length-replicate n 0

pub zero_buffer-length : length zero_buffer ≡ log_buffer_size
unfolding zero_buffer
zero_buffer-length = length-zeros log_buffer_size

module _ {W : Type 0} (ops : PageOps W) where
  -- one round of the outer loop
  round :
      (n stop read_bytes : ℕ) (file buffer buffer' : List ℕ) (at : ℕ) (s : LogRecovery W)
      (work : Outcome (LogRecovery W))
      → read_log file buffer at ≡ some (buffer', read_bytes)
      → redo_buffer ops (suc read_bytes) at buffer' read_bytes 0 blank_record s
        ≡ (do s1 ← work; done (stop, s1))
      → redo_loop ops (suc n) file buffer at s
        ≡ (do s1 ← work; redo_loop ops n file buffer' (add32 at stop) s1)
  unfolding redo_loop
  round n stop read_bytes file buffer buffer' at s work read run = do
    let next = λ (x : ℕ × LogRecovery W). redo_loop ops n file buffer' (add32 at x.0) x.1
    let body = ap (λ o. o >>= next) run ∙ bind_assoc work (λ s1. done (stop, s1)) next
    ground (arith, read, body)

  no_round :
      (n : ℕ) (file buffer : List ℕ) (at : ℕ) (s : LogRecovery W)
      → length file ≤ at
      → redo_loop ops (suc n) file buffer at s ≡ done s
  unfolding redo_loop
  no_round n file buffer at s h = ground (arith, read_log-end file buffer at h)

  no_record :
      (n file_offset : ℕ) (buffer : List ℕ) (read_bytes : ℕ) (r : LogRecord) (s : LogRecovery W)
      → read_bytes < header_size
      → redo_buffer ops (suc n) file_offset buffer read_bytes 0 r s ≡ done (0, s)
  unfolding redo_buffer
  no_record n file_offset buffer read_bytes r s h = ground (arith, short-eq buffer read_bytes r h)

  -- a rest of a file in which no record begins
  stuck :
      (n : ℕ) (file buffer : List ℕ) (at : ℕ) (s : LogRecovery W)
      → at < length file
      → length file < at + header_size
      → length file ≤ log_buffer_size
      → redo_loop ops n file buffer at s ≡ blocked
  unfolding redo_loop
  stuck zero file buffer at s h k fits = refl
  stuck (suc n) file buffer at s h k fits = do
    let chunk = take (length buffer) (drop at file)
    let short : length chunk < header_size =
        omega (arith, length-take_le (length buffer) (drop at file), length-drop at file)
    let same : add32 at 0 ≡ at = omega arith
    round n 0 (length chunk) file buffer _ at s (done s) (read_log-inside file buffer at h)
          (no_record (length chunk) at _ (length chunk) blank_record s short)
        ∙ (ap (λ i. redo_loop ops n file (chunk ++ drop (length chunk) buffer) i s) same
            ∙ stuck n file _ at s h k fits)

  -- the round that reads a whole file of records
  first_round :
      (rs : List LogRecord) (tail buffer : List ℕ) (n : ℕ) (s : LogRecovery W)
      → AreRecords rs
      → 0 < length (file_of rs ++ tail)
      → length tail < header_size
      → length (file_of rs ++ tail) ≤ log_buffer_size
      → length buffer ≡ log_buffer_size
      → redo_loop ops (suc n) (file_of rs ++ tail) buffer 0 s ≡ (do
        s1 ← replay ops 0 rs blank_record s
        redo_loop ops n
            (file_of rs ++ tail)
            ((file_of rs ++ tail) ++ drop (length (file_of rs ++ tail)) buffer)
            (add32 0 (length (file_of rs)))
            s1)
  first_round rs tail buffer n s good h short fits e = do
    let file = file_of rs ++ tail
    let widths = length-append (file_of rs) tail
    let rest = drop (length file) buffer
    round n (length (file_of rs)) (length file) file buffer (file ++ rest) 0 s
        (replay ops 0 rs blank_record s) (read_log-start file buffer h (omega arith))
        (ap (λ l. redo_buffer ops (suc (length file)) 0 l (length file) 0 blank_record s)
            (append_assoc (file_of rs) tail rest)
          ∙ redo_buffer-records ops rs (suc (length file)) 0 (length file) 0 (length (file_of rs))
              [] (tail ++ rest) blank_record s good refl (omega arith) (omega (arith, widths))
              (omega (arith, widths)) fits (omega (arith, widths)))

  redo_loop-records :
      (rs : List LogRecord) (buffer : List ℕ) (n : ℕ) (s : LogRecovery W)
      → AreRecords rs
      → length (file_of rs) ≤ log_buffer_size
      → length buffer ≡ log_buffer_size
      → redo_loop ops (suc (suc n)) (file_of rs) buffer 0 s ≡ replay ops 0 rs blank_record s
  unfolding replay file_of AreRecords
  redo_loop-records [] buffer n s good fits e = no_round (suc n) [] buffer 0 s (omega arith)
  redo_loop-records (r ∷ rs) buffer n s good fits e = do
    let file = file_of (r ∷ rs)
    let same = append-nil file
    let size = length-append (record_bytes r) (file_of rs)
    let whole = length-append file []
    let width = record_bytes-length r good.0
    ap (λ l. redo_loop ops (suc (suc n)) l buffer 0 s) (sym same)
        ∙ (first_round (r ∷ rs) [] buffer (suc n) s good
              (omega (arith, size, whole, width, good.0.size_eq)) (omega arith)
              (omega (arith, whole)) e
            ∙ bind_cong (replay ops 0 (r ∷ rs) blank_record s) _ done
                (λ s1. no_round n (file ++ []) _ _ s1 (omega (arith, whole)))
            ∙ unit_law (replay ops 0 (r ∷ rs) blank_record s))

  abbrev pub finish : LogRecovery W → LogRecovery W
  finish s = record s { active_txn = put_txn no_txn none s.active_txn }

  pub redo_lem :
      (rs : List LogRecord) (w : W) (n : ℕ)
      → AreRecords rs
      → length (file_of rs) ≤ log_buffer_size
      → redo ops (suc (suc n)) (file_of rs) w
        ≡ (do s ← replay ops 0 rs blank_record (new_log_recovery w); done (finish s))
  unfolding redo
  redo_lem rs w n good fits =
      ap (λ o. (do s ← o; done (finish s)))
        (redo_loop-records rs zero_buffer n (new_log_recovery w) good fits zero_buffer-length)

  -- On a log file that fits into the buffer and has, behind complete records, a rest of 1 to 19
  -- bytes, Redo does not return whatever fuel it has, though replaying the complete records does.
  pub redo_of_torn_log :
      (rs : List LogRecord) (tail : List ℕ) (w : W) (s : LogRecovery W) (n : ℕ)
      → AreRecords rs
      → 0 < length tail
      → length tail < header_size
      → length (file_of rs ++ tail) ≤ log_buffer_size
      → replay ops 0 rs blank_record (new_log_recovery w) ≡ done s
      → redo ops n (file_of rs ++ tail) w ≡ blocked
  unfolding redo
  redo_of_torn_log rs tail w s zero good h short fits runs = refl
  redo_of_torn_log rs tail w s (suc n) good h short fits runs = do
    let file = file_of rs ++ tail
    let widths = length-append (file_of rs) tail
    let rest = file ++ drop (length file) zero_buffer
    ap (λ o. (do s ← o; done (finish s)))
        (first_round rs tail zero_buffer n (new_log_recovery w) good (omega (arith, widths)) short
            fits zero_buffer-length
          ∙ (ap (λ o. (do s1 ← o; redo_loop ops n file rest (add32 0 (length (file_of rs))) s1))
                runs
              ∙ stuck n file rest (add32 0 (length (file_of rs))) s (omega (arith, widths))
                  (omega (arith, widths)) fits))

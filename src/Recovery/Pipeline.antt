-- ===== src/Recovery/Pipeline.antt =====
-- The log manager and recovery together: lib/recovery/log_manager.go writes a log, and
-- lib/recovery/log_recovery/log_recovery.go replays it.
use samehada_db.Prelude.{
  ℕ, suc, ◌^◌, ◌≤◌, ◌<◌, ◌≡◌, refl, ap, sym, ◌∙◌, Bool, true, false, List, [], ◌∷◌, ◌++◌, arith,
  if◌then◌else◌, length, length-append, append_assoc, append-nil, Outcome, done, ◌>>=◌,
}
use samehada_db.Prelude.Int.{ℤ, pos, ◌+ℤ◌}
use samehada_db.Types.Value.Arith.{wrap32}
use samehada_db.Types.Word.{IsInt32, signed32, pattern32, pattern32-lt}
use samehada_db.Recovery.Buffer.{log_buffer_size, contents}
use samehada_db.Recovery.Record.{LogRecord, blank_record}
use samehada_db.Recovery.Manager.{LogManager, new_log_manager, flush, append_log_record, takes_lsn}
use samehada_db.Recovery.Append.{record_bytes}
use samehada_db.Recovery.Append.Stream.{
  stream, IsManager, flush_lem, numbered, append_log_record_lem, lsn-IsWritable,
}
use samehada_db.Recovery.RoundTrip.{IsInRange}
use samehada_db.Recovery.Redo.{PageOps, redo, new_log_recovery}
use samehada_db.Recovery.Replay.{file_of, AreRecords, replay, record_bytes-length}
use samehada_db.Recovery.Whole.{finish, redo_lem}

-- records appended one after the other
unfoldable pub append_all : List LogRecord → LogManager → Outcome LogManager
append_all [] lm = done lm
append_all (r ∷ rs) lm = do (r', lm1) ← append_log_record r lm; append_all rs lm1

-- the records with the numbers that they get, if the first is `l`
unfoldable pub numbered_all : ℤ → List LogRecord → List LogRecord
numbered_all l [] = []
numbered_all l (r ∷ rs) =
    record r { lsn = if takes_lsn r then l else r.lsn }
    ∷ numbered_all (if takes_lsn r then wrap32 (l +ℤ pos 1) else l) rs

signed32-IsInt32 : (n : ℕ) → n < 2 ^ 32 → IsInt32 (signed32 n)
signed32-IsInt32 n h = ground arith

next-IsInt32 : (b : Bool) (l : ℤ) → IsInt32 l → IsInt32 (if b then wrap32 (l +ℤ pos 1) else l)
next-IsInt32 true l h = signed32-IsInt32 (pattern32 (l +ℤ pos 1)) (pattern32-lt (l +ℤ pos 1))
next-IsInt32 false l h = h

chosen-IsInt32 : (b : Bool) (l old : ℤ) → IsInt32 l → IsInt32 old → IsInt32 (if b then l else old)
chosen-IsInt32 true l old h k = h
chosen-IsInt32 false l old h k = k

lsn-IsInRange : (r : LogRecord) (l : ℤ) → IsInt32 l → IsInRange r → IsInRange (record r { lsn = l })
lsn-IsInRange r l h range = record {
  lsn = h;
  prev_lsn = range.prev_lsn;
  txn_id = range.txn_id;
  kind = range.kind;
  kind_code = range.kind_code;
  delete_page = range.delete_page;
  delete_slot = range.delete_slot;
  insert_page = range.insert_page;
  insert_slot = range.insert_slot;
  update_page = range.update_page;
  update_slot = range.update_slot;
  prev_page_id = range.prev_page_id;
  page_id = range.page_id;
  deallocate_page_id = range.deallocate_page_id;
  reuse_page_id = range.reuse_page_id;
}

numbered_all-AreRecords :
    (rs : List LogRecord) (l : ℤ) → IsInt32 l → AreRecords rs → AreRecords (numbered_all l rs)
unfolding AreRecords numbered_all
numbered_all-AreRecords [] l h good = good
numbered_all-AreRecords (r ∷ rs) l h (good, range, goods) = (
  lsn-IsWritable r _ good,
  lsn-IsInRange r _ (chosen-IsInt32 (takes_lsn r) l r.lsn h range.lsn) range,
  numbered_all-AreRecords rs _ (next-IsInt32 (takes_lsn r) l h) goods,
)

appended :
    (r : LogRecord) (rs : List LogRecord) (lm lm1 lm2 : LogManager) (r' : LogRecord)
    → append_log_record r lm ≡ done (r', lm1)
    → append_all rs lm1 ≡ done lm2
    → append_all (r ∷ rs) lm ≡ done lm2
unfolding append_all
appended r rs lm lm1 lm2 r' first rest = ap (λ o. (do x ← o; append_all rs x.1)) first ∙ rest

append_all-stream :
    (rs : List LogRecord) (lm : LogManager)
    → IsManager lm
    → AreRecords rs
    → (lm' : LogManager) × (append_all rs lm ≡ done lm')
      × (stream lm' ≡ stream lm ++ file_of (numbered_all lm.next_lsn rs))
      × IsManager lm'
unfolding append_all AreRecords file_of numbered_all
append_all-stream [] lm h good = (lm, refl, sym (append-nil (stream lm)), h)
append_all-stream (r ∷ rs) lm h (good, range, goods) = do
  let (lm1, ran, grown, next, h1) = append_log_record_lem r lm h good
  let (lm2, all, rest, h2) = append_all-stream rs lm1 h1 goods
  (
    lm2,
    appended r rs lm lm1 lm2 _ ran all,
    rest
        ∙ (ap (λ l. stream lm1 ++ file_of (numbered_all l rs)) next
            ∙ (ap
                  (λ l.
                    l
                    ++ file_of (
                        numbered_all
                          (if takes_lsn r then wrap32 (lm.next_lsn +ℤ pos 1) else lm.next_lsn) rs))
                  grown
                ∙ append_assoc (stream lm) (record_bytes (numbered r lm)) _)),
    h2,
  )

numbered_all-length :
    (rs : List LogRecord) (l : ℤ)
    → IsInt32 l
    → AreRecords rs
    → length (file_of (numbered_all l rs)) ≡ length (file_of rs)
unfolding AreRecords file_of numbered_all
numbered_all-length [] l h good = refl
numbered_all-length (r ∷ rs) l h (good, range, goods) = omega (
  arith,
  length-append (record_bytes r) (file_of rs),
  length-append (record_bytes (record r { lsn = if takes_lsn r then l else r.lsn }))
      (file_of (numbered_all (if takes_lsn r then wrap32 (l +ℤ pos 1) else l) rs)),
  record_bytes-length r good,
  record_bytes-length _ (lsn-IsWritable r (if takes_lsn r then l else r.lsn) good),
  numbered_all-length rs _ (next-IsInt32 (takes_lsn r) l h) goods,
)

new_log_manager-stream :
    (stream (new_log_manager []) ≡ [])
    × ((new_log_manager []).next_lsn ≡ pos 0)
    × IsManager (new_log_manager [])
unfolding stream new_log_manager contents
new_log_manager-stream = (refl, refl, omega arith)

module _ {W : Type 0} (ops : PageOps W) where
  -- Any list of records as their constructors make them, with numbers in the range of their fields,
  -- which fit into the log buffer together: appending them to a fresh log manager returns, and if
  -- it then flushes, Redo on the log file returns what replaying these records in order, with the
  -- LSNs they got, returns. Two rounds of the outer loop are enough.
  pub log_is_replayed :
      (rs : List LogRecord) (w : W) (n : ℕ)
      → AreRecords rs
      → length (file_of rs) ≤ log_buffer_size
      → (lm : LogManager) × (append_all rs (new_log_manager []) ≡ done lm)
        × (redo ops (suc (suc n)) (flush lm).log_file w ≡ (do
          s ← replay ops 0 (numbered_all (pos 0) rs) blank_record (new_log_recovery w)
          done (finish ops s)))
  log_is_replayed rs w n good fits = do
    let (empty, first, manager_ok) = new_log_manager-stream
    let (lm, ran, grown, h) = append_all-stream rs (new_log_manager []) manager_ok good
    let zero_ok : IsInt32 (pos 0) = ground arith
    let file =
        (flush_lem lm).0
        ∙ (grown
            ∙ ap (λ l. l ++ file_of (numbered_all (new_log_manager []).next_lsn rs)) empty
            ∙ ap (λ l. file_of (numbered_all l rs)) first)
    (
      lm,
      ran,
      ap (λ l. redo ops (suc (suc n)) l w) file
          ∙ redo_lem ops (numbered_all (pos 0) rs) w n
              (numbered_all-AreRecords rs (pos 0) zero_ok good)
              (omega (arith, numbered_all-length rs (pos 0) zero_ok good)),
    )

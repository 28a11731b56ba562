-- ===== src/Recovery/Mapping.antt =====
-- The map from LSNs to positions of the log file that `Redo` of
-- lib/recovery/log_recovery/log_recovery.go leaves for `Undo`.
use samehada_db.Prelude.{
  ℕ, ◌+◌, ◌≡◌, refl, ap, sym, ◌∙◌, Option, some, List, [], ◌∷◌, arith, length, length-append, done,
  >>=-eq-done, done-injective, subst, drop, drop-drop, Bool-cases, inl, inr,
}
use samehada_db.Prelude.Int.{ℤ, eqb_ℤ, eqb_ℤ_iff}
use samehada_db.Recovery.Record.{
  LogRecord, LogRecordType, invalid, insert, markdelete, applydelete, rollbackdelete, update, begin,
  commit, abort, new_table_page, deallocate_page, reuse_page, graceful_shutdown, other,
  blank_record,
}
use samehada_db.Recovery.Append.{record_bytes}
use samehada_db.Recovery.RoundTrip.{record_read, drop_head}
use samehada_db.Recovery.Redo.{
  PageOps, LogRecovery, redo_page, redo_state, redo_record, put_lsn, new_log_recovery,
}
use samehada_db.Recovery.Replay.{
  file_of, AreRecords, replay, record_bytes-length, record_read-header,
}
use samehada_db.Recovery.Undo.Chain.{IsAt}

-- Every position in the map is that of a record with that LSN.
abbrev pub IsMapOf : List ℕ → (ℤ → Option ℕ) → Type 0
IsMapOf file mapping =
    (l : ℤ) (p : ℕ) → mapping l ≡ some p → (r : LogRecord) × IsAt file p r × (r.lsn ≡ l)

put_lsn-IsMapOf :
    (file : List ℕ) (mapping : ℤ → Option ℕ) (l : ℤ) (p : ℕ) (r : LogRecord)
    → IsMapOf file mapping
    → IsAt file p r
    → r.lsn ≡ l
    → IsMapOf file (put_lsn l p mapping)
put_lsn-IsMapOf file mapping l p r held here named k q found = elim (Bool-cases (eqb_ℤ l k)) [
  | inl same ↦ do
    let here' : p ≡ q = ground (arith, same, found)
    (r, subst (λ i. IsAt file i r) here' here, named ∙ (eqb_ℤ_iff l k).0 same)
  | inr else' ↦ held k q (ground (arith, else', found))
]

module _ {W : Type 0} (ops : PageOps W) where
  state_mapping :
      (kind : LogRecordType) (r : LogRecord) (s : LogRecovery W)
      → (redo_state ops kind r s).lsn_mapping ≡ s.lsn_mapping
  unfolding redo_state
  state_mapping invalid r s = refl
  state_mapping insert r s = refl
  state_mapping markdelete r s = refl
  state_mapping applydelete r s = refl
  state_mapping rollbackdelete r s = refl
  state_mapping update r s = refl
  state_mapping begin r s = refl
  state_mapping commit r s = refl
  state_mapping abort r s = refl
  state_mapping new_table_page r s = refl
  state_mapping deallocate_page r s = refl
  state_mapping reuse_page r s = refl
  state_mapping graceful_shutdown r s = refl
  state_mapping (other n) r s = refl

  redo_record-mapping :
      (p : ℕ) (r : LogRecord) (s s1 : LogRecovery W)
      → redo_record ops p r s ≡ done s1
      → s1.lsn_mapping ≡ put_lsn r.lsn p s.lsn_mapping
  unfolding redo_record
  redo_record-mapping p r s s1 ran = do
    let (w, ran_page, rest) = >>=-eq-done (redo_page ops r.log_record_type r s.pages) _ ran
    ap (λ x. x.lsn_mapping) (sym (done-injective rest)) ∙ state_mapping r.log_record_type r _

  replay-IsMapOf :
      (file : List ℕ) (rs : List LogRecord) (p : ℕ) (old : LogRecord) (s s' : LogRecovery W)
      → AreRecords rs
      → IsMapOf file s.lsn_mapping
      → drop p file ≡ file_of rs
      → length file ≡ p + length (file_of rs)
      → replay ops p rs old s ≡ done s'
      → IsMapOf file s'.lsn_mapping
  unfolding replay AreRecords file_of
  replay-IsMapOf file [] p old s s' good held behind e ran =
      subst (λ x. IsMapOf file x.lsn_mapping) (done-injective ran) held
  replay-IsMapOf file (r ∷ rs) p old s s' (good, range, goods) held behind e ran = do
    let (s1, first, rest) = >>=-eq-done (redo_record ops p (record_read r old) s) _ ran
    let (size, lsn, prev, kind) = record_read-header r old
    let width = record_bytes-length r good
    let all = length-append (record_bytes r) (file_of rs)
    let here : IsAt file p r = record {
      rest = file_of rs;
      found = behind;
      inside = omega (arith, e, width, all, good.size_eq);
      writable = good;
      range = range;
    }
    replay-IsMapOf file rs (p + r.size) (record_read r old) s1 s' goods
        (subst (IsMapOf file) (sym (redo_record-mapping p (record_read r old) s s1 first))
          (put_lsn-IsMapOf file s.lsn_mapping (record_read r old).lsn p r held here (sym lsn)))
        (drop-drop (p + r.size) p r.size file refl
          ∙ (ap (drop r.size) behind ∙ drop_head (record_bytes r) (file_of rs) r.size width))
        (omega (arith, e, width, all)) rest

  -- When the records of a log file, as their constructors make them and with numbers in the range
  -- of their fields, have been replayed, every LSN that lsn_mapping gives a position for is the LSN
  -- of a record that the file holds at that position.
  pub redo_maps :
      (rs : List LogRecord) (w : W) (s : LogRecovery W)
      → AreRecords rs
      → replay ops 0 rs blank_record (new_log_recovery w) ≡ done s
      → (l : ℤ) (p : ℕ) → s.lsn_mapping l ≡ some p
      → (r : LogRecord) × IsAt (file_of rs) p r × (r.lsn ≡ l)
  redo_maps rs w s good ran =
      replay-IsMapOf (file_of rs) rs 0 blank_record (new_log_recovery w) s good
        (λ l p found. ground (arith, found)) refl (omega arith) ran

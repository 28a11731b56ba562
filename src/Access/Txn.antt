-- ===== src/Access/Txn.antt =====
-- lib/storage/access/transaction.go. A transaction id is an `int32` that is only compared for
-- equality, so it is kept as its bit pattern. Tuples and the table heap are only carried along here.
use Prim.Native.String.{String}
use samehada_db.Prelude.{
  ℕ, ◌≡◌, refl, Bool, true, false, not, ◌&&◌, ◌||◌, Option, List, [], ◌∷◌, ◌++◌, arith,
  if◌then◌else◌, Outcome, done, panic,
}
use samehada_db.Prelude.Int.{ℤ, negsuc}
use samehada_db.Access.Rid.{Rid, rid_eq}

pub data TransactionState : Type 0 where
  growing shrinking committed aborted : TransactionState

pub data WType : Type 0 where
  insert delete update reserve_space : WType

pub record WriteRecord : Type 0 where
  pub rid1 : Rid
  pub rid2 : Rid
  pub wtype : WType
  pub tuple1 : Option (List ℕ)
  pub tuple2 : Option (List ℕ)
  pub table : ℕ
  pub oid : ℕ

pub record Transaction : Type 0 where
  pub state : TransactionState
  pub txn_id : ℕ
  pub write_set : List WriteRecord
  pub prev_lsn : ℤ
  pub shared_lock_set : List Rid
  pub exclusive_lock_set : List Rid
  pub dbg_info : String
  pub abortable : Bool
  pub is_recovery_phase : Bool

-- `common.InvalidLSN` is -1
abbrev pub invalid_lsn : ℤ
invalid_lsn = negsuc 0

unfoldable pub new_transaction : ℕ → Transaction
new_transaction txn_id = record {
  state = growing;
  txn_id = txn_id;
  write_set = [];
  prev_lsn = invalid_lsn;
  shared_lock_set = [];
  exclusive_lock_set = [];
  dbg_info = "";
  abortable = true;
  is_recovery_phase = false;
}

unfoldable pub is_contains_rid : List Rid → Rid → Bool
is_contains_rid [] rid = false
is_contains_rid (r ∷ list) rid = rid_eq rid r || is_contains_rid list rid

abbrev pub is_shared_locked : Transaction → Rid → Bool
is_shared_locked txn rid = is_contains_rid txn.shared_lock_set rid

abbrev pub is_exclusive_locked : Transaction → Rid → Bool
is_exclusive_locked txn rid = is_contains_rid txn.exclusive_lock_set rid

abbrev is_aborted : TransactionState → Bool
is_aborted aborted = true
is_aborted _ = false

-- The build has NOT_ABORABLE_TXN_FEATURE on: to abort a transaction that is not abortable panics.
unfoldable pub set_state : Transaction → TransactionState → Outcome Transaction
set_state txn state =
    if is_aborted state && not txn.abortable then panic else done (record txn { state = state })

abbrev pub make_not_abortable : Transaction → Transaction
make_not_abortable txn = record txn { abortable = false }

unfoldable pub add_into_write_set : Transaction → WriteRecord → Transaction
add_into_write_set txn write_record = record txn { write_set = txn.write_set ++ write_record ∷ [] }

-- An append is seen by `is_contains_rid` as one more record id, and nothing else.
pub is_contains_rid-append :
    (list : List Rid) (x rid : Rid)
    → is_contains_rid (list ++ x ∷ []) rid ≡ (is_contains_rid list rid || rid_eq rid x)
unfolding is_contains_rid
is_contains_rid-append [] x rid = ground arith
is_contains_rid-append (r ∷ list) x rid = ground (arith, is_contains_rid-append list x rid)

pub is_contains_rid-append_list :
    (list list' : List Rid) (rid : Rid)
    → is_contains_rid (list ++ list') rid ≡ (is_contains_rid list rid || is_contains_rid list' rid)
unfolding is_contains_rid
is_contains_rid-append_list [] list' rid = refl
is_contains_rid-append_list (r ∷ list) list' rid =
    ground (arith, is_contains_rid-append_list list list' rid)

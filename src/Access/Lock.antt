-- ===== src/Access/Lock.antt =====
-- lib/storage/access/lock_manager.go. Every exported operation runs under the manager's mutex, so it
-- is one step on the pair of the lock tables and the calling transaction.
pub mod Holdings
pub mod Release
pub mod Schedule
pub mod Preserved
pub mod Safety
mod Tests
use samehada_db.Prelude.{
  ℕ, Bool, true, false, not, ◌&&◌, ◌||◌, Option, none, some, List, [], ◌∷◌, ◌++◌, ◌==◌,
  if◌then◌else◌, length, Outcome, done, panic,
}
use samehada_db.Access.Rid.{Rid, RidMap, put, delete}
use samehada_db.Access.Txn.{Transaction, is_shared_locked}

pub data TwoPlMode : Type 0 where
  regular strict : TwoPlMode

pub data DeadlockMode : Type 0 where
  prevention detection ss2pl_mode : DeadlockMode

pub record LockManager : Type 0 where
  pub two_pl_mode : TwoPlMode
  pub deadlock_mode : DeadlockMode
  pub enable_cycle_detection : Bool
  pub shared_lock_table : RidMap (List ℕ)
  pub exclusive_lock_table : RidMap ℕ

unfoldable pub new_lock_manager : TwoPlMode → DeadlockMode → LockManager
new_lock_manager two_pl_mode deadlock_mode = record {
  two_pl_mode = two_pl_mode;
  deadlock_mode = deadlock_mode;
  enable_cycle_detection = false;
  shared_lock_table = λ _. none;
  exclusive_lock_table = λ _. none;
}

-- the first occurrence goes
unfoldable pub remove_txn_id : List ℕ → ℕ → List ℕ
remove_txn_id [] txn_id = []
remove_txn_id (t ∷ list) txn_id = if t == txn_id then list else t ∷ remove_txn_id list txn_id

unfoldable pub is_contain_txn_id : List ℕ → ℕ → Bool
is_contain_txn_id [] txn_id = false
is_contain_txn_id (t ∷ list) txn_id = t == txn_id || is_contain_txn_id list txn_id

-- The manager and the transaction after a call, and what the call returns.
pub record Reply : Type 0 where
  pub manager : LockManager
  pub txn : Transaction
  pub granted : Bool

abbrev pub reply : LockManager → Transaction → Bool → Reply
reply manager txn granted = record { manager = manager; txn = txn; granted = granted }

abbrev grant_shared : LockManager → Transaction → Rid → List ℕ → Reply
grant_shared lm txn rid arr =
    reply (record lm { shared_lock_table = put rid (arr ++ txn.txn_id ∷ []) lm.shared_lock_table })
      (record txn { shared_lock_set = txn.shared_lock_set ++ rid ∷ [] }) true

unfoldable pub lock_shared : LockManager → Transaction → Rid → Reply
unfolding is_contain_txn_id
lock_shared lm txn rid =
    if txn.is_recovery_phase then reply lm txn true else elim (lm.exclusive_lock_table rid) [
      | some txn_id ↦ if txn_id == txn.txn_id then reply lm txn true else reply lm txn false
      | none ↦ elim (lm.shared_lock_table rid) [
        | some arr ↦
            if is_contain_txn_id arr txn.txn_id
            then reply lm txn true
            else grant_shared lm txn rid arr
        | none ↦ grant_shared lm txn rid []
      ]
    ]

abbrev grant_exclusive : LockManager → Transaction → Rid → Reply
grant_exclusive lm txn rid =
    reply (record lm { exclusive_lock_table = put rid txn.txn_id lm.exclusive_lock_table })
      (record txn { exclusive_lock_set = txn.exclusive_lock_set ++ rid ∷ [] }) true

-- `arr == nil || len(arr) == 0 || (len(arr) == 1 && arr[0] == txn.GetTransactionId())`
abbrev only_holder : List ℕ → ℕ → Bool
only_holder [] txn_id = true
only_holder (t ∷ []) txn_id = t == txn_id
only_holder (t ∷ t' ∷ arr) txn_id = false

unfoldable pub lock_exclusive : LockManager → Transaction → Rid → Reply
lock_exclusive lm txn rid =
    if txn.is_recovery_phase then reply lm txn true else elim (lm.exclusive_lock_table rid) [
      | some txn_id ↦ if txn_id == txn.txn_id then reply lm txn true else reply lm txn false
      | none ↦ elim (lm.shared_lock_table rid) [
        | some arr ↦
            if not (only_holder arr txn.txn_id)
            then reply lm txn false
            else grant_exclusive lm txn rid
        | none ↦ grant_exclusive lm txn rid
      ]
    ]

-- A missing key reads as the nil slice.
abbrev pub holders : LockManager → Rid → List ℕ
holders lm rid = elim (lm.shared_lock_table rid) [ some arr ↦ arr | none ↦ [] ]

unfoldable pub lock_upgrade : LockManager → Transaction → Rid → Outcome Reply
lock_upgrade lm txn rid =
    if txn.is_recovery_phase
    then done (reply lm txn true)
    else if is_shared_locked txn rid
    then (elim (lm.exclusive_lock_table rid) [
      | some txn_id ↦
          if txn_id == txn.txn_id then done (reply lm txn true) else done (reply lm txn false)
      | none ↦
          if not (length (holders lm rid) == 1)
          then done (reply lm txn false)
          else done (grant_exclusive lm txn rid)
    ])
    else panic

-- one round of the loop of `Unlock`
unfoldable pub unlock_one : LockManager → ℕ → Rid → LockManager
unlock_one lm txn_id locked_rid = record lm {
  exclusive_lock_table = elim (lm.exclusive_lock_table locked_rid) [
    | some owner ↦
        if owner == txn_id
        then delete locked_rid lm.exclusive_lock_table
        else lm.exclusive_lock_table
    | none ↦ lm.exclusive_lock_table
  ];
  shared_lock_table = elim (lm.shared_lock_table locked_rid) [
    | some arr ↦
        if is_contain_txn_id arr txn_id
        then put locked_rid (remove_txn_id arr txn_id) lm.shared_lock_table
        else lm.shared_lock_table
    | none ↦ lm.shared_lock_table
  ];
}

unfoldable pub unlock : LockManager → ℕ → List Rid → LockManager
unfolding unlock_one remove_txn_id is_contain_txn_id
unlock lm txn_id [] = lm
unlock lm txn_id (locked_rid ∷ rid_list) = unlock (unlock_one lm txn_id locked_rid) txn_id rid_list

-- `releaseLocks` of lib/storage/access/transaction_manager.go
unfoldable pub release_locks : LockManager → Transaction → LockManager
unfolding unlock
release_locks lm txn = unlock lm txn.txn_id (txn.exclusive_lock_set ++ txn.shared_lock_set)

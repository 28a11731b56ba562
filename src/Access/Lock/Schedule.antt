-- ===== src/Access/Lock/Schedule.antt =====
-- Transactions that lock and unlock in any order: lib/storage/access/lock_manager.go called by the
-- live transactions of lib/storage/access/transaction_manager.go.
use samehada_db.Prelude.{ℕ, ◌≡◌, Bool, true, false, Option, none, some, ◌==◌, if◌then◌else◌, done}
use samehada_db.Access.Rid.{Rid}
use samehada_db.Access.Txn.{Transaction, new_transaction, is_shared_locked, is_exclusive_locked}
use samehada_db.Access.Lock.{
  LockManager, Reply, TwoPlMode, DeadlockMode, new_lock_manager, lock_shared, lock_exclusive,
  lock_upgrade, release_locks,
}
use samehada_db.Access.Lock.Holdings.{shares, owns}
use samehada_db.Access.Lock.Release.{HasDistinct}

-- The lock tables and the live transactions, by their ids.
pub record System : Type 0 where
  pub manager : LockManager
  pub txns : ℕ → Option Transaction

abbrev pub put_txn : ℕ → Option Transaction → (ℕ → Option Transaction) → ℕ → Option Transaction
put_txn t o txns u = if u == t then o else txns u

abbrev pub in_shared_set : System → ℕ → Rid → Bool
in_shared_set s t r = elim (s.txns t) [ some txn ↦ is_shared_locked txn r | none ↦ false ]

abbrev pub in_exclusive_set : System → ℕ → Rid → Bool
in_exclusive_set s t r = elim (s.txns t) [ some txn ↦ is_exclusive_locked txn r | none ↦ false ]

-- The lock tables and the lock sets of the live transactions say the same, and nobody shares a
-- record that another owns.
pub record IsConsistent (s : System) : Type 0 where
  pub distinct : HasDistinct s.manager
  pub shared : (t : ℕ) (r : Rid) → shares s.manager t r ≡ in_shared_set s t r
  pub exclusive : (t : ℕ) (r : Rid) → owns s.manager t r ≡ in_exclusive_set s t r
  pub excludes :
      (t u : ℕ) (r : Rid) → owns s.manager t r ≡ true → shares s.manager u r ≡ true → t ≡ u
  pub ids : (t : ℕ) (txn : Transaction) → s.txns t ≡ some txn → txn.txn_id ≡ t

abbrev pub after : System → ℕ → Reply → System
after s t r = record { manager = r.manager; txns = put_txn t (some r.txn) s.txns }

pub data Step (s : System) (s' : System) : Type 0 where
  -- `Begin` with a new transaction
  begin :
      (t : ℕ)
      → s.txns t ≡ none
      → s' ≡ record s { txns = put_txn t (some (new_transaction t)) s.txns }
      → Step s s'
  shared :
      (t : ℕ) (txn : Transaction) (rid : Rid)
      → s.txns t ≡ some txn
      → s' ≡ after s t (lock_shared s.manager txn rid)
      → Step s s'
  exclusive :
      (t : ℕ) (txn : Transaction) (rid : Rid)
      → s.txns t ≡ some txn
      → s' ≡ after s t (lock_exclusive s.manager txn rid)
      → Step s s'
  upgrade :
      (t : ℕ) (txn : Transaction) (rid : Rid) (r : Reply)
      → s.txns t ≡ some txn
      → lock_upgrade s.manager txn rid ≡ done r
      → s' ≡ after s t r
      → Step s s'
  -- the end of `Commit` and of `Abort`
  finish :
      (t : ℕ) (txn : Transaction)
      → s.txns t ≡ some txn
      → s' ≡ record { manager = release_locks s.manager txn; txns = put_txn t none s.txns }
      → Step s s'
  -- all else that a transaction does to itself
  work :
      (t : ℕ) (txn txn' : Transaction)
      → s.txns t ≡ some txn
      → txn'.txn_id ≡ txn.txn_id
      → txn'.shared_lock_set ≡ txn.shared_lock_set
      → txn'.exclusive_lock_set ≡ txn.exclusive_lock_set
      → s' ≡ record s { txns = put_txn t (some txn') s.txns }
      → Step s s'

pub data Reach (s : System) : System → Type 0 where
  here : Reach s s
  next : {t u : System} → Reach s t → Step t u → Reach s u

abbrev pub start : TwoPlMode → DeadlockMode → System
start m d = record { manager = new_lock_manager m d; txns = λ _. none }

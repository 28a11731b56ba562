-- ===== src/Access/Lock/Tests.antt =====
-- Runs of lib/storage/access/lock_manager.go, and the theorems on them.
use samehada_db.Prelude.{ℕ, ◌≡◌, refl, false, some, done}
use samehada_db.Access.Rid.{Rid}
use samehada_db.Access.Txn.{Transaction, new_transaction, is_contains_rid}
use samehada_db.Access.Lock.{
  TwoPlMode, DeadlockMode, lock_shared, lock_exclusive, lock_upgrade, new_lock_manager,
  release_locks,
}
use samehada_db.Access.Lock.Holdings.{shares, owns, lock_upgrade-lock_exclusive}
use samehada_db.Access.Lock.Schedule.{
  System, Reach, here, next, begin, shared, exclusive, start, after, put_txn, in_shared_set,
  in_exclusive_set,
}
use samehada_db.Access.Lock.Safety.{mutual_exclusion, tables_agree_with_sets, release_is_complete}

abbrev rid : Rid
rid = record { page_id = 3; slot_num = 1 }

abbrev empty : System
empty = start TwoPlMode.strict DeadlockMode.ss2pl_mode

abbrev begun : System
begun = record empty { txns = put_txn 7 (some (new_transaction 7)) empty.txns }

-- transaction 7 has a shared lock
abbrev sharing : System
sharing = after begun 7 (lock_shared begun.manager (new_transaction 7) rid)

abbrev sharing_txn : Transaction
sharing_txn = (lock_shared begun.manager (new_transaction 7) rid).txn

-- and then an exclusive one
abbrev owning : System
owning = after sharing 7 (lock_exclusive sharing.manager sharing_txn rid)

abbrev owning_txn : Transaction
owning_txn = (lock_exclusive sharing.manager sharing_txn rid).txn

program : Unit {0}
unfolding new_transaction new_lock_manager lock_shared lock_exclusive lock_upgrade shares owns
    release_locks is_contains_rid
program = tt

refused : (lock_shared owning.manager (new_transaction 8) rid).granted ≡ false
unfolding program
refused = refl

released : owns (release_locks owning.manager owning_txn) 7 rid ≡ false
unfolding program
released = refl

run : Reach empty owning
run =
    next (next (next here (begin 7 refl refl)) (shared 7 (new_transaction 7) rid refl refl))
      (exclusive 7 sharing_txn rid refl refl)

mutual_exclusion_example : ◌≡◌ {A = ℕ} 7 7
unfolding program
mutual_exclusion_example =
    mutual_exclusion TwoPlMode.strict DeadlockMode.ss2pl_mode owning 7 7 rid run refl refl

tables_agree_with_sets_example :
    (shares owning.manager 7 rid ≡ in_shared_set owning 7 rid)
    × (owns owning.manager 7 rid ≡ in_exclusive_set owning 7 rid)
tables_agree_with_sets_example =
    tables_agree_with_sets TwoPlMode.strict DeadlockMode.ss2pl_mode owning 7 rid run

release_is_complete_example :
    (shares (release_locks owning.manager owning_txn) 7 rid ≡ false)
    × (owns (release_locks owning.manager owning_txn) 7 rid ≡ false)
release_is_complete_example =
    release_is_complete TwoPlMode.strict DeadlockMode.ss2pl_mode owning 7 owning_txn 7 rid run refl

lock_upgrade-lock_exclusive_example :
    lock_upgrade sharing.manager sharing_txn rid
    ≡ done (lock_exclusive sharing.manager sharing_txn rid)
unfolding program
lock_upgrade-lock_exclusive_example =
    lock_upgrade-lock_exclusive sharing.manager sharing_txn rid refl refl

-- ===== src/Access/Lock/Release.antt =====
-- `Unlock` of lib/storage/access/lock_manager.go and `releaseLocks` of
-- lib/storage/access/transaction_manager.go: what a transaction holds after them.
use samehada_db.Prelude.{ℕ, ◌≡◌, refl, false, not, ◌&&◌, ◌||◌, List, [], ◌∷◌, ◌++◌, arith, ◌==◌}
use samehada_db.Access.Rid.{Rid, rid_eq, rid_eq_iff}
use samehada_db.Access.Txn.{Transaction, is_contains_rid, is_contains_rid-append_list}
use samehada_db.Access.Lock.{
  LockManager, remove_txn_id, is_contain_txn_id, lock_shared, lock_exclusive, holders, unlock_one,
  unlock, release_locks,
}
use samehada_db.Access.Lock.Holdings.{shares, owns, contain-append}

-- No transaction stands twice in the list.
abbrev pub Distinct : List ℕ → Type 0
Distinct [] = Unit
Distinct (t ∷ list) = (is_contain_txn_id list t ≡ false) × Distinct list

-- No transaction stands twice under one record.
abbrev pub HasDistinct : LockManager → Type 0
HasDistinct lm = (r : Rid) → Distinct (holders lm r)

contain-remove :
    (list : List ℕ) (t u : ℕ)
    → Distinct list
    → is_contain_txn_id (remove_txn_id list t) u ≡ (is_contain_txn_id list u && not (t == u))
unfolding is_contain_txn_id remove_txn_id
contain-remove [] t u d = refl
contain-remove (v ∷ list) t u d = ground (arith, contain-remove list t u)

Distinct-remove : (list : List ℕ) (t : ℕ) → Distinct list → Distinct (remove_txn_id list t)
unfolding remove_txn_id is_contain_txn_id
Distinct-remove [] t d = tt
Distinct-remove (v ∷ list) t d = ground (arith, Distinct-remove list t, contain-remove list t v)

Distinct-append :
    (list : List ℕ) (t : ℕ)
    → Distinct list
    → is_contain_txn_id list t ≡ false
    → Distinct (list ++ t ∷ [])
unfolding is_contain_txn_id
Distinct-append [] t d h = (refl, tt)
Distinct-append (v ∷ list) t d h = ground (arith, Distinct-append list t, contain-append list t v)

pub HasDistinct-lock_shared :
    (lm : LockManager) (txn : Transaction) (rid : Rid)
    → HasDistinct lm
    → HasDistinct (lock_shared lm txn rid).manager
unfolding lock_shared is_contain_txn_id
HasDistinct-lock_shared lm txn rid d r =
    ground (arith, d r, d rid, Distinct-append (holders lm rid) txn.txn_id)

pub HasDistinct-lock_exclusive :
    (lm : LockManager) (txn : Transaction) (rid : Rid)
    → HasDistinct lm
    → HasDistinct (lock_exclusive lm txn rid).manager
unfolding lock_exclusive
HasDistinct-lock_exclusive lm txn rid d r = ground (arith, d r)

module _ (lm : LockManager) (t : ℕ) (rid : Rid) where
  owns-unlock_one :
      (u : ℕ) (r : Rid)
      → owns (unlock_one lm t rid) u r ≡ (owns lm u r && not (t == u && rid_eq r rid))
  unfolding owns unlock_one
  owns-unlock_one u r = ground (arith, rid_eq_iff r rid)

  shares-unlock_one :
      HasDistinct lm
      → (u : ℕ) (r : Rid)
      → shares (unlock_one lm t rid) u r ≡ (shares lm u r && not (t == u && rid_eq r rid))
  unfolding shares unlock_one is_contain_txn_id
  shares-unlock_one d u r =
      ground (arith, rid_eq_iff r rid, contain-remove (holders lm rid) t u (d rid))

  HasDistinct-unlock_one : HasDistinct lm → HasDistinct (unlock_one lm t rid)
  unfolding unlock_one
  HasDistinct-unlock_one d r = ground (arith, d r, d rid, Distinct-remove (holders lm rid) t)

pub HasDistinct-unlock :
    (lm : LockManager) (t : ℕ) (list : List Rid) → HasDistinct lm → HasDistinct (unlock lm t list)
unfolding unlock
HasDistinct-unlock lm t [] d = d
HasDistinct-unlock lm t (rid ∷ list) d =
    HasDistinct-unlock (unlock_one lm t rid) t list (HasDistinct-unlock_one lm t rid d)

pub owns-unlock :
    (lm : LockManager) (t : ℕ) (list : List Rid) (u : ℕ) (r : Rid)
    → owns (unlock lm t list) u r ≡ (owns lm u r && not (t == u && is_contains_rid list r))
unfolding unlock is_contains_rid
owns-unlock lm t [] u r = ground arith
owns-unlock lm t (rid ∷ list) u r =
    ground (arith, owns-unlock (unlock_one lm t rid) t list u r, owns-unlock_one lm t rid u r)

pub shares-unlock :
    (lm : LockManager) (t : ℕ) (list : List Rid) (u : ℕ) (r : Rid)
    → HasDistinct lm
    → shares (unlock lm t list) u r ≡ (shares lm u r && not (t == u && is_contains_rid list r))
unfolding unlock is_contains_rid
shares-unlock lm t [] u r d = ground arith
shares-unlock lm t (rid ∷ list) u r d = ground (
  arith,
  shares-unlock (unlock_one lm t rid) t list u r (HasDistinct-unlock_one lm t rid d),
  shares-unlock_one lm t rid d u r,
)

-- After `release_locks` the transaction has no lock that its two lock sets name, and the locks of
-- all others are as they were.
pub shares-release_locks :
    (lm : LockManager) (txn : Transaction) (u : ℕ) (r : Rid)
    → HasDistinct lm
    → shares (release_locks lm txn) u r ≡ (
        shares lm u r
        && not (
            txn.txn_id == u
            && (is_contains_rid txn.exclusive_lock_set r || is_contains_rid txn.shared_lock_set r)))
unfolding release_locks
shares-release_locks lm txn u r d =
    rw (← is_contains_rid-append_list txn.exclusive_lock_set txn.shared_lock_set r)
      (shares-unlock lm txn.txn_id (txn.exclusive_lock_set ++ txn.shared_lock_set) u r d)

pub owns-release_locks :
    (lm : LockManager) (txn : Transaction) (u : ℕ) (r : Rid)
    → owns (release_locks lm txn) u r ≡ (
        owns lm u r
        && not (
            txn.txn_id == u
            && (is_contains_rid txn.exclusive_lock_set r || is_contains_rid txn.shared_lock_set r)))
unfolding release_locks
owns-release_locks lm txn u r =
    rw (← is_contains_rid-append_list txn.exclusive_lock_set txn.shared_lock_set r)
      (owns-unlock lm txn.txn_id (txn.exclusive_lock_set ++ txn.shared_lock_set) u r)

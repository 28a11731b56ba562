-- ===== src/Access/Lock/Holdings.antt =====
-- lib/storage/access/lock_manager.go: who holds what, and how each operation changes it.
use samehada_db.Prelude.{
  ℕ, ◌≡◌, Bool, true, false, not, ◌&&◌, ◌||◌, none, some, List, [], ◌∷◌, ◌++◌, arith, ◌==◌, done,
}
use samehada_db.Access.Rid.{Rid, rid_eq, rid_eq_iff}
use samehada_db.Access.Txn.{Transaction, is_contains_rid, is_contains_rid-append}
use samehada_db.Access.Lock.{
  LockManager, is_contain_txn_id, lock_shared, lock_exclusive, lock_upgrade, holders, only_holder,
}

-- `t` stands in the shared table under `rid`
unfoldable pub shares : LockManager → ℕ → Rid → Bool
shares lm t rid = is_contain_txn_id (holders lm rid) t

-- `t` stands in the exclusive table under `rid`
unfoldable pub owns : LockManager → ℕ → Rid → Bool
owns lm t rid = elim (lm.exclusive_lock_table rid) [ some u ↦ u == t | none ↦ false ]

unfoldable pub is_owned : LockManager → Rid → Bool
is_owned lm rid = elim (lm.exclusive_lock_table rid) [ some u ↦ true | none ↦ false ]

pub contain-append :
    (list : List ℕ) (t u : ℕ)
    → is_contain_txn_id (list ++ t ∷ []) u ≡ (is_contain_txn_id list u || t == u)
unfolding is_contain_txn_id
contain-append [] t u = ground arith
contain-append (v ∷ list) t u = ground (arith, contain-append list t u)

-- `lock_shared` records a new shared lock exactly here.
unfoldable pub takes_shared : LockManager → Transaction → Rid → Bool
takes_shared lm txn rid =
    not txn.is_recovery_phase && not (is_owned lm rid) && not (shares lm txn.txn_id rid)

module _ (lm : LockManager) (txn : Transaction) (rid : Rid) where
  pub shares-lock_shared :
      (u : ℕ) (r : Rid)
      → shares (lock_shared lm txn rid).manager u r
        ≡ (shares lm u r || takes_shared lm txn rid && (txn.txn_id == u && rid_eq r rid))
  unfolding shares lock_shared takes_shared is_owned
  shares-lock_shared u r =
      ground (arith, contain-append (holders lm rid) txn.txn_id u, rid_eq_iff r rid)

  pub owns-lock_shared : (u : ℕ) (r : Rid) → owns (lock_shared lm txn rid).manager u r ≡ owns lm u r
  unfolding owns lock_shared
  owns-lock_shared u r = ground arith

  pub shared_set-lock_shared :
      (r : Rid)
      → is_contains_rid (lock_shared lm txn rid).txn.shared_lock_set r
        ≡ (is_contains_rid txn.shared_lock_set r || takes_shared lm txn rid && rid_eq r rid)
  unfolding shares lock_shared takes_shared is_owned
  shared_set-lock_shared r = ground (arith, is_contains_rid-append txn.shared_lock_set rid r)

  pub exclusive_set-lock_shared :
      (lock_shared lm txn rid).txn.exclusive_lock_set ≡ txn.exclusive_lock_set
  unfolding lock_shared
  exclusive_set-lock_shared = ground arith

  pub txn_id-lock_shared : (lock_shared lm txn rid).txn.txn_id ≡ txn.txn_id
  unfolding lock_shared
  txn_id-lock_shared = ground arith

  -- The answer is yes unless another transaction owns the record.
  pub granted-lock_shared :
      (lock_shared lm txn rid).granted
      ≡ (txn.is_recovery_phase || not (is_owned lm rid) || owns lm txn.txn_id rid)
  unfolding lock_shared is_owned owns
  granted-lock_shared = ground arith

-- No shared holder but `t`, and at most one entry.
unfoldable pub sole : LockManager → ℕ → Rid → Bool
sole lm t rid = only_holder (holders lm rid) t

-- `lock_exclusive` records a new exclusive lock exactly here.
unfoldable pub takes_exclusive : LockManager → Transaction → Rid → Bool
takes_exclusive lm txn rid =
    not txn.is_recovery_phase && not (is_owned lm rid) && sole lm txn.txn_id rid

module _ (lm : LockManager) (txn : Transaction) (rid : Rid) where
  pub owns-lock_exclusive :
      (u : ℕ) (r : Rid)
      → owns (lock_exclusive lm txn rid).manager u r
        ≡ (owns lm u r || takes_exclusive lm txn rid && (txn.txn_id == u && rid_eq r rid))
  unfolding owns lock_exclusive takes_exclusive is_owned sole
  owns-lock_exclusive u r = ground (arith, rid_eq_iff r rid)

  pub shares-lock_exclusive :
      (u : ℕ) (r : Rid) → shares (lock_exclusive lm txn rid).manager u r ≡ shares lm u r
  unfolding shares lock_exclusive
  shares-lock_exclusive u r = ground arith

  pub exclusive_set-lock_exclusive :
      (r : Rid)
      → is_contains_rid (lock_exclusive lm txn rid).txn.exclusive_lock_set r
        ≡ (is_contains_rid txn.exclusive_lock_set r || takes_exclusive lm txn rid && rid_eq r rid)
  unfolding lock_exclusive takes_exclusive is_owned sole
  exclusive_set-lock_exclusive r =
      ground (arith, is_contains_rid-append txn.exclusive_lock_set rid r)

  pub shared_set-lock_exclusive :
      (lock_exclusive lm txn rid).txn.shared_lock_set ≡ txn.shared_lock_set
  unfolding lock_exclusive
  shared_set-lock_exclusive = ground arith

  pub txn_id-lock_exclusive : (lock_exclusive lm txn rid).txn.txn_id ≡ txn.txn_id
  unfolding lock_exclusive
  txn_id-lock_exclusive = ground arith

  pub granted-lock_exclusive : (lock_exclusive lm txn rid).granted ≡ (
      txn.is_recovery_phase
      || owns lm txn.txn_id rid
      || not (is_owned lm rid) && sole lm txn.txn_id rid)
  unfolding lock_exclusive is_owned owns sole
  granted-lock_exclusive = ground arith

module _ (lm : LockManager) (txn : Transaction) (rid : Rid) where
  -- For a record that the transaction's lock set and the lock table both say it shares, LockUpgrade
  -- does not panic and does exactly what LockExclusive does.
  pub lock_upgrade-lock_exclusive :
      is_contains_rid txn.shared_lock_set rid ≡ true
      → shares lm txn.txn_id rid ≡ true
      → lock_upgrade lm txn rid ≡ done (lock_exclusive lm txn rid)
  unfolding lock_upgrade lock_exclusive shares is_contain_txn_id
  lock_upgrade-lock_exclusive h s = ground arith

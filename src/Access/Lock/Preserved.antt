-- ===== src/Access/Lock/Preserved.antt =====
-- Every call of lib/storage/access/lock_manager.go keeps the lock tables and the lock sets of the
-- live transactions consistent.
use samehada_db.Prelude.{ℕ, ◌≡◌, refl, true, false, none, some, arith, done, ◌++◌}
use samehada_db.Access.Rid.{Rid, rid_eq_iff}
use samehada_db.Access.Txn.{Transaction, new_transaction, is_contains_rid, is_shared_locked}
use samehada_db.Access.Lock.{
  LockManager, Reply, TwoPlMode, DeadlockMode, new_lock_manager, is_contain_txn_id, lock_shared,
  lock_exclusive, lock_upgrade, release_locks,
}
use samehada_db.Access.Lock.Holdings.{
  shares, owns, is_owned, sole, takes_shared, takes_exclusive, shares-lock_shared, owns-lock_shared,
  shared_set-lock_shared, exclusive_set-lock_shared, txn_id-lock_shared, owns-lock_exclusive,
  shares-lock_exclusive, exclusive_set-lock_exclusive, shared_set-lock_exclusive,
  txn_id-lock_exclusive,
}
use samehada_db.Access.Lock.Release.{
  HasDistinct-lock_shared, HasDistinct-lock_exclusive, HasDistinct-unlock, shares-release_locks,
  owns-release_locks,
}
use samehada_db.Access.Lock.Schedule.{System, put_txn, IsConsistent, after, start}

pub IsConsistent-start : (m : TwoPlMode) (d : DeadlockMode) → IsConsistent (start m d)
unfolding new_lock_manager shares owns is_contain_txn_id
IsConsistent-start m d = record {
  distinct = λ r. tt;
  shared = λ t r. refl;
  exclusive = λ t r. refl;
  excludes = λ t u r h k. ground arith;
  ids = λ t txn h. cc;
}

is_owned_of_owns : (lm : LockManager) (u : ℕ) (r : Rid) → owns lm u r ≡ true → is_owned lm r ≡ true
unfolding owns is_owned
is_owned_of_owns lm u r h = ground arith

-- A sole holder is every holder.
sole_holder :
    (lm : LockManager) (t u : ℕ) (r : Rid) → sole lm t r ≡ true → shares lm u r ≡ true → t ≡ u
unfolding sole shares is_contain_txn_id
sole_holder lm t u r h k = ground arith

pub owner_unique :
    (lm : LockManager) (t u : ℕ) (r : Rid) → owns lm t r ≡ true → owns lm u r ≡ true → t ≡ u
unfolding owns
owner_unique lm t u r h k = ground arith

takes_shared_lem :
    (lm : LockManager) (txn : Transaction) (rid : Rid)
    → takes_shared lm txn rid ≡ true
    → is_owned lm rid ≡ false
unfolding takes_shared
takes_shared_lem lm txn rid h = ground arith

takes_exclusive_lem :
    (lm : LockManager) (txn : Transaction) (rid : Rid)
    → takes_exclusive lm txn rid ≡ true
    → (is_owned lm rid ≡ false) × (sole lm txn.txn_id rid ≡ true)
unfolding takes_exclusive
takes_exclusive_lem lm txn rid h = ground arith

-- Where the lock sets tell the truth, an upgrade that returns does what `LockExclusive` does.
upgrade_reply :
    (lm : LockManager) (txn : Transaction) (rid : Rid) (r : Reply)
    → (is_shared_locked txn rid ≡ true → shares lm txn.txn_id rid ≡ true)
    → lock_upgrade lm txn rid ≡ done r
    → r ≡ lock_exclusive lm txn rid
unfolding lock_upgrade lock_exclusive shares is_contain_txn_id
upgrade_reply lm txn rid r truth h = ground arith

module _ (s : System) (c : IsConsistent s) (t : ℕ) (txn : Transaction)
    (e : s.txns t ≡ some txn) where
  pub after_shared-IsConsistent :
      (rid : Rid) → IsConsistent (after s t (lock_shared s.manager txn rid))
  after_shared-IsConsistent rid = record {
    distinct = HasDistinct-lock_shared s.manager txn rid c.distinct;
    shared = λ u r. ground (
      arith,
      c.shared u r,
      c.ids t txn e,
      shares-lock_shared s.manager txn rid u r,
      shared_set-lock_shared s.manager txn rid r,
    );
    exclusive = λ u r. ground (
      arith,
      c.exclusive u r,
      owns-lock_shared s.manager txn rid u r,
      exclusive_set-lock_shared s.manager txn rid,
    );
    excludes = λ u v r h k. ground (
      arith,
      c.excludes u v r,
      is_owned_of_owns s.manager u r,
      owns-lock_shared s.manager txn rid u r,
      shares-lock_shared s.manager txn rid v r,
      takes_shared_lem s.manager txn rid,
      rid_eq_iff r rid,
    );
    ids = λ u x h. ground (arith, c.ids u x, c.ids t txn e, txn_id-lock_shared s.manager txn rid);
  }

  pub after_exclusive-IsConsistent :
      (rid : Rid) → IsConsistent (after s t (lock_exclusive s.manager txn rid))
  after_exclusive-IsConsistent rid = record {
    distinct = HasDistinct-lock_exclusive s.manager txn rid c.distinct;
    shared = λ u r. ground (
      arith,
      c.shared u r,
      shares-lock_exclusive s.manager txn rid u r,
      shared_set-lock_exclusive s.manager txn rid,
    );
    exclusive = λ u r. ground (
      arith,
      c.exclusive u r,
      c.ids t txn e,
      owns-lock_exclusive s.manager txn rid u r,
      exclusive_set-lock_exclusive s.manager txn rid r,
    );
    excludes = λ u v r h k. ground (
      arith,
      c.excludes u v r,
      owns-lock_exclusive s.manager txn rid u r,
      shares-lock_exclusive s.manager txn rid v r,
      takes_exclusive_lem s.manager txn rid,
      sole_holder s.manager txn.txn_id v r,
      rid_eq_iff r rid,
    );
    ids =
        λ u x h. ground (arith, c.ids u x, c.ids t txn e, txn_id-lock_exclusive s.manager txn rid);
  }

  pub after_upgrade-IsConsistent :
      (rid : Rid) (r : Reply) → lock_upgrade s.manager txn rid ≡ done r → IsConsistent (after s t r)
  after_upgrade-IsConsistent rid r h =
      rw (upgrade_reply s.manager txn rid r (λ k. ground (arith, c.shared t rid, c.ids t txn e)) h)
        (after_exclusive-IsConsistent rid)

  pub after_finish-IsConsistent :
      IsConsistent (record { manager = release_locks s.manager txn; txns = put_txn t none s.txns })
  after_finish-IsConsistent = record {
    distinct =
        unfold release_locks in
        HasDistinct-unlock s.manager txn.txn_id (txn.exclusive_lock_set ++ txn.shared_lock_set)
          c.distinct;
    shared = λ u r.
        ground
          (arith, c.shared u r, c.ids t txn e, shares-release_locks s.manager txn u r c.distinct);
    exclusive =
        λ u r. ground (arith, c.exclusive u r, c.ids t txn e, owns-release_locks s.manager txn u r);
    excludes = λ u v r h k. ground (
      arith,
      c.excludes u v r,
      shares-release_locks s.manager txn v r c.distinct,
      owns-release_locks s.manager txn u r,
    );
    ids = λ u x h. ground (arith, c.ids u x);
  }

  pub after_work-IsConsistent :
      (txn' : Transaction)
      → txn'.txn_id ≡ txn.txn_id
      → txn'.shared_lock_set ≡ txn.shared_lock_set
      → txn'.exclusive_lock_set ≡ txn.exclusive_lock_set
      → IsConsistent (record s { txns = put_txn t (some txn') s.txns })
  after_work-IsConsistent txn' i sh ex = record {
    distinct = c.distinct;
    shared = λ u r. ground (arith, c.shared u r);
    exclusive = λ u r. ground (arith, c.exclusive u r);
    excludes = c.excludes;
    ids = λ u x h. ground (arith, c.ids u x, c.ids t txn e);
  }

pub after_begin-IsConsistent :
    (s : System) (t : ℕ)
    → IsConsistent s
    → s.txns t ≡ none
    → IsConsistent (record s { txns = put_txn t (some (new_transaction t)) s.txns })
unfolding new_transaction is_contains_rid
after_begin-IsConsistent s t c e = record {
  distinct = c.distinct;
  shared = λ u r. ground (arith, c.shared u r);
  exclusive = λ u r. ground (arith, c.exclusive u r);
  excludes = c.excludes;
  ids = λ u x h. ground (arith, c.ids u x);
}

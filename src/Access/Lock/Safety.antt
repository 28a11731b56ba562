-- ===== src/Access/Lock/Safety.antt =====
-- What holds of the locks of lib/storage/access/lock_manager.go however the live transactions
-- interleave.
use samehada_db.Prelude.{ℕ, ◌≡◌, true, false, ◌||◌, some, arith, ◌==◌, if◌then◌else◌}
use samehada_db.Access.Rid.{Rid}
use samehada_db.Access.Txn.{Transaction}
use samehada_db.Access.Lock.{TwoPlMode, DeadlockMode, release_locks}
use samehada_db.Access.Lock.Holdings.{shares, owns}
use samehada_db.Access.Lock.Release.{shares-release_locks, owns-release_locks}
use samehada_db.Access.Lock.Schedule.{
  System, in_shared_set, in_exclusive_set, IsConsistent, Step, begin, shared, exclusive, upgrade,
  finish, work, Reach, here, next, start,
}
use samehada_db.Access.Lock.Preserved.{
  IsConsistent-start, owner_unique, after_begin-IsConsistent, after_shared-IsConsistent,
  after_exclusive-IsConsistent, after_upgrade-IsConsistent, after_finish-IsConsistent,
  after_work-IsConsistent,
}

pub Step-IsConsistent : {s s' : System} → Step s s' → IsConsistent s → IsConsistent s'
Step-IsConsistent {s} (begin t e p) c = rw p (after_begin-IsConsistent s t c e)
Step-IsConsistent {s} (shared t txn rid e p) c = rw p (after_shared-IsConsistent s c t txn e rid)
Step-IsConsistent {s} (exclusive t txn rid e p) c =
    rw p (after_exclusive-IsConsistent s c t txn e rid)
Step-IsConsistent {s} (upgrade t txn rid r e h p) c =
    rw p (after_upgrade-IsConsistent s c t txn e rid r h)
Step-IsConsistent {s} (finish t txn e p) c = rw p (after_finish-IsConsistent s c t txn e)
Step-IsConsistent {s} (work t txn txn' e i sh ex p) c =
    rw p (after_work-IsConsistent s c t txn e txn' i sh ex)

Reach-IsConsistent : {s s' : System} → IsConsistent s → Reach s s' → IsConsistent s'
Reach-IsConsistent c here = c
Reach-IsConsistent c (next r st) = Step-IsConsistent st (Reach-IsConsistent c r)

-- However the live transactions interleave their calls from empty lock tables, nobody shares or
-- owns a record that another transaction owns.
pub mutual_exclusion :
    (m : TwoPlMode) (d : DeadlockMode) (s : System) (t u : ℕ) (r : Rid)
    → Reach (start m d) s
    → owns s.manager t r ≡ true
    → (shares s.manager u r || owns s.manager u r) ≡ true
    → t ≡ u
mutual_exclusion m d s t u r reach h k = ground (
  arith,
  (Reach-IsConsistent (IsConsistent-start m d) reach).excludes t u r,
  owner_unique s.manager t u r,
)

-- However the live transactions interleave their calls from empty lock tables, the tables hold a
-- transaction under a record exactly if the transaction is live and has the record in its lock set
-- of that mode.
pub tables_agree_with_sets :
    (m : TwoPlMode) (d : DeadlockMode) (s : System) (t : ℕ) (r : Rid)
    → Reach (start m d) s
    → (shares s.manager t r ≡ in_shared_set s t r) × (owns s.manager t r ≡ in_exclusive_set s t r)
tables_agree_with_sets m d s t r reach =
    let c : IsConsistent s = Reach-IsConsistent (IsConsistent-start m d) reach in
    (c.shared t r, c.exclusive t r)

-- When a live transaction releases its locks, in any reachable state, it holds no lock at all
-- afterwards, and every lock of any other transaction is as it was.
pub release_is_complete :
    (m : TwoPlMode) (d : DeadlockMode) (s : System) (t : ℕ) (txn : Transaction) (u : ℕ) (r : Rid)
    → Reach (start m d) s
    → s.txns t ≡ some txn
    → (shares (release_locks s.manager txn) u r ≡ (if u == t then false else shares s.manager u r))
      × (owns (release_locks s.manager txn) u r ≡ (if u == t then false else owns s.manager u r))
release_is_complete m d s t txn u r reach e =
    let c : IsConsistent s = Reach-IsConsistent (IsConsistent-start m d) reach in
    (
      ground
          (arith, c.shared u r, c.ids t txn e, shares-release_locks s.manager txn u r c.distinct),
      ground (arith, c.exclusive u r, c.ids t txn e, owns-release_locks s.manager txn u r),
    )

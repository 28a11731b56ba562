-- ===== src/TxnManager/Reversal.antt =====
-- `Abort` of lib/storage/access/transaction_manager.go takes back what the transaction wrote.
use samehada_db.Prelude.{
  ℕ, ◌≡◌, Bool, true, false, Option, List, [], ◌∷◌, if◌then◌else◌, Outcome, done, ◌>>=◌,
}
use samehada_db.Access.Rid.{Rid, rid_eq}
use samehada_db.Access.Txn.{WriteRecord, WType, insert, delete, update, reserve_space}
use samehada_db.Recovery.Append.Stream.{IsManager}
use samehada_db.TxnManager.{Db, TableOps}

-- A call that returns with the tables as `v` says.
abbrev pub Back : {W V : Type 0} → (W → V) → Outcome (Db W) → V → Type 0
Back {W} view o v = (db : Db W) × (o ≡ done db) × (view db.world ≡ v) × IsManager db.log_manager

-- What the calls on rows and index entries do to the tables as a client sees them: a rollback takes
-- back a mark of deletion, `ApplyDelete` an insertion, `UpdateTuple` with the old row an update in
-- place, and entries of indexes are no part of what is seen.
pub record AreReversible {W V : Type 0} (ops : TableOps W) (view : W → V)
    (Marked Inserted : ℕ → Rid → V → V → Type 0)
    (Updated : ℕ → Rid → Option (List ℕ) → Option (List ℕ) → V → V → Type 0) : Type 0 where
  pub rollback_delete :
      (t : ℕ) (r : Rid) (db : Db W) (v : V)
      → IsManager db.log_manager
      → Marked t r v (view db.world)
      → Back view (ops.rollback_delete t r db) v
  pub apply_delete :
      (t : ℕ) (r : Rid) (db : Db W) (v : V)
      → IsManager db.log_manager
      → Inserted t r v (view db.world)
      → Back view (ops.apply_delete t r db) v
  pub update_tuple :
      (t : ℕ) (r : Rid) (tuple1 tuple2 : Option (List ℕ)) (db : Db W) (v : V)
      → IsManager db.log_manager
      → Updated t r tuple1 tuple2 v (view db.world)
      → (db' : Db W) × (ops.update_tuple t tuple1 tuple2 r db ≡ done (true, false, db'))
        × (view db'.world ≡ v)
        × IsManager db'.log_manager
  pub insert_entry :
      (i : ℕ) (t : Option (List ℕ)) (r : Rid) (db : Db W)
      → IsManager db.log_manager
      → Back view (ops.insert_entry i t r db) (view db.world)
  pub delete_entry :
      (i : ℕ) (t : Option (List ℕ)) (r : Rid) (db : Db W)
      → IsManager db.log_manager
      → Back view (ops.delete_entry i t r db) (view db.world)
  pub update_entry :
      (i : ℕ) (t : Option (List ℕ)) (r : Rid) (t' : Option (List ℕ)) (r' : Rid) (db : Db W)
      → IsManager db.log_manager
      → Back view (ops.update_entry i t r t' r' db) (view db.world)
  pub key_differs :
      (i oid : ℕ) (t t' : Option (List ℕ)) → (b : Bool) × (ops.key_differs i oid t t' ≡ done b)

module _ {W V : Type 0} (ops : TableOps W) (view : W → V)
    (Marked Inserted : ℕ → Rid → V → V → Type 0)
    (Updated : ℕ → Rid → Option (List ℕ) → Option (List ℕ) → V → V → Type 0)
    (laws : AreReversible ops view Marked Inserted Updated) where
  -- What a write record says was done.
  unfoldable pub Made : WType → WriteRecord → V → V → Type 0
  Made delete item v v' = Marked item.table item.rid1 v v'
  Made insert item v v' = Inserted item.table item.rid1 v v'
  Made update item v v' =
      if rid_eq item.rid1 item.rid2
      then Updated item.table item.rid1 item.tuple1 item.tuple2 v v'
      else ((u : V) × Marked item.table item.rid1 v u × Inserted item.table item.rid2 u v')
  Made reserve_space item v v' = v ≡ v'

  abbrev MadeIf : WriteRecord → V → V → Bool → Type 0
  MadeIf item v v' same =
      if same
      then Updated item.table item.rid1 item.tuple1 item.tuple2 v v'
      else ((u : V) × Marked item.table item.rid1 v u × Inserted item.table item.rid2 u v')

  unfoldable pub Writes : List WriteRecord → V → V → Type 0
  unfolding Made
  Writes [] v v' = v ≡ v'
  Writes (item ∷ items) v v' = (u : V) × Made item.wtype item v u × Writes items u v'

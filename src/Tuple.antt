-- ===== src/Tuple.antt =====
-- lib/storage/tuple/tuple.go: a record's bytes.
use samehada_db.Prelude.{ℕ, Option, none, List, []}
use samehada_db.Access.Rid.{Rid}

pub record Tuple : Type 0 where
  pub rid : Option Rid
  pub size : ℕ
  pub data_bytes : List ℕ

abbrev pub new_tuple : Option Rid → ℕ → List ℕ → Tuple
new_tuple rid size data_bytes = record { rid = rid; size = size; data_bytes = data_bytes }

-- `new(tuple.Tuple)`
abbrev pub dummy_tuple : Tuple
dummy_tuple = new_tuple none 0 []

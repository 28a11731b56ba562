-- ===== src/Hash/Tests.antt =====
-- Runs and witnesses for the hash table of lib/container/hash, on a table of two blocks.
use samehada_db.Prelude.{
  ℕ, ◌≡◌, ◌↔◌, refl, sym, ap, subst, ◌∙◌, done-injective, true, Option, none, some, List, [], ◌∷◌,
  Outcome, done, ◌>>=◌, arith,
}
use samehada_db.Hash.Bits.{test_bit, set_bit, clear_bit}
use samehada_db.Hash.Memory.{Pages, zero_block, zero_header}
use samehada_db.Hash.Table.{
  LinearProbeHashTable, InsertError, duplicated_values, new_linear_probe_hash_table, get_value,
  insert_value, remove_value,
}
use samehada_db.Hash.Walk.{IsReleased}
use samehada_db.Hash.Insert.Around.{place_of}
use samehada_db.Hash.Reach.{is_member}
use samehada_db.Hash.Content.{
  Holds, IsSound, Inserted, get_value_holds, insert_value_adds, remove_value_takes,
}
use samehada_db.Hash.Start.{new_linear_probe_hash_table_lem}

abbrev no_pages : Pages
no_pages = record {
  header_pages = λ _. zero_header;
  block_pages = λ _. zero_block;
  pin_counts = λ _. 0;
  dirty = λ _. true;
  flushed = λ _. none;
  next_page_id = 0;
}

-- a hash with collisions: 251 starts at the last of the 504 slots, and 252 at the first
abbrev first_byte : List ℕ → ℕ
first_byte [] = 0
first_byte (b ∷ bytes) = b

abbrev collision_run : Outcome (List ℕ × List ℕ × Option InsertError)
collision_run = do
  (ht, s) ← new_linear_probe_hash_table 2 none no_pages
  (e1, s) ← insert_value first_byte ht (251 ∷ []) 7 s
  (e2, s) ← insert_value first_byte ht (251 ∷ 1 ∷ []) 8 s
  (e3, s) ← insert_value first_byte ht (251 ∷ []) 9 s
  (e4, s) ← insert_value first_byte ht (252 ∷ []) 8 s
  s ← remove_value first_byte ht (251 ∷ []) 8 s
  (vs, s) ← get_value first_byte ht (251 ∷ []) s
  (ws, s) ← get_value first_byte ht (252 ∷ []) s
  done (vs, ws, e4)

-- the value 8 of another key keeps the pair of 252 and 8 out
collision_test : collision_run ≡ done (7 ∷ 9 ∷ [], [], some duplicated_values)
unfolding new_linear_probe_hash_table insert_value remove_value get_value test_bit set_bit clear_bit
collision_test = refl

abbrev state_of : {A : Type 0} → Outcome (A × Pages) → Pages
state_of (done (a, s)) = s
state_of _ = no_pages

abbrev table : LinearProbeHashTable
table = record { header_page_id = 0 }

-- the table made, and with its first pair
abbrev made : Pages
made = state_of (new_linear_probe_hash_table 2 none no_pages)

abbrev filled : Pages
filled = state_of (insert_value first_byte table (251 ∷ []) 7 made)

made_eq : new_linear_probe_hash_table 2 none no_pages ≡ done (table, made)
unfolding new_linear_probe_hash_table
made_eq = refl

made-IsSound : IsSound table made
made-IsSound = do
  let (ht, s, ran, sound, _, _, _) =
      new_linear_probe_hash_table_lem 2 no_pages (omega arith) (omega arith)
  subst (λ x. IsSound x.0 x.1) (done-injective (sym ran ∙ made_eq)) sound

state_of_done :
    {A : Type 0} {a : A} {m : Outcome (A × Pages)} {s : Pages} → m ≡ done (a, s) → s ≡ state_of m
state_of_done e = sym (ap state_of e)

filled-IsSound : IsSound table filled
filled-IsSound = do
  let (err, s, ran, _, sound, _) = insert_value_adds first_byte table (251 ∷ []) 7 made made-IsSound
  subst (IsSound table) (state_of_done ran) sound

get_value_holds_example :
    (vs : List ℕ) × (s' : Pages) × (get_value first_byte table (251 ∷ 3 ∷ []) filled
      ≡ done (vs, s'))
    × ((v : ℕ) → (is_member v vs ≡ true) ↔ Holds table filled 251 v)
    × (s'.block_pages ≡ filled.block_pages)
    × IsReleased filled s'
get_value_holds_example = get_value_holds first_byte table (251 ∷ 3 ∷ []) filled filled-IsSound

insert_value_adds_example :
    (err : Option InsertError) × (s' : Pages) × (insert_value first_byte table
        (251 ∷ 3 ∷ [])
        8
        filled
      ≡ done (err, s'))
    × Inserted first_byte table 251 8 filled err s'
        (place_of first_byte table (251 ∷ 3 ∷ []) 8 filled)
    × IsSound table s'
    × IsReleased filled s'
insert_value_adds_example =
    insert_value_adds first_byte table (251 ∷ 3 ∷ []) 8 filled filled-IsSound

remove_value_takes_example :
    (s' : Pages) × (remove_value first_byte table (251 ∷ []) 7 filled ≡ done s')
    × ((k w : ℕ) → Holds table s' k w ↔ (Holds table filled k w × (((k ≡ 251) × (w ≡ 7)) → ⊥)))
    × IsSound table s'
    × IsReleased filled s'
remove_value_takes_example = remove_value_takes first_byte table (251 ∷ []) 7 filled filled-IsSound

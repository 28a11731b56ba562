-- ===== src/Buffer/Page.antt =====
-- The page of lib/storage/page/page.go that a frame holds, without its latch. A page id is an `int32`
-- that is only compared for equality, so it is kept as its bit pattern.
use samehada_db.Prelude.{ℕ, Bool, false, List, replicate, length}
use samehada_db.Prelude.Int.{ℤ, pos, ◌+ℤ◌, ◌-ℤ◌}
use samehada_db.Types.Value.Arith.{wrap32}

pub record Page : Type 0 where
  pub id : ℕ
  pub pin_count : ℤ
  pub is_dirty : Bool
  pub is_deallocated : Bool
  pub data_bytes : List ℕ

abbrev pub inc_pin_count : Page → Page
inc_pin_count p = record p { pin_count = wrap32 (p.pin_count +ℤ pos 1) }

abbrev pub dec_pin_count : Page → Page
dec_pin_count p = record p { pin_count = wrap32 (p.pin_count -ℤ pos 1) }

abbrev pub set_is_dirty : Page → Bool → Page
set_is_dirty p d = record p { is_dirty = d }

abbrev pub new_page_object : ℕ → Bool → List ℕ → Page
new_page_object id is_dirty bytes = record {
  id = id;
  pin_count = pos 1;
  is_dirty = is_dirty;
  is_deallocated = false;
  data_bytes = bytes;
}

abbrev pub new_empty : ℕ → List ℕ → Page
new_empty id bytes = new_page_object id false bytes

-- `memClr`
abbrev pub mem_clr : List ℕ → List ℕ
mem_clr bytes = replicate (length bytes) 0

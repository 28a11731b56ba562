-- ===== src/Access/TablePage/Memory.antt =====
-- The bytes of a page (lib/storage/page/page.go, `data` and `Copy`) and the slices of it that
-- lib/storage/access/table_page.go reads and writes. What lies beyond the page is never read.
use samehada_db.Prelude.{
  ℕ, zero, suc, ◌+◌, ◌-◌, ◌*◌, ◌^◌, ◌≤◌, ◌<◌, ◌≡◌, refl, ap, true, false, ◌&&◌, ◌||◌, List, [], ◌∷◌,
  arith, leb, ltb, if◌then◌else◌, length,
}
use samehada_db.Types.Word.{put32}

abbrev pub page_size : ℕ
page_size = 4096

abbrev pub Mem : Type 0
Mem = ℕ → ℕ

-- the i-th byte, and 0 past the end
abbrev pub byte_at : List ℕ → ℕ → ℕ
byte_at [] i = 0
byte_at (b ∷ l) zero = b
byte_at (b ∷ l) (suc i) = byte_at l i

-- `copy(data[off:], bytes)` for an offset in the page: what does not fit is dropped
unfoldable pub blit : Mem → ℕ → List ℕ → Mem
blit m off bytes i =
    if leb off i && ltb i (off + length bytes) && ltb i page_size
    then byte_at bytes (i - off)
    else m i

-- `copy(data[dst:], data[src:stop])`: Go copies as if through a second array
unfoldable pub move : Mem → ℕ → ℕ → ℕ → Mem
move m dst src stop i =
    if leb dst i && ltb i (dst + (stop - src)) && ltb i page_size then m (src + (i - dst)) else m i

-- `copy` from the page into a fresh slice of `n` bytes
unfoldable pub read : Mem → ℕ → ℕ → List ℕ
read m off zero = []
read m off (suc n) = (if ltb off page_size then m off else 0) ∷ read m (suc off) n

-- `NewUInt32FromBytes(data[off:])`: 0 if fewer than four bytes are left
unfoldable pub get_u32 : Mem → ℕ → ℕ
get_u32 m off =
    if leb (off + 4) page_size
    then m off + m (off + 1) * 256 + m (off + 2) * 65536 + m (off + 3) * 16777216
    else 0

abbrev pub set_u32 : Mem → ℕ → ℕ → Mem
set_u32 m off v = blit m off (put32 v)

pub blit_other :
    (m : Mem) (off : ℕ) (bytes : List ℕ) (i : ℕ)
    → (leb off i && ltb i (off + length bytes)) ≡ false
    → blit m off bytes i ≡ m i
unfolding blit
blit_other m off bytes i h = ground arith

byte_at-cancel : (bytes : List ℕ) (off k : ℕ) → byte_at bytes (off + k - off) ≡ byte_at bytes k
byte_at-cancel bytes off k = ap (byte_at bytes) (omega arith)

pub blit_inside :
    (m : Mem) (off : ℕ) (bytes : List ℕ) (k : ℕ)
    → k < length bytes
    → off + length bytes ≤ page_size
    → blit m off bytes (off + k) ≡ byte_at bytes k
unfolding blit
blit_inside m off bytes k h l = ground (arith, byte_at-cancel bytes off k)

pub get_u32_ext :
    (m m' : Mem) (off : ℕ)
    → ((i : ℕ) → off ≤ i → i < off + 4 → m' i ≡ m i)
    → get_u32 m' off ≡ get_u32 m off
unfolding get_u32
get_u32_ext m m' off h = ground (
  arith,
  h off (omega arith) (omega arith),
  h (off + 1) (omega arith) (omega arith),
  h (off + 2) (omega arith) (omega arith),
  h (off + 3) (omega arith) (omega arith),
)

pub get_u32-set_u32 :
    (m : Mem) (off v : ℕ) → off + 4 ≤ page_size → v < 2 ^ 32 → get_u32 (set_u32 m off v) off ≡ v
unfolding get_u32
get_u32-set_u32 m off v h k = ground (
  arith,
  blit_inside m off (put32 v) 0 (omega arith) (omega arith),
  blit_inside m off (put32 v) 1 (omega arith) (omega arith),
  blit_inside m off (put32 v) 2 (omega arith) (omega arith),
  blit_inside m off (put32 v) 3 (omega arith) (omega arith),
)

pub get_u32-blit :
    (m : Mem) (off : ℕ) (bytes : List ℕ) (o : ℕ)
    → (leb (o + 4) off || leb (off + length bytes) o) ≡ true
    → get_u32 (blit m off bytes) o ≡ get_u32 m o
get_u32-blit m off bytes o h =
    get_u32_ext m (blit m off bytes) o (λ i k l. blit_other m off bytes i (ground arith))

pub get_u32-move :
    (m : Mem) (dst src stop : ℕ) (o : ℕ)
    → o + 4 ≤ dst
    → get_u32 (move m dst src stop) o ≡ get_u32 m o
unfolding move
get_u32-move m dst src stop o h = get_u32_ext m (move m dst src stop) o (λ i k l. ground arith)

pub read_ext :
    (m m' : Mem) (o o' n : ℕ)
    → o + n ≤ page_size
    → o' + n ≤ page_size
    → ((i : ℕ) → i < n → m' (o' + i) ≡ m (o + i))
    → read m' o' n ≡ read m o n
unfolding read
read_ext m m' o o' zero h k e = refl
read_ext m m' o o' (suc n) h k e = ground (
  arith,
  e 0 (omega arith),
  read_ext m m' (suc o) (suc o') n (omega arith) (omega arith)
      (λ i l. ground (arith, e (suc i) (omega arith))),
)

pub length-read : (m : Mem) (o n : ℕ) → length (read m o n) ≡ n
unfolding read
length-read m o zero = refl
length-read m o (suc n) = ap suc (length-read m (suc o) n)

read_bytes :
    (m : Mem) (o : ℕ) (bytes : List ℕ)
    → o + length bytes ≤ page_size
    → ((i : ℕ) → i < length bytes → m (o + i) ≡ byte_at bytes i)
    → read m o (length bytes) ≡ bytes
unfolding read
read_bytes m o [] h e = refl
read_bytes m o (b ∷ l) h e = ground (
  arith,
  e 0 (omega arith),
  read_bytes m (suc o) l (omega arith) (λ i k. ground (arith, e (suc i) (omega arith))),
)

pub read-blit :
    (m : Mem) (o : ℕ) (bytes : List ℕ)
    → o + length bytes ≤ page_size
    → read (blit m o bytes) o (length bytes) ≡ bytes
read-blit m o bytes h = read_bytes (blit m o bytes) o bytes h (λ i k. blit_inside m o bytes i k h)

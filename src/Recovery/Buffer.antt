-- ===== src/Recovery/Buffer.antt =====
-- The log buffer of lib/recovery/log_manager.go: an array of bytes, `copy` into a slice of it, and
-- what its first bytes are.
use samehada_db.Prelude.{
  ℕ, zero, suc, ◌+◌, ◌-◌, ◌*◌, ◌≤◌, ◌<◌, ◌≡◌, refl, ap, ◌∙◌, ◌&&◌, List, [], ◌∷◌, ◌++◌, arith, ltb,
  leb, if◌then◌else◌, length, Outcome, done, panic,
}
use samehada_db.Access.TablePage.Memory.{byte_at}

-- `common.LogBufferSize`, 129 pages
abbrev pub log_buffer_size : ℕ
log_buffer_size = 129 * 4096

abbrev pub Buffer : Type 0
Buffer = ℕ → ℕ

-- the bytes that `copy(buf[off:], bytes)` leaves: what does not fit is dropped
unfoldable pub write_bytes : Buffer → ℕ → List ℕ → Buffer
write_bytes buf off bytes i =
    if leb off i && ltb i (off + length bytes) && ltb i log_buffer_size
    then byte_at bytes (i - off)
    else buf i

-- the copy itself, which panics if the slice starts behind the end
unfoldable pub copy_at : Buffer → ℕ → List ℕ → Outcome Buffer
copy_at buf off bytes = if leb off log_buffer_size then done (write_bytes buf off bytes) else panic

-- `buf[off:off+n]`
unfoldable pub contents : Buffer → ℕ → ℕ → List ℕ
contents buf off zero = []
contents buf off (suc n) = buf off ∷ contents buf (suc off) n

same_contents :
    (buf : Buffer) (o o' n n' : ℕ) → o ≡ o' → n ≡ n' → contents buf o n ≡ contents buf o' n'
same_contents buf o o' n n' e k = ap (λ i. contents buf i n) e ∙ ap (contents buf o') k

pub contents-append :
    (buf : Buffer) (off a b : ℕ)
    → contents buf off (a + b) ≡ contents buf off a ++ contents buf (off + a) b
unfolding contents
contents-append buf off zero b =
    same_contents buf off (off + 0) (0 + b) b (omega arith) (omega arith)
contents-append buf off (suc a) b = do
  let split : contents buf off (suc a + b) ≡ contents buf off (suc (a + b)) =
      same_contents buf off off (suc a + b) (suc (a + b)) refl (omega arith)
  let rest : contents buf (suc off + a) b ≡ contents buf (off + suc a) b =
      same_contents buf (suc off + a) (off + suc a) b b (omega arith) refl
  split
      ∙ ap (◌∷◌ (buf off))
          (contents-append buf (suc off) a b ∙ ap (λ l. contents buf (suc off) a ++ l) rest)

contents_ext :
    (buf buf' : Buffer) (off n : ℕ)
    → ((i : ℕ) → off ≤ i → i < off + n → buf' i ≡ buf i)
    → contents buf' off n ≡ contents buf off n
unfolding contents
contents_ext buf buf' off zero same = refl
contents_ext buf buf' off (suc n) same = ground (
  arith,
  same off (omega arith) (omega arith),
  contents_ext buf buf' (suc off) n (λ i h k. same i (omega arith) (omega arith)),
)

pub contents-before :
    (buf : Buffer) (off : ℕ) (bytes : List ℕ) (o n : ℕ)
    → o + n ≤ off
    → contents (write_bytes buf off bytes) o n ≡ contents buf o n
unfolding write_bytes
contents-before buf off bytes o n h =
    contents_ext buf (write_bytes buf off bytes) o n (λ i k l. ground arith)

no_distance : (off : ℕ) → off - off ≡ 0
no_distance off = omega arith

distance : (i off : ℕ) → suc off ≤ i → i - off ≡ suc (i - suc off)
distance i off h = omega arith

byte_at-shift :
    (b : ℕ) (bytes : List ℕ) (i off : ℕ)
    → suc off ≤ i
    → byte_at (b ∷ bytes) (i - off) ≡ byte_at bytes (i - suc off)
byte_at-shift b bytes i off h = ap (byte_at (b ∷ bytes)) (distance i off h)

pub contents-written :
    (buf : Buffer) (off : ℕ) (bytes : List ℕ)
    → off + length bytes ≤ log_buffer_size
    → contents (write_bytes buf off bytes) off (length bytes) ≡ bytes
unfolding contents write_bytes
contents-written buf off [] h = refl
contents-written buf off (b ∷ bytes) h = do
  let first : write_bytes buf off (b ∷ bytes) off ≡ b = ground (arith, no_distance off)
  let rest =
      contents_ext (write_bytes buf (suc off) bytes) (write_bytes buf off (b ∷ bytes)) (suc off)
        (length bytes) (λ i k l. ground (arith, byte_at-shift b bytes i off k))
  ground (arith, first, rest, contents-written buf (suc off) bytes (omega arith))

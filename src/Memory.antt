-- ===== src/Memory.antt =====
-- Byte memory with the little-endian words that the target uses: the bytes behind
-- `tXcpDaqLists.u` and the message buffers of the transmit queue.
use xcplite.Prelude.{ℕ, ◌+◌, ◌*◌, ◌/◌, ◌%◌, ◌≤◌, ◌<◌, ◌≡◌, ◌⊎◌, if◌then◌else◌, ◌==◌, arith}

abbrev pub Bytes : Type 0
Bytes = ℕ → ℕ

-- memset(p, 0, n)
unfoldable pub cleared : Bytes
cleared i = 0

-- *(uint8_t *)(m + o), *(uint16_t *)(m + o) and *(uint32_t *)(m + o)
unfoldable pub get8 : Bytes → ℕ → ℕ
get8 m o = m o

unfoldable pub get16 : Bytes → ℕ → ℕ
get16 m o = m o + 256 * m (o + 1)

unfoldable pub get32 : Bytes → ℕ → ℕ
get32 m o = m o + 256 * m (o + 1) + 65536 * m (o + 2) + 16777216 * m (o + 3)

-- The same as the target of an assignment; the value is cut to its width.
unfoldable pub put8 : Bytes → ℕ → ℕ → Bytes
put8 m o v i = if i == o then v % 256 else m i

unfoldable pub put16 : Bytes → ℕ → ℕ → Bytes
put16 m o v i = if i == o then v % 256 else if i == o + 1 then v / 256 % 256 else m i

unfoldable pub put32 : Bytes → ℕ → ℕ → Bytes
unfolding put16
put32 m o v = put16 (put16 m o v) (o + 2) (v / 65536)

pub get8-put8 :
    (m : Bytes) (o p v : ℕ) → get8 (put8 m o v) p ≡ (if p == o then v % 256 else get8 m p)
unfolding get8 put8
get8-put8 m o p v = ground arith

pub get8-put16_ne :
    (m : Bytes) (o p v : ℕ) → (p < o) ⊎ (o + 2 ≤ p) → get8 (put16 m o v) p ≡ get8 m p
unfolding get8 put16
get8-put16_ne m o p v h = ground arith

pub get16-put16_self : (m : Bytes) (o v : ℕ) → v < 65536 → get16 (put16 m o v) o ≡ v
unfolding get16 put16
get16-put16_self m o v h = ground arith

pub get16-put16_ne :
    (m : Bytes) (o p v : ℕ) → (p + 2 ≤ o) ⊎ (o + 2 ≤ p) → get16 (put16 m o v) p ≡ get16 m p
unfolding get16 put16
get16-put16_ne m o p v h = ground arith

pub get16-put8_ne :
    (m : Bytes) (o p v : ℕ) → (p + 2 ≤ o) ⊎ (o < p) → get16 (put8 m o v) p ≡ get16 m p
unfolding get16 put8
get16-put8_ne m o p v h = ground arith

pub get16-put32_ne :
    (m : Bytes) (o p v : ℕ) → (p + 2 ≤ o) ⊎ (o + 4 ≤ p) → get16 (put32 m o v) p ≡ get16 m p
unfolding get16 put32
get16-put32_ne m o p v h = ground arith

pub get32-put32_self : (m : Bytes) (o v : ℕ) → v < 4294967296 → get32 (put32 m o v) o ≡ v
unfolding get32 put32
get32-put32_self m o v h = ground arith

pub get8-put32_ne :
    (m : Bytes) (o p v : ℕ) → (p < o) ⊎ (o + 4 ≤ p) → get8 (put32 m o v) p ≡ get8 m p
unfolding get8 put32
get8-put32_ne m o p v h = ground arith

pub get32-put8_ne :
    (m : Bytes) (o p v : ℕ) → (p + 4 ≤ o) ⊎ (o < p) → get32 (put8 m o v) p ≡ get32 m p
unfolding get32 put8
get32-put8_ne m o p v h = ground arith

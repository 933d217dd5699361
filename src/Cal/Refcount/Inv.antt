-- ===== src/Cal/Refcount/Inv.antt =====
-- The invariant of a segment with reference counts, src/cal.c: the counts are the threads that hold the
-- pages, and the server fills no page that a thread reads.
use xcplite.Prelude.{
  ℕ, ◌+◌, ◌≤◌, ◌<◌, ◌≡◌, ◌≢◌, ◌⊎◌, inl, inr, ◌==◌, ltb, if◌then◌else◌, Bool-cases, arith,
}
use native.Mathlib.Nat.{mul-le-mul_right}
use xcplite.Cal.Refcount.{RefSeg, aligned_size, rcu_page}
use xcplite.Cal.Refcount.Steps.{
  Reader, idle, retry, loaded, pinned, stale, reading, reading_default, Writer, rest, searching,
  filling, filled, System,
}
use xcplite.Cal.Refcount.Sum.{sum}

-- whether a thread counts in `page_refs[p]`
abbrev pub holds : ℕ → Reader → ℕ
holds p idle = 0
holds p retry = 0
holds p (loaded q) = 0
holds p (pinned q) = if q == p then 1 else 0
holds p (stale q) = if q == p then 1 else 0
holds p (reading q) = if q == p then 1 else 0
holds p reading_default = 0

pub holds-le : (p : ℕ) (r : Reader) → holds p r ≤ 1
holds-le p idle = omega arith
holds-le p retry = omega arith
holds-le p (loaded q) = omega arith
holds-le p (pinned q) = ground arith
holds-le p (stale q) = ground arith
holds-le p (reading q) = ground arith
holds-le p reading_default = omega arith

-- the server does not fill the page
abbrev pub NotFilled : Writer → ℕ → Type 0
NotFilled rest p = Unit
NotFilled (searching n q idx) p = Unit
NotFilled (filling t) p = p ≢ t
NotFilled (filled t) p = p ≢ t

-- What a thread knows of its page.
abbrev pub Knows : Writer → Reader → Type 0
Knows w idle = Unit
Knows w retry = Unit
Knows w (loaded p) = 1 ≤ p
Knows w (pinned p) = 1 ≤ p
Knows w (stale p) = 1 ≤ p
Knows w (reading p) = (1 ≤ p) × NotFilled w p
Knows w reading_default = Unit

-- What the server knows: the published page is as it was, and the target is another page.
abbrev pub Serves : ℕ → Writer → Type 0
Serves published rest = Unit
Serves published (searching n p idx) = (p ≡ published) × (1 ≤ idx)
Serves published (filling t) = (t ≢ published) × (1 ≤ t)
Serves published (filled t) = (t ≢ published) × (1 ≤ t)

pub record Inv (n : ℕ) (s : System) : Type 0 where
  pub few : n < 65536
  pub writer_page : s.seg.xcp_page ≡ rcu_page s.seg 0
  pub published : 1 ≤ s.seg.published_page
  pub counts : (p : ℕ) → s.seg.page_refs p ≡ sum n (λ i. holds p (s.readers i))
  pub knows : (i : ℕ) → i < n → Knows s.writer (s.readers i)
  pub serves : Serves s.seg.published_page s.writer

-- Different pages do not overlap.
pub pages_apart :
    (c : RefSeg) (i j k : ℕ)
    → i ≢ j
    → k < c.size
    → (rcu_page c i + k < rcu_page c j) ⊎ (rcu_page c j + c.size ≤ rcu_page c i + k)
pages_apart c i j k ne h = elim (Bool-cases (ltb i j)) [
  | inl below ↦ inl (
      omega (
        arith,
        fits,
        h,
        mul-le-mul_right (aligned_size c.size) (before i j (ground (arith, below))),
      ))
  | inr above ↦ inr (
      omega (
        arith,
        fits,
        h,
        mul-le-mul_right (aligned_size c.size) (before j i (ground (arith, above, ne))),
      ))
]
  where
    fits : c.size ≤ aligned_size c.size
    fits = omega arith

    before : (a b : ℕ) → a < b → a + 1 ≤ b
    before a b lt = omega (arith, lt)

-- ===== src/Cal/Refcount/Safety.antt =====
-- What the interleavings at a segment with reference counts guarantee, src/cal.c: nothing that a
-- thread may read is written.
use xcplite.Prelude.{ℕ, ◌+◌, ◌≤◌, ◌<◌, ◌≡◌, ◌≢◌, ◌⊎◌, inl, inr, refl, sym, ap, subst, arith}
use xcplite.Memory.{Bytes}
use xcplite.Cal.{copy_within}
use xcplite.Cal.Refcount.{RefSeg, aligned_size, rcu_page, refcount_init}
use xcplite.Cal.Refcount.Steps.{
  reading, Writer, WriterStep, System, Step, reader_step, writer_step, access_step, Reach, write,
  begin_search, skip, in_use, take_free, give_up, copy_some, copy_rest, announce,
}
use xcplite.Cal.Refcount.Inv.{NotFilled, Knows, Inv, pages_apart}
use xcplite.Cal.Refcount.Kept.{move-fields, published-NotFilled, Reach-Inv}

-- The page is the published one, or one that a thread reads.
abbrev pub InUse : ℕ → System → ℕ → Type 0
InUse n s p = (p ≡ s.seg.published_page) ⊎ ((i : ℕ) × (i < n) × (s.readers i ≡ reading p))

-- a page in use is neither the server's nor the one that the server fills
InUse-safe : (n p : ℕ) (s : System) → Inv n s → InUse n s p → (p ≢ 0) × NotFilled s.writer p
InUse-safe n p s v (inl e) = (
  λ none. absurd (omega (arith, v.published, e, none)),
  published-NotFilled s.writer p (sym e) v.serves,
)
InUse-safe n p s v (inr (i, lt, at)) =
    let k = subst (Knows s.writer) at (v.knows i lt) in
    ((λ none. absurd (omega (arith, k.0, none))), k.1)

-- What a step of the server writes, by where it stands.
writer-b :
    {pages : ℕ} {c c' : RefSeg} {w w' : Writer} (p k : ℕ)
    → WriterStep pages c w c' w'
    → c.xcp_page ≡ rcu_page c 0
    → p ≢ 0
    → NotFilled w p
    → k < c.size
    → c'.b (rcu_page c p + k) ≡ c.b (rcu_page c p + k)
unfolding copy_within
writer-b {pages} {c} p k (write b' only) e ne free h = only (rcu_page c p + k) (
    subst (λ x. (rcu_page c p + k < x) ⊎ (x + c.size ≤ rcu_page c p + k)) (sym e)
      (pages_apart c p 0 k ne h))
writer-b p k begin_search e ne free h = refl
writer-b p k (skip next) e ne free h = refl
writer-b p k (in_use other held) e ne free h = refl
writer-b p k (take_free other unheld) e ne free h = refl
writer-b p k give_up e ne free h = refl
writer-b {pages} {c} p k (copy_some {t} b' only) e ne free h =
    only (rcu_page c p + k) (pages_apart c p t k free h)
writer-b {pages} {c} p k (copy_rest {t}) e ne free h = ground (arith, pages_apart c p t k free h)
writer-b p k announce e ne free h = refl

-- In every interleaving of up to 65535 threads that lock and unlock a segment with a server that
-- writes and publishes, no step changes a byte of the published page, or of a page that a thread has
-- got from its lock and not yet given back.
pub Reach-stable :
    (pages n : ℕ) (c : RefSeg) {s t : System} (p k : ℕ)
    → n < 65536
    → ((q : ℕ) → c.page_refs q ≡ 0)
    → Reach pages n (refcount_init pages (aligned_size c.size) c) s
    → Step pages n s t
    → InUse n s p
    → k < s.seg.size
    → t.seg.b (rcu_page s.seg p + k) ≡ s.seg.b (rcu_page s.seg p + k)
Reach-stable pages n c {s} p k few unpinned r (reader_step i lt step) used h =
    ap (λ (b : Bytes). b (rcu_page s.seg p + k)) (move-fields step).3
Reach-stable pages n c p k few unpinned r (access_step page) used h = refl
Reach-stable pages n c {s} p k few unpinned r (writer_step step) used h =
    let v = Reach-Inv pages n c few unpinned r in
    let safe = InUse-safe n p s v used in writer-b p k step v.writer_page safe.0 safe.1 h

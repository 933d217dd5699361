-- ===== src/Cal/Threads/Safety.antt =====
-- What the interleavings at a calibration segment guarantee: nothing that a thread may read is
-- written.
use xcplite.Prelude.{
  ℕ, ◌+◌, ◌*◌, ◌≤◌, ◌<◌, ◌≡◌, ◌≢◌, ◌⊎◌, inl, inr, refl, sym, ap, ◌∙◌, subst, true, arith,
}
use mathlib.Core.Bool.{false≢true}
use xcplite.Cal.{CalSeg, xcp_calseg_no_page, copy_within}
use xcplite.Cal.Rcu.{rcu_init}
use xcplite.Cal.Threads.{
  Reader, reading, Writer, rest, taken, ReaderStep, WriterStep, System, Step, reader_step,
  writer_step, access_step, Reach, here, then_step, start, lock_first, lock_more, load_next,
  load_ecu, no_update, set_hazard, store_ecu, store_free, choose_default, choose_working, get_page,
  unlock, unlock_default, write, load_free, give_up, load_hazard, take_free, copy_some, copy_rest,
  publish,
}
use xcplite.Cal.Threads.Count.{total-idle}
use xcplite.Cal.Threads.Inv.{is_undecided, Knows, Third, IsPage, Inv}
use xcplite.Cal.Threads.Kept.{reader-Inv, writer-Inv}

-- A fresh segment, its pages initialised for `n` threads: `a` is the aligned page size.
pub record IsFresh (n a : ℕ) (c : CalSeg) : Type 0 where
  pub few : n < 65536
  pub fits : c.size ≤ a
  pub some_bytes : 0 < a
  pub small : 3 * a < xcp_calseg_no_page

start-Inv : (n a : ℕ) (c : CalSeg) → IsFresh n a c → Inv n a (start (rcu_init a c))
unfolding rcu_init
start-Inv n a c v = record {
  third = a + 2 * a;
  few = v.few;
  fits = v.fits;
  some_bytes = v.some_bytes;
  small = v.small;
  count = sym (total-idle n);
  outside = λ i h. refl;
  single = λ i j h k. cc;
  knows = λ i. tt;
  calm = λ i j h. tt;
  pages = record {
    xcp_in = inl (omega arith);
    ecu_in = inr (inl (omega arith));
    third_in = inr (inr (omega arith));
    xcp_ne_ecu = λ e. absurd (omega (arith, e, v.some_bytes));
    xcp_ne_third = λ e. absurd (omega (arith, e, v.some_bytes));
    ecu_ne_third = λ e. absurd (omega (arith, e, v.some_bytes));
    role = inl (refl, refl);
  };
}

access-Inv :
    (n a page : ℕ) (s : System)
    → Inv n a s
    → Inv n a (record s { seg = record s.seg { ecu_access = page } })
access-Inv n a page s inv = record {
  third = inv.third;
  few = inv.few;
  fits = inv.fits;
  some_bytes = inv.some_bytes;
  small = inv.small;
  count = inv.count;
  outside = inv.outside;
  single = inv.single;
  knows = inv.knows;
  calm = inv.calm;
  pages = inv.pages;
}

Step-Inv : (n a : ℕ) {s t : System} → Step n s t → Inv n a s → Inv n a t
Step-Inv n a {s} (reader_step i lt step) inv =
    reader-Inv n a s.seg s.readers s.writer i inv lt step refl
Step-Inv n a {s} (writer_step step) inv = writer-Inv n a s.seg s.readers step inv
Step-Inv n a {s} (access_step page) inv = access-Inv n a page s inv

pub Reach-Inv :
    (n a : ℕ) (c : CalSeg) {s : System} → IsFresh n a c → Reach n (rcu_init a c) s → Inv n a s
Reach-Inv n a c v here = start-Inv n a c v
Reach-Inv n a c v (then_step r st) = Step-Inv n a st (Reach-Inv n a c v r)

-- Two pages of a segment do not overlap.
pub pages_apart :
    (a p q k size : ℕ)
    → IsPage a p
    → IsPage a q
    → p ≢ q
    → size ≤ a
    → k < size
    → (p + k < q) ⊎ (q + size ≤ p + k)
pages_apart a p q k size in_p in_q ne fits h = ground arith

-- The page is the active one, the published one, or one that a thread reads.
abbrev pub InUse : System → ℕ → Type 0
InUse s p = (p ≡ s.seg.ecu_page) ⊎ (p ≡ s.seg.ecu_page_next) ⊎ ((i : ℕ) × (s.readers i ≡ reading p))

-- a page in use is neither the server's nor the one that the server fills
pub InUse-safe :
    (n a p : ℕ) (s : System)
    → Inv n a s
    → InUse s p
    → IsPage a p × (s.seg.xcp_page ≢ p) × ((f : ℕ) → s.writer ≡ taken f → f ≢ p)
InUse-safe n a p s inv used = (where_p used, λ e. not_xcp used e, λ f at e. not_filled used f at e)
  where
    -- the role of the third page while the server fills it
    filled :
        (f : ℕ)
        → s.writer ≡ taken f
        → Third s.seg.ecu_page s.seg.ecu_page_next s.seg.free_page (taken f) inv.third
    filled f at =
        subst (λ w. Third s.seg.ecu_page s.seg.ecu_page_next s.seg.free_page w inv.third) at
          inv.pages.role

    reads : (i : ℕ) → s.readers i ≡ reading p → Knows s.seg s.writer inv.third (reading p)
    reads i at = subst (Knows s.seg s.writer inv.third) at (inv.knows i)

    next_is :
        (w : Writer)
        → Third s.seg.ecu_page s.seg.ecu_page_next s.seg.free_page w inv.third
        → (s.seg.ecu_page_next ≡ s.seg.ecu_page) ⊎ (s.seg.ecu_page_next ≡ inv.third)
    next_is rest (inl h) = inl h.1
    next_is rest (inr (inl h)) = inr h.1
    next_is rest (inr (inr h)) = inl h.1
    next_is (Writer.loaded f) h = inl h.2
    next_is (Writer.cleared f) h = inl h.2
    next_is (taken f) h = inl h.2
    next_is (Writer.copied f) h = inl h.2

    is_ecu_or_third : InUse s p → (p ≡ s.seg.ecu_page) ⊎ (p ≡ inv.third)
    is_ecu_or_third (inl e) = inl e
    is_ecu_or_third (inr (inl e)) = elim (next_is s.writer inv.pages.role) [
      | inl q ↦ inl (e ∙ q)
      | inr q ↦ inr (e ∙ q)
    ]
    is_ecu_or_third (inr (inr (i, at))) = elim (reads i at) [ inl q ↦ inl q | inr q ↦ inr q.0 ]

    where_p : InUse s p → IsPage a p
    where_p u = elim (is_ecu_or_third u) [
      | inl e ↦ subst (IsPage a) (sym e) inv.pages.ecu_in
      | inr e ↦ subst (IsPage a) (sym e) inv.pages.third_in
    ]

    not_xcp : InUse s p → s.seg.xcp_page ≢ p
    not_xcp u e = elim (is_ecu_or_third u) [
      | inl q ↦ inv.pages.xcp_ne_ecu (e ∙ q)
      | inr q ↦ inv.pages.xcp_ne_third (e ∙ q)
    ]

    not_filled : InUse s p → (f : ℕ) → s.writer ≡ taken f → f ≢ p
    not_filled (inl q) f at e = inv.pages.ecu_ne_third (sym q ∙ sym e ∙ (filled f at).0)
    not_filled (inr (inl q)) f at e =
        inv.pages.ecu_ne_third (sym (filled f at).2 ∙ sym q ∙ sym e ∙ (filled f at).0)
    not_filled (inr (inr (i, here_i))) f at e = elim (reads i here_i) [
      | inl q ↦ inv.pages.ecu_ne_third (sym q ∙ sym e ∙ (filled f at).0)
      | inr q ↦ absurd (false≢true (subst (λ w. is_undecided w ≡ true) at q.3))
    ]

reader-b : {c c' : CalSeg} {r r' : Reader} → ReaderStep c r c' r' → c'.b ≡ c.b
reader-b (lock_first z) = refl
reader-b (lock_more nz) = refl
reader-b load_next = refl
reader-b load_ecu = refl
reader-b (no_update e) = refl
reader-b (set_hazard e) = refl
reader-b store_ecu = refl
reader-b store_free = refl
reader-b (choose_default e) = refl
reader-b (choose_working e) = refl
reader-b get_page = refl
reader-b unlock = refl
reader-b unlock_default = refl

-- What a step of the server writes, by where it stands.
writer-b :
    (k : ℕ) {c c' : CalSeg} {w w' : Writer}
    → WriterStep c w c' w'
    → ((w ≡ rest) → (k < c.xcp_page) ⊎ (c.xcp_page + c.size ≤ k))
    → ((f : ℕ) → w ≡ taken f → (k < f) ⊎ (f + c.size ≤ k))
    → c'.b k ≡ c.b k
unfolding copy_within
writer-b k (write b' only) h g = only k (h refl)
writer-b k (load_free ne) h g = refl
writer-b k (give_up e) h g = refl
writer-b k (load_hazard e) h g = refl
writer-b k take_free h g = refl
writer-b k (copy_some {f} b' only) h g = only k (g f refl)
writer-b k {c} (copy_rest {f}) h g = ground (arith, g f refl)
writer-b k publish h g = refl

-- In every interleaving of up to 65535 threads that lock and unlock a segment with a server that
-- writes and publishes, no step changes a byte of a page in use: of the active page, of the page that
-- is published next, or of a page that a thread has got from its lock and not yet given back.
pub Step-stable :
    (n a : ℕ) (c : CalSeg) {s t : System} (p k : ℕ)
    → IsFresh n a c
    → Reach n (rcu_init a c) s
    → Step n s t
    → InUse s p
    → k < s.seg.size
    → t.seg.b (p + k) ≡ s.seg.b (p + k)
Step-stable n a c p k v r (reader_step i lt step) used h = ap (λ b. b (p + k)) (reader-b step)
Step-stable n a c p k v r (access_step page) used h = refl
Step-stable n a c {s} p k v r (writer_step step) used h =
    let inv = Reach-Inv n a c v r in
    let safe = InUse-safe n a p s inv used in
    writer-b (p + k) step
      (λ at_rest.
        pages_apart a p s.seg.xcp_page k s.seg.size safe.0 inv.pages.xcp_in (λ e. safe.1 (sym e))
          inv.fits h)
      (λ f at.
        pages_apart a p f k s.seg.size safe.0 (filled_in inv f at) (λ e. safe.2 f at (sym e))
          inv.fits h)
  where
    filled_in : (inv : Inv n a s) (f : ℕ) → s.writer ≡ taken f → IsPage a f
    filled_in inv f at =
        subst (IsPage a)
          (sym
            (subst (λ w. Third s.seg.ecu_page s.seg.ecu_page_next s.seg.free_page w inv.third) at
              inv.pages.role).0)
          inv.pages.third_in

-- ===== src/Cal/Refcount/Kept.antt =====
-- Every step of a thread or of the server keeps the invariant of a segment with reference counts,
-- src/cal.c.
use xcplite.Prelude.{
  ℕ, ◌+◌, ◌*◌, ◌≤◌, ◌<◌, ◌≡◌, ◌≢◌, refl, sym, ◌∙◌, ap, subst, ◌==◌, if_cases, arith,
}
use xcplite.Cal.Refcount.{RefSeg, aligned_size, refcount_init}
use xcplite.Cal.Refcount.Steps.{
  Reader, idle, retry, loaded, pinned, stale, reading, reading_default, Writer, rest, searching,
  filling, filled, ReaderStep, WriterStep, System, reader_step, writer_step, access_step,
  set_reader, start, Reach, here, then_step, choose_default, choose_working, load, pin_page,
  still_published, no_longer, give_back, unlock, unlock_default, write, begin_search, skip, in_use,
  take_free, give_up, copy_some, copy_rest, announce,
}
use xcplite.Cal.Refcount.Sum.{sum, sum-change, sum-le, le-sum, sum-zero}
use xcplite.Cal.Refcount.Inv.{holds, holds-le, NotFilled, Knows, Serves, Inv}

-- What a step of a thread leaves: all but the counts.
pub move-fields :
    {c c' : RefSeg} {r r' : Reader}
    → ReaderStep c r c' r'
    → (c'.published_page ≡ c.published_page)
      × (c'.xcp_page ≡ c.xcp_page)
      × (c'.size ≡ c.size)
      × (c'.b ≡ c.b)
move-fields (choose_default e) = (refl, refl, refl, refl)
move-fields (choose_working e) = (refl, refl, refl, refl)
move-fields load = (refl, refl, refl, refl)
move-fields pin_page = (refl, refl, refl, refl)
move-fields (still_published e) = (refl, refl, refl, refl)
move-fields (no_longer e) = (refl, refl, refl, refl)
move-fields give_back = (refl, refl, refl, refl)
move-fields unlock = (refl, refl, refl, refl)
move-fields unlock_default = (refl, refl, refl, refl)

-- The counts follow the thread.
move-refs :
    {c c' : RefSeg} {r r' : Reader} (q : ℕ)
    → ReaderStep c r c' r'
    → c.page_refs q + 1 < 65537
    → holds q r ≤ c.page_refs q
    → c.page_refs q + holds q r' < 65536 + holds q r
    → c'.page_refs q + holds q r ≡ c.page_refs q + holds q r'
move-refs q (choose_default e) h k m = refl
move-refs q (choose_working e) h k m = refl
move-refs q load h k m = refl
move-refs q (pin_page {p}) h k m = ground arith
move-refs q (still_published e) h k m = refl
move-refs q (no_longer e) h k m = refl
move-refs q (give_back {p}) h k m = ground arith
move-refs q (unlock {p}) h k m = ground arith
move-refs q unlock_default h k m = refl

pub published-NotFilled :
    (w : Writer) (p : ℕ) {published : ℕ} → published ≡ p → Serves published w → NotFilled w p
published-NotFilled rest p e v = tt
published-NotFilled (searching n q idx) p e v = tt
published-NotFilled (filling t) p e v = λ f. v.0 (sym (e ∙ f))
published-NotFilled (filled t) p e v = λ f. v.0 (sym (e ∙ f))

move-Knows :
    {c c' : RefSeg} {r r' : Reader} (w : Writer)
    → ReaderStep c r c' r'
    → 1 ≤ c.published_page
    → Serves c.published_page w
    → Knows w r
    → Knows w r'
move-Knows w (choose_default e) h v k = tt
move-Knows w (choose_working e) h v k = tt
move-Knows w load h v k = h
move-Knows w pin_page h v k = k
move-Knows w (still_published {p} e) h v k = (k, published-NotFilled w p e v)
move-Knows w (no_longer e) h v k = k
move-Knows w give_back h v k = tt
move-Knows w unlock h v k = tt
move-Knows w unlock_default h v k = tt

set_reader-at : (i : ℕ) (r : Reader) (rs : ℕ → Reader) → set_reader i r rs i ≡ r
set_reader-at i r rs = ground arith

moved-counts :
    (n i q : ℕ) (s : System) {c : RefSeg} {r : Reader}
    → i < n
    → ReaderStep s.seg (s.readers i) c r
    → Inv n s
    → c.page_refs q ≡ sum n (λ j. holds q (set_reader i r s.readers j))
moved-counts n i q s {c} {r} lt step v =
    let w : ℕ → ℕ = λ j. holds q (s.readers j) in
    let w' : ℕ → ℕ = λ j. holds q (set_reader i r s.readers j) in
    let change = sum-change n i w w' lt (λ j ne. ground (arith, ne)) in
    let at : w' i ≡ holds q r = ap (holds q) (set_reader-at i r s.readers) in
    let below : sum n w ≤ n = sum-le n w (λ j. holds-le q (s.readers j)) in
    let below' : sum n w' ≤ n = sum-le n w' (λ j. holds-le q (set_reader i r s.readers j)) in
    let move =
      move-refs q step (omega (arith, v.counts q, below, v.few))
        (omega (arith, v.counts q, le-sum n i w lt))
        (omega (arith, v.counts q, change, at, below', v.few)) in
    omega (arith, move, change, at, v.counts q)

reader-Inv :
    (n i : ℕ) (s : System) {c : RefSeg} {r : Reader}
    → i < n
    → ReaderStep s.seg (s.readers i) c r
    → Inv n s
    → Inv n (record { seg = c; readers = set_reader i r s.readers; writer = s.writer })
reader-Inv n i s {c} {r} lt step v =
    let fields = move-fields step in
    record {
      few = v.few;
      writer_page =
          fields.1
          ∙ v.writer_page
          ∙ ap (λ size. aligned_size size + 0 * aligned_size size) (sym fields.2);
      published = subst (λ p. 1 ≤ p) (sym fields.0) v.published;
      counts = λ q. moved-counts n i q s lt step v;
      knows = λ j j_lt. moved-Knows j j_lt;
      serves = subst (λ p. Serves p s.writer) (sym fields.0) v.serves;
    }
  where
    moved-Knows : (j : ℕ) → j < n → Knows s.writer (set_reader i r s.readers j)
    moved-Knows j j_lt =
        if_cases (Knows s.writer) (j == i)
          (λ h. move-Knows s.writer step v.published v.serves (v.knows i lt)) (λ h. v.knows j j_lt)

serve :
    {pages : ℕ} {c c' : RefSeg} {w w' : Writer}
    → WriterStep pages c w c' w'
    → 1 ≤ c.published_page
    → Serves c.published_page w
    → (1 ≤ c'.published_page) × Serves c'.published_page w'
serve (write b' only) h v = (h, tt)
serve begin_search h v = (h, (refl, h))
serve (skip e) h v = (h, (v.0, ground arith))
serve (in_use ne e) h v = (h, (v.0, ground arith))
serve (take_free ne e) h v = (h, ((λ f. ne (f ∙ sym v.0)), ground arith))
serve give_up h v = (h, tt)
serve (copy_some b' only) h v = (h, v)
serve copy_rest h v = (h, v)
serve announce h v = (v.1, tt)

serve-fields :
    {pages : ℕ} {c c' : RefSeg} {w w' : Writer}
    → WriterStep pages c w c' w'
    → (c'.xcp_page ≡ c.xcp_page) × (c'.size ≡ c.size) × (c'.page_refs ≡ c.page_refs)
serve-fields (write b' only) = (refl, refl, refl)
serve-fields begin_search = (refl, refl, refl)
serve-fields (skip e) = (refl, refl, refl)
serve-fields (in_use ne e) = (refl, refl, refl)
serve-fields (take_free ne e) = (refl, refl, refl)
serve-fields give_up = (refl, refl, refl)
serve-fields (copy_some b' only) = (refl, refl, refl)
serve-fields copy_rest = (refl, refl, refl)
serve-fields announce = (refl, refl, refl)

-- The server takes no page that is pinned.
serve-NotFilled :
    {pages : ℕ} {c c' : RefSeg} {w w' : Writer} (p : ℕ)
    → WriterStep pages c w c' w'
    → c.page_refs p ≢ 0
    → NotFilled w p
    → NotFilled w' p
serve-NotFilled p (write b' only) held k = tt
serve-NotFilled p begin_search held k = tt
serve-NotFilled p (skip e) held k = tt
serve-NotFilled p (in_use ne e) held k = tt
serve-NotFilled {pages} {c} p (take_free ne e) held k = λ f. held (ap c.page_refs f ∙ e)
serve-NotFilled p give_up held k = tt
serve-NotFilled p (copy_some b' only) held k = k
serve-NotFilled p copy_rest held k = k
serve-NotFilled p announce held k = tt

Knows-serve :
    (w w' : Writer) (r : Reader)
    → ((p : ℕ) → r ≡ reading p → NotFilled w p → NotFilled w' p)
    → Knows w r
    → Knows w' r
Knows-serve w w' idle f k = tt
Knows-serve w w' retry f k = tt
Knows-serve w w' (loaded p) f k = k
Knows-serve w w' (pinned p) f k = k
Knows-serve w w' (stale p) f k = k
Knows-serve w w' (reading p) f k = (k.0, f p refl k.1)
Knows-serve w w' reading_default f k = tt

-- a page that a thread reads is pinned
reading-pinned :
    (n i p : ℕ) (s : System) → Inv n s → i < n → s.readers i ≡ reading p → s.seg.page_refs p ≢ 0
reading-pinned n i p s v lt at none =
    let one : holds p (s.readers i) ≡ 1 = ap (holds p) at ∙ ground arith in
    absurd (omega (arith, one, none, v.counts p, le-sum n i (λ j. holds p (s.readers j)) lt))

writer-Inv :
    (pages n : ℕ) (s : System) {c : RefSeg} {w : Writer}
    → WriterStep pages s.seg s.writer c w
    → Inv n s
    → Inv n (record { seg = c; readers = s.readers; writer = w })
writer-Inv pages n s {c} {w} step v =
    let fields = serve-fields step in
    let served = serve step v.published v.serves in
    record {
      few = v.few;
      writer_page =
          fields.0
          ∙ v.writer_page
          ∙ ap (λ size. aligned_size size + 0 * aligned_size size) (sym fields.1);
      published = served.0;
      counts = λ q. ap (λ (refs : ℕ → ℕ). refs q) fields.2 ∙ v.counts q;
      knows = λ i lt.
          Knows-serve s.writer w (s.readers i)
            (λ p at k. serve-NotFilled p step (reading-pinned n i p s v lt at) k) (v.knows i lt);
      serves = served.1;
    }

-- A fresh segment for at most 65535 threads, with the counts of all its pages in the range that is
-- cleared.
start-Inv :
    (pages n : ℕ) (c : RefSeg)
    → n < 65536
    → ((p : ℕ) → c.page_refs p ≡ 0)
    → Inv n (start (refcount_init pages (aligned_size c.size) c))
unfolding refcount_init
start-Inv pages n c few unpinned = record {
  few = few;
  writer_page = refl;
  published = omega arith;
  counts = λ p. ground (arith, unpinned p) ∙ sym (sum-zero n);
  knows = λ i lt. tt;
  serves = tt;
}

pub Reach-Inv :
    (pages n : ℕ) (c : RefSeg) {s : System}
    → n < 65536
    → ((p : ℕ) → c.page_refs p ≡ 0)
    → Reach pages n (refcount_init pages (aligned_size c.size) c) s
    → Inv n s
Reach-Inv pages n c few unpinned here = start-Inv pages n c few unpinned
Reach-Inv pages n c few unpinned (then_step {s} r (reader_step i lt step)) =
    reader-Inv n i s lt step (Reach-Inv pages n c few unpinned r)
Reach-Inv pages n c few unpinned (then_step {s} r (writer_step step)) =
    writer-Inv pages n s step (Reach-Inv pages n c few unpinned r)
Reach-Inv pages n c few unpinned (then_step r (access_step page)) =
    let v = Reach-Inv pages n c few unpinned r in
    record {
      few = v.few;
      writer_page = v.writer_page;
      published = v.published;
      counts = v.counts;
      knows = v.knows;
      serves = v.serves;
    }

-- ===== src/Cal/Threads/Moves.antt =====
-- Every step of a thread or of the server keeps the invariant of a calibration segment.
use xcplite.Prelude.{
  ℕ, ◌+◌, ◌≤◌, ◌<◌, ◌≡◌, ◌≢◌, ◌⊎◌, inl, inr, refl, sym, ◌∙◌, ap, subst, Bool, true, false, ◌==◌,
  arith, Bool-cases,
}
use mathlib.Core.Bool.{false≢true}
use xcplite.Cal.{CalSeg, xcp_calseg_no_page}
use xcplite.Cal.Threads.{
  Reader, idle, first, next_loaded, both_loaded, hazard_set, swapped, ready, chosen, reading,
  reading_default, Writer, rest, loaded, cleared, taken, copied, set_reader,
}
use xcplite.Cal.Threads.Count.{busy, total, total-set, total-le, each-set}
use xcplite.Cal.Threads.Inv.{
  is_leading, is_early, is_undecided, IsRest, KnowsOf, Knows, Reads, Third, PagesOf, Inv,
}

-- Of the threads that are not leading, only those that read know something.
pub Knows-readers :
    (q : ℕ) (c : CalSeg) (w : Writer) (t : ℕ) (r : Reader)
    → is_leading r ≡ false
    → Reads q r
    → ((p : ℕ) → p ≡ q → Knows c w t (reading p))
    → Knows c w t r
Knows-readers q c w t idle h k f = tt
Knows-readers q c w t first h k f = cc
Knows-readers q c w t (next_loaded n) h k f = cc
Knows-readers q c w t (both_loaded n e) h k f = cc
Knows-readers q c w t (hazard_set n e) h k f = cc
Knows-readers q c w t (swapped e) h k f = cc
Knows-readers q c w t ready h k f = tt
Knows-readers q c w t chosen h k f = tt
Knows-readers q c w t (reading p) h k f = f p k
Knows-readers q c w t reading_default h k f = tt

-- What the others know does not depend on `free_page`, where none of them is leading.
pub Knows-free :
    (ecu next free free' : ℕ) (hazard : Bool) (w : Writer) (t : ℕ) (r : Reader)
    → is_leading r ≡ false
    → KnowsOf ecu next free hazard w t r
    → KnowsOf ecu next free' hazard w t r
Knows-free ecu next free free' hazard w t idle h k = tt
Knows-free ecu next free free' hazard w t first h k = cc
Knows-free ecu next free free' hazard w t (next_loaded n) h k = cc
Knows-free ecu next free free' hazard w t (both_loaded n e) h k = cc
Knows-free ecu next free free' hazard w t (hazard_set n e) h k = cc
Knows-free ecu next free free' hazard w t (swapped e) h k = cc
Knows-free ecu next free free' hazard w t ready h k = tt
Knows-free ecu next free free' hazard w t chosen h k = tt
Knows-free ecu next free free' hazard w t (reading p) h k = k
Knows-free ecu next free free' hazard w t reading_default h k = tt

-- the third page is published while `ecu_page_next` is another page than `ecu_page`
pub Third-pending :
    (ecu next free : ℕ) (w : Writer) (t : ℕ)
    → Third ecu next free w t
    → next ≢ ecu
    → (next ≡ t) × (free ≡ xcp_calseg_no_page) × IsRest w × (is_undecided w ≡ true)
Third-pending ecu next free rest t (inl h) ne = absurd (ne h.1)
Third-pending ecu next free rest t (inr (inl h)) ne = (h.1, h.0, tt, refl)
Third-pending ecu next free rest t (inr (inr h)) ne = absurd (ne h.1)
Third-pending ecu next free (loaded f) t h ne = absurd (ne h.2)
Third-pending ecu next free (cleared f) t h ne = absurd (ne h.2)
Third-pending ecu next free (taken f) t h ne = absurd (ne h.2)
Third-pending ecu next free (copied f) t h ne = absurd (ne h.2)

-- the roles of the third page while the server is at rest
pub Third-rest :
    (ecu next free : ℕ) (w : Writer) (t : ℕ)
    → IsRest w
    → next ≡ ecu
    → (free ≡ t) ⊎ (free ≡ xcp_calseg_no_page)
    → Third ecu next free w t
Third-rest ecu next free rest t at_rest e (inl h) = inl (h, e)
Third-rest ecu next free rest t at_rest e (inr h) = inr (inr (h, e))
Third-rest ecu next free (loaded f) t at_rest e h = absurd at_rest
Third-rest ecu next free (cleared f) t at_rest e h = absurd at_rest
Third-rest ecu next free (taken f) t at_rest e h = absurd at_rest
Third-rest ecu next free (copied f) t at_rest e h = absurd at_rest

single-set :
    (i : ℕ) (r : Reader) (rs : ℕ → Reader)
    → ((p q : ℕ) → is_leading (rs p) ≡ true → is_leading (rs q) ≡ true → p ≡ q)
    → (is_leading r ≡ true → (j : ℕ) → j ≢ i → is_leading (rs j) ≡ false)
    → (p q : ℕ) → is_leading (set_reader i r rs p) ≡ true
    → is_leading (set_reader i r rs q) ≡ true
    → p ≡ q
single-set i r rs single alone p q h k = elim (Bool-cases (p == i)) [
  | inl e ↦ elim (Bool-cases (q == i)) [
    | inl e' ↦ ground arith
    | inr ne' ↦ absurd (false≢true (sym (alone (rw e at h) q (ground arith)) ∙ (rw ne' at k)))
  ]
  | inr ne ↦ elim (Bool-cases (q == i)) [
    | inl e' ↦ absurd (false≢true (sym (alone (rw e' at k) p (ground arith)) ∙ (rw ne at h)))
    | inr ne' ↦ single p q (rw ne at h) (rw ne' at k)
  ]
]

early-is_leading : (r : Reader) → is_early r ≡ true → is_leading r ≡ true
early-is_leading idle h = cc
early-is_leading first h = refl
early-is_leading (next_loaded n) h = refl
early-is_leading (both_loaded n e) h = refl
early-is_leading (hazard_set n e) h = refl
early-is_leading (swapped e) h = cc
early-is_leading ready h = cc
early-is_leading chosen h = cc
early-is_leading (reading p) h = cc
early-is_leading reading_default h = cc

-- the facts of a section on one thread that moves from `r` to `r'`
module _ (n a : ℕ) (c : CalSeg) (rs : ℕ → Reader) (w : Writer) (i : ℕ) (r r' : Reader)
    (inv : Inv n a (record { seg = c; readers = rs; writer = w })) (lt : i < n)
    (at : rs i ≡ r) where
  open inv use {third}

  -- where the thread is leading, no other is
  pub alone : is_leading r ≡ true → (j : ℕ) → j ≢ i → is_leading (rs j) ≡ false
  alone h j ne = elim (Bool-cases (is_leading (rs j))) [
    | inl lead ↦ absurd (ne (inv.single j i lead (rw at h)))
    | inr off ↦ off
  ]

  pub Knows-reader : Knows c w third r
  Knows-reader = subst (Knows c w third) at (inv.knows i)

  outside-set : (j : ℕ) → n ≤ j → set_reader i r' rs j ≡ idle
  outside-set j h = ground (arith, inv.outside j)

  -- A move that changes no field of the pages.
  pub plain :
      (count : ℕ)
      → count ≡ total n (set_reader i r' rs)
      → (is_leading r' ≡ true → (j : ℕ) → j ≢ i → is_leading (rs j) ≡ false)
      → (is_early r' ≡ true → (j : ℕ) → j ≢ i → Reads c.ecu_page (rs j))
      → Knows c w third r'
      → Reads c.ecu_page r'
      → Inv n a (record {
        seg = record c { lock_count = count };
        readers = set_reader i r' rs;
        writer = w;
      })
  plain count counted lead early kn reads = record {
    third = third;
    few = inv.few;
    fits = inv.fits;
    some_bytes = inv.some_bytes;
    small = inv.small;
    count = counted;
    outside = outside-set;
    single = single-set i r' rs inv.single lead;
    knows = each-set (Knows c w third) i r' rs kn (λ j ne. inv.knows j);
    calm = λ p q h. each-set (Reads c.ecu_page) i r' rs reads (λ j ne. calm_at p j h ne) q;
    pages = inv.pages;
  }
    where
      calm_at : (p j : ℕ) → is_early (set_reader i r' rs p) ≡ true → j ≢ i → Reads c.ecu_page (rs j)
      calm_at p j h ne = elim (Bool-cases (p == i)) [
        | inl e ↦ early (rw e at h) j ne
        | inr off ↦ inv.calm p j (rw off at h)
      ]

  pub counted_r : total n (set_reader i r' rs) + busy r ≡ total n rs + busy r'
  counted_r = omega (arith, total-set n rs i r' lt, ap busy at)

  pub few_locks : c.lock_count < 65536
  few_locks = omega (arith, inv.count, inv.few, total-le n rs)

  -- A move of the leading thread, which stays inside of its lock.
  pub leads :
      (c' : CalSeg) (third' : ℕ)
      → c'.size ≡ c.size
      → c'.lock_count ≡ c.lock_count
      → busy r ≡ 1
      → busy r' ≡ 1
      → is_leading r ≡ true
      → Knows c' w third' r'
      → ((j : ℕ) → is_leading (rs j) ≡ false → Knows c' w third' (rs j))
      → (is_early r' ≡ true → (j : ℕ) → Reads c'.ecu_page (rs j))
      → Reads c'.ecu_page r'
      → PagesOf a c' w third'
      → Inv n a (record { seg = c'; readers = set_reader i r' rs; writer = w })
  leads c' third' same_size same_count b b' lead kn others early reads pages = record {
    third = third';
    few = inv.few;
    fits = omega (arith, inv.fits, same_size);
    some_bytes = inv.some_bytes;
    small = inv.small;
    count = omega (arith, same_count, inv.count, counted_r, b, b');
    outside = outside-set;
    single = single-set i r' rs inv.single (λ h. alone lead);
    knows = each-set (Knows c' w third') i r' rs kn (λ j ne. others j (alone lead j ne));
    calm = λ p q h. each-set (Reads c'.ecu_page) i r' rs reads (λ j ne. calm_at p j h) q;
    pages = pages;
  }
    where
      calm_at : (p j : ℕ) → is_early (set_reader i r' rs p) ≡ true → Reads c'.ecu_page (rs j)
      calm_at p j h = elim (Bool-cases (p == i)) [
        | inl e ↦ early (rw e at h) j
        | inr off ↦
            absurd (
              false≢true
                (sym (alone lead p (ground arith)) ∙ early-is_leading (rs p) (rw off at h)))
      ]

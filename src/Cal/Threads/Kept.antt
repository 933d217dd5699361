-- ===== src/Cal/Threads/Kept.antt =====
-- The steps of the threads and of the server at a calibration segment, one by one: each keeps the
-- invariant.
use xcplite.Prelude.{
  ℕ, ◌+◌, ◌%◌, ◌<◌, ◌≡◌, ◌≢◌, ◌⊎◌, inl, inr, refl, sym, ◌∙◌, subst, true, false, arith, Bool-cases,
  ltb,
}
use mathlib.Core.Bool.{false≢true}
use xcplite.Memory.{Bytes}
use xcplite.Cal.{CalSeg, xcp_calseg_no_page}
use xcplite.Cal.Threads.{
  Reader, idle, first, next_loaded, both_loaded, hazard_set, swapped, ready, chosen, reading,
  reading_default, Writer, rest, loaded, cleared, taken, copied, ReaderStep, WriterStep, set_reader,
  lock_first, lock_more, load_next, load_ecu, no_update, set_hazard, store_ecu, store_free,
  choose_default, choose_working, get_page, unlock, unlock_default, write, load_free, give_up,
  load_hazard, take_free, copy_some, copy_rest, publish,
}
use xcplite.Cal.Threads.Count.{total-le, idle_of_total}
use xcplite.Cal.Threads.Inv.{KnowsOf, Knows, Third, IsPage, Inv}
use xcplite.Cal.Threads.Moves.{
  Knows-readers, Knows-free, Third-pending, Third-rest, alone, Knows-reader, plain, leads,
  counted_r, few_locks,
}

module _ (n a : ℕ) (c : CalSeg) (rs : ℕ → Reader) (w : Writer) (i : ℕ)
    (inv : Inv n a (record { seg = c; readers = rs; writer = w })) (lt : i < n) where
  open inv use {third}

  -- before a thread is inside, the lock count is the number of those that are
  all_idle : c.lock_count ≡ 0 → (j : ℕ) → rs j ≡ idle
  all_idle zero_count j = elim (Bool-cases (ltb j n)) [
    | inl in_range ↦ idle_of_total n rs (sym inv.count ∙ zero_count) j (ground arith)
    | inr out ↦ inv.outside j (ground arith)
  ]

  pub reader-Inv :
      {c' : CalSeg} {r r' : Reader}
      → ReaderStep c r c' r'
      → rs i ≡ r
      → Inv n a (record { seg = c'; readers = set_reader i r' rs; writer = w })
  reader-Inv (lock_first z) at =
      plain n a c rs w i idle first inv lt at ((c.lock_count + 1) % 65536)
        (omega (arith, z, inv.count, counted_r n a c rs w i idle first inv lt at))
        (λ h j ne. rw (all_idle z j) refl) (λ h j ne. rw (all_idle z j) tt) tt tt
  reader-Inv (lock_more nz) at =
      plain n a c rs w i idle ready inv lt at ((c.lock_count + 1) % 65536)
        (omega (
          arith,
          inv.few,
          inv.count,
          counted_r n a c rs w i idle ready inv lt at,
          total-le n (set_reader i ready rs),
        ))
        (λ h. cc) (λ h. cc) tt tt
  reader-Inv load_next at =
      plain n a c rs w i first (next_loaded c.ecu_page_next) inv lt at c.lock_count
        (omega
          (arith, inv.count, counted_r n a c rs w i first (next_loaded c.ecu_page_next) inv lt at))
        (λ h. alone n a c rs w i first (next_loaded c.ecu_page_next) inv lt at refl)
        (λ h j ne. inv.calm i j (rw at refl)) (inr refl) tt
  reader-Inv (load_ecu {n = m}) at =
      let k = Knows-reader n a c rs w i (next_loaded m) (both_loaded m c.ecu_page) inv lt at in
      plain n a c rs w i (next_loaded m) (both_loaded m c.ecu_page) inv lt at c.lock_count
        (omega (
          arith,
          inv.count,
          counted_r n a c rs w i (next_loaded m) (both_loaded m c.ecu_page) inv lt at,
        ))
        (λ h. alone n a c rs w i (next_loaded m) (both_loaded m c.ecu_page) inv lt at refl)
        (λ h j ne. inv.calm i j (rw at refl)) (refl, k) tt
  reader-Inv (no_update {n = m} {e} same) at =
      leads n a c rs w i (both_loaded m e) ready inv lt at (record c { free_page_hazard = false })
        third refl refl refl refl refl tt
        (λ j off.
          Knows-readers c.ecu_page (record c { free_page_hazard = false }) w third (rs j) off
            (inv.calm i j (rw at refl)) (λ p q. inl q))
        (λ h. cc) tt inv.pages
  reader-Inv (set_hazard {n = m} {e} ne) at =
      let k = Knows-reader n a c rs w i (both_loaded m e) (hazard_set m e) inv lt at in
      leads n a c rs w i (both_loaded m e) (hazard_set m e) inv lt at
        (record c { free_page_hazard = true }) third refl refl refl refl refl
        (k.0, ground (arith, k), ground (arith, k, ne), refl)
        (λ j off.
          Knows-readers c.ecu_page (record c { free_page_hazard = true }) w third (rs j) off
            (inv.calm i j (rw at refl)) (λ p q. inl q))
        (λ h j. inv.calm i j (rw at refl)) tt inv.pages
  reader-Inv (store_ecu {n = m} {e}) at =
      let k = Knows-reader n a c rs w i (hazard_set m e) (swapped e) inv lt at in
      let old = inv.pages in
      let pending =
        Third-pending c.ecu_page c.ecu_page_next c.free_page w third old.role
          (λ q. k.2 (k.1 ∙ q)) in
      leads n a c rs w i (hazard_set m e) (swapped e) inv lt at (record c { ecu_page = m })
        c.ecu_page refl refl refl refl refl (k.0, pending.1, sym k.1, k.3, pending.2)
        (λ j off.
          Knows-readers c.ecu_page (record c { ecu_page = m }) w c.ecu_page (rs j) off
            (inv.calm i j (rw at refl)) (λ p q. inr (q, sym k.1, k.3, pending.3)))
        (λ h. cc) tt
        (record {
          xcp_in = old.xcp_in;
          ecu_in = subst (IsPage a) (sym (k.1 ∙ pending.0)) old.third_in;
          third_in = old.ecu_in;
          xcp_ne_ecu = λ q. old.xcp_ne_third (q ∙ k.1 ∙ pending.0);
          xcp_ne_third = old.xcp_ne_ecu;
          ecu_ne_third = k.2;
          role =
              Third-rest m c.ecu_page_next c.free_page w c.ecu_page pending.2 (sym k.1)
                (inr pending.1);
        })
  reader-Inv (store_free {e}) at =
      let k = Knows-reader n a c rs w i (swapped e) ready inv lt at in
      let old = inv.pages in
      leads n a c rs w i (swapped e) ready inv lt at (record c { free_page = e }) third refl refl
        refl refl refl tt
        (λ j off.
          Knows-free c.ecu_page c.ecu_page_next c.free_page e c.free_page_hazard w third (rs j) off
            (inv.knows j))
        (λ h. cc) tt
        (record {
          xcp_in = old.xcp_in;
          ecu_in = old.ecu_in;
          third_in = old.third_in;
          xcp_ne_ecu = old.xcp_ne_ecu;
          xcp_ne_third = old.xcp_ne_third;
          ecu_ne_third = old.ecu_ne_third;
          role = Third-rest c.ecu_page c.ecu_page_next e w third k.4 k.2 (inl k.0);
        })
  reader-Inv (choose_default other) at =
      plain n a c rs w i ready reading_default inv lt at c.lock_count
        (omega (arith, inv.count, counted_r n a c rs w i ready reading_default inv lt at)) (λ h. cc)
        (λ h. cc) tt tt
  reader-Inv (choose_working same) at =
      plain n a c rs w i ready chosen inv lt at c.lock_count
        (omega (arith, inv.count, counted_r n a c rs w i ready chosen inv lt at)) (λ h. cc)
        (λ h. cc) tt tt
  reader-Inv get_page at =
      plain n a c rs w i chosen (reading c.ecu_page) inv lt at c.lock_count
        (omega (arith, inv.count, counted_r n a c rs w i chosen (reading c.ecu_page) inv lt at))
        (λ h. cc) (λ h. cc) (inl refl) refl
  reader-Inv (unlock {p}) at =
      plain n a c rs w i (reading p) idle inv lt at ((c.lock_count + 65535) % 65536)
        (omega (
          arith,
          few_locks n a c rs w i (reading p) idle inv lt at,
          inv.count,
          counted_r n a c rs w i (reading p) idle inv lt at,
        ))
        (λ h. cc) (λ h. cc) tt tt
  reader-Inv unlock_default at =
      plain n a c rs w i reading_default idle inv lt at ((c.lock_count + 65535) % 65536)
        (omega (
          arith,
          few_locks n a c rs w i reading_default idle inv lt at,
          inv.count,
          counted_r n a c rs w i reading_default idle inv lt at,
        ))
        (λ h. cc) (λ h. cc) tt tt

-- What a thread knows behind a step of the server, from what each position of it asks for.
Knows-map :
    (c c' : CalSeg) (w w' : Writer) (t t' : ℕ)
    → ((m : ℕ) → Knows c w t (next_loaded m) → Knows c' w' t' (next_loaded m))
    → ((m e : ℕ) → Knows c w t (both_loaded m e) → Knows c' w' t' (both_loaded m e))
    → ((m e : ℕ) → Knows c w t (hazard_set m e) → Knows c' w' t' (hazard_set m e))
    → ((e : ℕ) → Knows c w t (swapped e) → Knows c' w' t' (swapped e))
    → ((p : ℕ) → Knows c w t (reading p) → Knows c' w' t' (reading p))
    → (r : Reader) → Knows c w t r
    → Knows c' w' t' r
Knows-map c c' w w' t t' f1 f2 f3 f4 f5 idle k = tt
Knows-map c c' w w' t t' f1 f2 f3 f4 f5 first k = tt
Knows-map c c' w w' t t' f1 f2 f3 f4 f5 (next_loaded m) k = f1 m k
Knows-map c c' w w' t t' f1 f2 f3 f4 f5 (both_loaded m e) k = f2 m e k
Knows-map c c' w w' t t' f1 f2 f3 f4 f5 (hazard_set m e) k = f3 m e k
Knows-map c c' w w' t t' f1 f2 f3 f4 f5 (swapped e) k = f4 e k
Knows-map c c' w w' t t' f1 f2 f3 f4 f5 ready k = tt
Knows-map c c' w w' t t' f1 f2 f3 f4 f5 chosen k = tt
Knows-map c c' w w' t t' f1 f2 f3 f4 f5 (reading p) k = f5 p k
Knows-map c c' w w' t t' f1 f2 f3 f4 f5 reading_default k = tt

module _ (n a : ℕ) (c : CalSeg) (rs : ℕ → Reader) where
  -- A step of the server that changes no field of the pages but `free_page`.
  serves :
      (w w' : Writer) (free : ℕ) (b : Bytes)
      (inv : Inv n a (record { seg = c; readers = rs; writer = w }))
      → ((e : ℕ)
          → Knows c w inv.third (swapped e)
          → KnowsOf c.ecu_page c.ecu_page_next free c.free_page_hazard w' inv.third (swapped e))
      → ((p : ℕ)
          → Knows c w inv.third (reading p)
          → KnowsOf c.ecu_page c.ecu_page_next free c.free_page_hazard w' inv.third (reading p))
      → Third c.ecu_page c.ecu_page_next free w' inv.third
      → Inv n a (record { seg = record c { free_page = free; b = b }; readers = rs; writer = w' })
  serves w w' free b inv sw rd role = record {
    third = inv.third;
    few = inv.few;
    fits = inv.fits;
    some_bytes = inv.some_bytes;
    small = inv.small;
    count = inv.count;
    outside = inv.outside;
    single = inv.single;
    knows = λ i.
        Knows-map c (record c { free_page = free; b = b }) w w' inv.third inv.third (λ m k. k)
          (λ m e k. k) (λ m e k. k) sw rd (rs i) (inv.knows i);
    calm = inv.calm;
    pages = record {
      xcp_in = inv.pages.xcp_in;
      ecu_in = inv.pages.ecu_in;
      third_in = inv.pages.third_in;
      xcp_ne_ecu = inv.pages.xcp_ne_ecu;
      xcp_ne_third = inv.pages.xcp_ne_third;
      ecu_ne_third = inv.pages.ecu_ne_third;
      role = role;
    };
  }

  -- the third page while the server is at rest, and `free_page` is a page
  free-Third :
      (ecu next free t : ℕ)
      → Third ecu next free rest t
      → free ≢ xcp_calseg_no_page
      → (free ≡ t) × (next ≡ ecu)
  free-Third ecu next free t (inl h) ne = h
  free-Third ecu next free t (inr (inl h)) ne = absurd (ne h.0)
  free-Third ecu next free t (inr (inr h)) ne = absurd (ne h.0)

  pub writer-Inv :
      {c' : CalSeg} {w w' : Writer}
      → WriterStep c w c' w'
      → Inv n a (record { seg = c; readers = rs; writer = w })
      → Inv n a (record { seg = c'; readers = rs; writer = w' })
  writer-Inv (write b' only) inv =
      serves rest rest c.free_page b' inv (λ e k. k) (λ p k. k) inv.pages.role
  writer-Inv (load_free ne) inv =
      let h = free-Third c.ecu_page c.ecu_page_next c.free_page inv.third inv.pages.role ne in
      serves rest (loaded c.free_page) c.free_page c.b inv (λ e k. absurd (ne k.1)) (λ p k. k)
        (h.0, h.0, h.1)
  writer-Inv (give_up {f} hazard) inv =
      let h = inv.pages.role in
      serves (loaded f) rest c.free_page c.b inv (λ e k. absurd k.4) (λ p k. k) (inl (h.1, h.2))
  writer-Inv (load_hazard {f} safe) inv =
      serves (loaded f) (cleared f) c.free_page c.b inv (λ e k. absurd k.4)
        (λ p k. elim k [ inl q ↦ inl q | inr q ↦ absurd (false≢true (sym safe ∙ q.2)) ])
        inv.pages.role
  writer-Inv (take_free {f}) inv =
      let h = inv.pages.role in
      serves (cleared f) (taken f) xcp_calseg_no_page c.b inv (λ e k. absurd k.4)
        (λ p k. elim k [ inl q ↦ inl q | inr q ↦ absurd (false≢true q.3) ]) (h.0, refl, h.2)
  writer-Inv (copy_some {f} b' only) inv =
      serves (taken f) (taken f) c.free_page b' inv (λ e k. k) (λ p k. k) inv.pages.role
  writer-Inv (copy_rest {f}) inv =
      serves (taken f) (copied f) c.free_page _ inv (λ e k. absurd k.4)
        (λ p k. elim k [ inl q ↦ inl q | inr q ↦ absurd (false≢true q.3) ]) inv.pages.role
  writer-Inv (publish {f}) inv = record {
    third = c.xcp_page;
    few = inv.few;
    fits = inv.fits;
    some_bytes = inv.some_bytes;
    small = inv.small;
    count = inv.count;
    outside = inv.outside;
    single = inv.single;
    knows = λ i.
        Knows-map c (record c { xcp_page = f; ecu_page_next = c.xcp_page }) (copied f) rest
          inv.third c.xcp_page (λ m k. inl (still m k)) (λ m e k. (k.0, inl (still m k.1)))
          (λ m e k. absurd (k.2 (k.1 ∙ inv.pages.role.2))) (λ e k. absurd k.4)
          (λ p k. elim k [ inl q ↦ inl q | inr q ↦ absurd (false≢true q.3) ]) (rs i) (inv.knows i);
    calm = inv.calm;
    pages = record {
      xcp_in = subst (IsPage a) (sym inv.pages.role.0) inv.pages.third_in;
      ecu_in = inv.pages.ecu_in;
      third_in = inv.pages.xcp_in;
      xcp_ne_ecu = λ q. inv.pages.ecu_ne_third (sym q ∙ inv.pages.role.0);
      xcp_ne_third = λ q. inv.pages.xcp_ne_third (sym q ∙ inv.pages.role.0);
      ecu_ne_third = λ q. inv.pages.xcp_ne_ecu (sym q);
      role = inr (inl (inv.pages.role.1, refl));
    };
  }
    where
      still : (m : ℕ) → (m ≡ c.ecu_page) ⊎ (m ≡ c.ecu_page_next) → m ≡ c.ecu_page
      still m (inl q) = q
      still m (inr q) = q ∙ inv.pages.role.2

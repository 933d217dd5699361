-- ===== src/Cal/Atomic/Hidden.antt =====
-- Writes that are not published, src/cal.c: what `XcpCalSegWriteMemory` changes within a transaction.
use xcplite.Prelude.{
  ℕ, ◌+◌, ◌≤◌, ◌<◌, ◌≡◌, ◌≢◌, ◌⊎◌, inl, inr, refl, sym, ◌∙◌, ap, subst, Bool, true, not, ◌==◌, ltb,
  leb, if_cases, arith, List, [], ◌∷◌, length,
}
use xcplite.Memory.{Bytes}
use xcplite.Daq.Address.{decode_seg_number, decode_seg_offset}
use xcplite.Mta.{write_bytes}
use xcplite.Cal.{CalSeg, CalSegList, xcp_calpage_working_page, set_calseg, get_cal_seg_count}
use xcplite.Cal.Rcu.{take_over, rcu_lock}
use xcplite.Cal.Access.{write_page, cal_seg_write_memory}
use xcplite.Cal.Threads.{WritesOnly}
use xcplite.Cal.Threads.Inv.{IsPage}
use xcplite.Cal.Threads.Safety.{pages_apart}
use xcplite.Cal.Layout.{IsPaged}

-- the byte `k` that a thread gets from a lock of the segment
abbrev pub shown : ℕ → CalSeg → ℕ
shown k c = let (page, c') = rcu_lock c in c'.b (page + k)

-- A segment of which only the bytes of the server's page, and whether they are pending, may have
-- changed.
pub record Drafts (c c' : CalSeg) : Type 0 where
  pub only : WritesOnly c.xcp_page c.size c.b c'.b
  pub same : c' ≡ record c { b = c'.b; write_pending = c'.write_pending }

unchanged-Drafts : (c : CalSeg) → Drafts c c
unchanged-Drafts c = record { only = λ i out. refl; same = refl }

join-Drafts : {c c' c'' : CalSeg} → Drafts c c' → Drafts c' c'' → Drafts c c''
join-Drafts {c} {c'} {c''} d e = record {
  only = λ i out.
      e.only i
        (subst (λ (x : CalSeg). (i < x.xcp_page) ⊎ (x.xcp_page + x.size ≤ i)) (sym d.same) out)
      ∙ d.only i out;
  same =
      e.same
      ∙ ap (λ (x : CalSeg). record x { b = c''.b; write_pending = c''.write_pending }) d.same;
}

write_page-Drafts :
    (readers : ℕ → CalSeg → CalSeg) (offset : ℕ) (bytes : List ℕ) (c : CalSeg)
    → offset + length bytes ≤ c.size
    → Drafts c (write_page readers true offset bytes c)
unfolding write_page write_bytes
write_page-Drafts readers offset bytes c fits = record { only = λ i out. ground arith; same = refl }

-- a lock gets the default page, the active page or the one that is published
lock_page :
    (c : CalSeg)
    → ((rcu_lock c).1.b ≡ c.b)
      × (((rcu_lock c).0 ≡ 0) ⊎ ((rcu_lock c).0 ≡ c.ecu_page) ⊎ ((rcu_lock c).0 ≡ c.ecu_page_next))
unfolding rcu_lock take_over
lock_page c = (ground arith, ground arith)

same_page :
    (c : CalSeg) (b' : Bytes) (pending : Bool)
    → (rcu_lock (record c { b = b'; write_pending = pending })).0 ≡ (rcu_lock c).0
unfolding rcu_lock take_over
same_page c b' pending = ground arith

-- and that is not the server's page
lock_page-apart :
    (a : ℕ) (c : CalSeg) (k : ℕ)
    → IsPaged a c
    → k < c.size
    → ((rcu_lock c).0 + k < c.xcp_page) ⊎ (c.xcp_page + c.size ≤ (rcu_lock c).0 + k)
lock_page-apart a c k v h = elim (lock_page c).1 [
  | inl e ↦ inl (ground (arith, e, v.xcp_in, v.fits, h))
  | inr (inl e) ↦ at v.ecu_in e v.xcp_ne_ecu
  | inr (inr e) ↦ elim v.role [
    | inl (free, next) ↦ at v.ecu_in (e ∙ next) v.xcp_ne_ecu
    | inr (free, next) ↦ at v.third_in (e ∙ next) v.xcp_ne_third
  ]
]
  where
    at :
        {p q : ℕ}
        → IsPage a p
        → q ≡ p
        → c.xcp_page ≢ p
        → (q + k < c.xcp_page) ⊎ (c.xcp_page + c.size ≤ q + k)
    at {p} in_p e ne =
        subst (λ q. (q + k < c.xcp_page) ⊎ (c.xcp_page + c.size ≤ q + k)) (sym e)
          (pages_apart a p c.xcp_page k c.size in_p v.xcp_in (λ f. ne (sym f)) v.fits h)

shown_at : (k : ℕ) (c : CalSeg) → shown k c ≡ c.b ((rcu_lock c).0 + k)
shown_at k c = ap (λ (b : Bytes). b ((rcu_lock c).0 + k)) (lock_page c).0

pub shown-Drafts :
    (a : ℕ) {c c' : CalSeg} (k : ℕ)
    → IsPaged a c
    → k < c.size
    → Drafts c c'
    → shown k c' ≡ shown k c
shown-Drafts a {c} {c'} k v h d =
    let page = ap (λ (x : CalSeg). (rcu_lock x).0) d.same ∙ same_page c c'.b c'.write_pending in
    shown_at k c'
    ∙ ap (λ p. c'.b (p + k)) page
    ∙ d.only ((rcu_lock c).0 + k) (lock_page-apart a c k v h)
    ∙ sym (shown_at k c)

-- a list of which only the server's pages may have changed
pub record ListDrafts (l l' : CalSegList) : Type 0 where
  pub same_count : get_cal_seg_count l' ≡ get_cal_seg_count l
  pub still_delayed : l'.write_delayed ≡ l.write_delayed
  pub each : (i : ℕ) → Drafts (l.calsegs i) (l'.calsegs i)

set_calseg-Drafts :
    (i j : ℕ) (c : CalSeg) (l : CalSegList)
    → Drafts (l.calsegs i) c
    → Drafts (l.calsegs j) ((set_calseg i c l).calsegs j)
unfolding set_calseg
set_calseg-Drafts i j c l d =
    if_cases (Drafts (l.calsegs j)) (j == i)
      (λ h. subst (λ n. Drafts (l.calsegs n) c) (sym (ground (arith, h))) d)
      (λ h. unchanged-Drafts (l.calsegs j))

module _ (readers : ℕ → CalSeg → CalSeg) where
  -- the writes, each an address and bytes, one after the other
  unfoldable pub write_all : List (ℕ × List ℕ) → CalSegList → CalSegList
  write_all [] l = l
  write_all ((dst, src) ∷ writes) l = write_all writes (cal_seg_write_memory readers dst src l).1

  write_memory-Drafts :
      (dst : ℕ) (src : List ℕ) (l : CalSegList)
      → l.write_delayed ≡ true
      → ListDrafts l (cal_seg_write_memory readers dst src l).1
  unfolding cal_seg_write_memory set_calseg
  write_memory-Drafts dst src l delayed =
      let i = decode_seg_number dst in
      let c = l.calsegs i in
      let refused : ListDrafts l l = record {
        same_count = refl;
        still_delayed = refl;
        each = λ j. unchanged-Drafts (l.calsegs j);
      } in
      if_cases P (leb (get_cal_seg_count l) i) (λ h. refused)
        (λ h.
          if_cases P (ltb c.size (decode_seg_offset dst + length src)) (λ k. refused)
            (λ fits.
              if_cases P (not (c.xcp_access == xcp_calpage_working_page)) (λ m. refused)
                (λ m. written (ground arith))))
    where
      P : ℕ × CalSegList → Type 0
      P o = ListDrafts l o.1

      written :
          decode_seg_offset dst + length src ≤ (l.calsegs (decode_seg_number dst)).size
          → ListDrafts l (
              set_calseg
                (decode_seg_number dst)
                (write_page readers l.write_delayed
                  (decode_seg_offset dst)
                  src
                  (l.calsegs (decode_seg_number dst)))
                l)
      written fits =
          let i = decode_seg_number dst in
          let d = write_page-Drafts readers (decode_seg_offset dst) src (l.calsegs i) fits in
          let at =
            subst
              (λ b.
                Drafts (l.calsegs i)
                  (write_page readers b (decode_seg_offset dst) src (l.calsegs i)))
              (sym delayed) d in
          record {
            same_count = refl;
            still_delayed = refl;
            each = λ j. set_calseg-Drafts i j _ l at;
          }

  pub write_all-Drafts :
      (writes : List (ℕ × List ℕ)) (l : CalSegList)
      → l.write_delayed ≡ true
      → ListDrafts l (write_all writes l)
  unfolding write_all
  write_all-Drafts [] l delayed = record {
    same_count = refl;
    still_delayed = refl;
    each = λ j. unchanged-Drafts (l.calsegs j);
  }
  write_all-Drafts ((dst, src) ∷ writes) l delayed =
      let d = write_memory-Drafts dst src l delayed in
      let e =
        write_all-Drafts writes (cal_seg_write_memory readers dst src l).1
          (d.still_delayed ∙ delayed) in
      record {
        same_count = e.same_count ∙ d.same_count;
        still_delayed = e.still_delayed ∙ d.still_delayed;
        each = λ j. join-Drafts (d.each j) (e.each j);
      }

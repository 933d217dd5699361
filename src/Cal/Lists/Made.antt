-- ===== src/Cal/Lists/Made.antt =====
-- The creation of a segment keeps the list well-formed.
use xcplite.Prelude.{
  ℕ, ◌+◌, ◌*◌, ◌%◌, ◌≤◌, ◌<◌, ◌≡◌, inl, inr, refl, sym, ◌∙◌, ap, subst, Bool, true, false, ◌==◌,
  ◌&&◌, ltb, leb, if◌then◌else◌, if_cases, Bool-cases, Option-cases, arith, List, Option, none,
  some,
}
use xcplite.Cal.{CalSeg, CalSegList, aligned_page_size, set_calseg, get_cal_seg_count}
use xcplite.Cal.Rcu.{rcu_reset, rcu_init}
use xcplite.Cal.Create.{
  PageSource, from_memory, from_file, missing, calseg_bytes, cal_mem_alloc, load_default,
  start_access, named_calseg, count_segment, init_cal_seg, register_at, register_cal_seg,
  register_made, new_in, new_cal_seg,
}
use xcplite.Cal.Layout.{IsPaged, Keeps}
use xcplite.Cal.Lists.{IsWf, Returns}

-- a segment whose pages have its aligned size
abbrev pub IsOrdered : CalSeg → Type 0
IsOrdered c = IsPaged (aligned_page_size c.size) c

Keeps-IsOrdered : (f : CalSeg → CalSeg) → Keeps f → (c : CalSeg) → IsOrdered c → IsOrdered (f c)
Keeps-IsOrdered f keeps c v =
    let kept = keeps (aligned_page_size c.size) c v in
    subst (λ size. IsPaged (aligned_page_size size) (f c)) (sym kept.1) kept.0

-- The segment `i` replaced by one with the same size and with its pages in order.
pub set_calseg-IsWf :
    (f : CalSeg → CalSeg)
    → Keeps f
    → (i : ℕ) (l : CalSegList) → IsWf l
    → IsWf (set_calseg i (f (l.calsegs i)) l)
unfolding set_calseg
set_calseg-IsWf f keeps i l v = record {
  active = v.active;
  few = v.few;
  numbered = v.numbered;
  used = v.used;
  placed = λ k h. rw (size_at k h) (v.placed k h);
  apart = λ k j lt h. rw (size_at k (omega (arith, lt, h))) (v.apart k j lt h);
  paged = λ k h.
      if_cases IsOrdered (k == i)
        (λ e. Keeps-IsOrdered f keeps (l.calsegs i) (v.paged i (ground (arith, e, h))))
        (λ ne. v.paged k h);
}
  where
    size_at :
        (k : ℕ)
        → k < l.count
        → (if k == i then f (l.calsegs i) else l.calsegs k).size ≡ (l.calsegs k).size
    size_at k h =
        if_cases (λ (c : CalSeg). c.size ≡ (l.calsegs k).size) (k == i)
          (λ e.
            (keeps (aligned_page_size (l.calsegs i).size) (l.calsegs i)
              (v.paged i (ground (arith, e, h)))).1
            ∙ ap (λ m. (l.calsegs m).size) (ground (arith, e)))
          (λ ne. refl)

-- a new segment with its size and its pages
abbrev IsMade : ℕ → Option CalSeg → Type 0
IsMade page_size none = Unit
IsMade page_size (some c) = (c.size ≡ page_size) × IsPaged (aligned_page_size page_size) c

start_access-IsPaged :
    (page_size : ℕ) (c : CalSeg)
    → 0 < page_size
    → page_size ≤ 65528
    → c.size ≡ page_size
    → IsMade page_size (some (start_access true page_size c))
unfolding start_access rcu_reset rcu_init
start_access-IsPaged page_size c pos small size = (
  size,
  record {
    third = aligned_page_size page_size + 2 * aligned_page_size page_size;
    fits = omega (arith, size, small);
    some_bytes = omega (arith, pos, small);
    small = omega arith;
    xcp_in = inl (omega arith);
    ecu_in = inr (inl (omega arith));
    third_in = inr (inr (omega arith));
    xcp_ne_ecu = λ e. absurd (omega (arith, e, pos, small));
    xcp_ne_third = λ e. absurd (omega (arith, e, pos, small));
    ecu_ne_third = λ e. absurd (omega (arith, e, pos, small));
    role = inl (refl, refl);
  },
)

size-load_default :
    (page_size : ℕ) (source : PageSource) (c c' : CalSeg)
    → load_default page_size source c ≡ some c'
    → c'.size ≡ c.size
unfolding load_default
size-load_default page_size (from_memory bytes) c c' e = cc
size-load_default page_size (from_file bytes) c c' e = ground arith
size-load_default page_size missing c c' e = ground arith

-- the lists hold the same segments in the same places
abbrev SameList : CalSegList → CalSegList → Type 0
SameList l l' =
    (l'.count ≡ l.count)
    × (l'.cal_mem_used ≡ l.cal_mem_used)
    × ((i : ℕ) → (l'.offset i ≡ l.offset i) × ((l'.calsegs i).size ≡ (l.calsegs i).size))

-- What `XcpInitCalSeg_` leaves: the list but for the segment numbers, and the segment.
init_cal_seg-IsMade :
    (name : List ℕ) (source : PageSource) (page_size : ℕ) (memory_segment : Bool) (l : CalSegList)
    → 0 < page_size
    → page_size ≤ 65528
    → IsWf l
    → let (made, l') = init_cal_seg name source page_size memory_segment l in
      IsWf l' × SameList l l' × IsMade page_size made
unfolding init_cal_seg
init_cal_seg-IsMade name source page_size memory_segment l pos small v =
    if_cases (λ (o : Option CalSeg × CalSegList). Leaves o)
      (memory_segment && leb 0xff l.memory_segment_count)
      (λ full. (v, (refl, refl, λ i. (refl, refl)), tt))
      (λ room.
        elim (Option-cases
          (load_default page_size source (named_calseg name page_size memory_segment l))) [
            | inl e ↦ rw e (counted room, counted_same, tt)
            | inr (c, e) ↦ rw e (
              counted room,
              counted_same,
              subst (λ active. IsMade page_size (some (start_access active page_size c)))
                  (sym v.active)
                  (start_access-IsPaged page_size c pos small (
                    size-load_default page_size source
                      (named_calseg name page_size memory_segment l) c e)),
            )
          ])
  where
    Leaves : Option CalSeg × CalSegList → Type 0
    Leaves (made, l') = IsWf l' × SameList l l' × IsMade page_size made

    counted_same : SameList l (count_segment memory_segment l)
    counted_same =
        if_cases (SameList l) memory_segment (λ h. (refl, refl, λ i. (refl, refl)))
          (λ h. (refl, refl, λ i. (refl, refl)))

    counted :
        (memory_segment && leb 0xff l.memory_segment_count) ≡ false
        → IsWf (count_segment memory_segment l)
    counted room =
        if_cases IsWf memory_segment
          (λ h. record {
            active = v.active;
            few = v.few;
            numbered = ground (arith, room, h);
            used = v.used;
            placed = v.placed;
            apart = v.apart;
            paged = v.paged;
          })
          (λ h. v)

count_of_active : (l : CalSegList) → l.activated ≡ true → get_cal_seg_count l ≡ l.count
count_of_active l h = rw h refl

register_cal_seg-IsWf :
    (at page_size : ℕ) (c : CalSeg) (l : CalSegList)
    → IsWf l
    → IsMade page_size (some c)
    → ((i : ℕ) → i < l.count → l.offset i + calseg_bytes (l.calsegs i).size ≤ at)
    → at + calseg_bytes page_size ≤ l.cal_mem_used
    → IsWf (register_cal_seg at c l).1
unfolding register_cal_seg register_at set_calseg
register_cal_seg-IsWf at page_size c l v made below fits =
    subst (λ i. IsWf (register_at i at c l).1) (sym (count_of_active l v.active))
      (if_cases (λ (o : ℕ × CalSegList). IsWf o.1) (leb 7 l.count) (λ full. v)
        (λ room. record {
          active = v.active;
          few = ground (arith, room);
          numbered = v.numbered;
          used = v.used;
          placed = λ k h. elim (Bool-cases (k == l.count)) [
            | inl new ↦ rw (new, made.0) fits
            | inr old ↦ rw old (v.placed k (ground (arith, old, h)))
          ];
          apart = λ k j lt h. elim (Bool-cases (j == l.count)) [
            | inl new ↦
                rw (new, not_new k (ground (arith, new, lt))) (below k (ground (arith, new, lt)))
            | inr old ↦
                rw (old, not_new k (ground (arith, old, lt, h)))
                  (v.apart k j lt (ground (arith, old, h)))
          ];
          paged = λ k h.
              if_cases IsOrdered (k == l.count)
                (λ new. subst (λ size. IsPaged (aligned_page_size size) c) (sym made.0) made.1)
                (λ old. v.paged k (ground (arith, old, h)));
        }))
  where
    not_new : (k : ℕ) → k < l.count → (k == l.count) ≡ false
    not_new k h = ground arith

register_made-IsWf :
    (at page_size : ℕ) (o : Option CalSeg × CalSegList) (l : CalSegList)
    → IsWf o.1 × SameList l o.1 × IsMade page_size o.0
    → ((i : ℕ) → i < l.count → l.offset i + calseg_bytes (l.calsegs i).size ≤ at)
    → at + calseg_bytes page_size ≤ l.cal_mem_used
    → IsWf (register_made at o).1
unfolding register_made
register_made-IsWf at page_size (none, l') l (v, same, made) below fits = v
register_made-IsWf at page_size (some c, l') l (v, same, made) below fits =
    register_cal_seg-IsWf at page_size c l' v made
      (λ i h. rw ((same.2 i).0, (same.2 i).1) (below i (omega (arith, h, same.0))))
      (omega (arith, fits, same.1))

-- A new segment of at most 65528 bytes leaves the list well-formed.
pub new_cal_seg-IsWf :
    (name : List ℕ) (source : PageSource) (page_size : ℕ) (memory_segment : Bool) (l : CalSegList)
    → 0 < page_size
    → page_size ≤ 65528
    → IsWf l
    → Returns IsWf (new_cal_seg name source page_size memory_segment l)
unfolding new_cal_seg cal_mem_alloc new_in
new_cal_seg-IsWf name source page_size memory_segment l pos small v =
    if_cases
      (λ (o : Option ℕ × CalSegList). Returns IsWf (new_in name source page_size memory_segment o))
      (ltb 5120 ((l.cal_mem_used + calseg_bytes page_size) % 4294967296)) (λ full. tt)
      (λ room.
        let used : (l.cal_mem_used + calseg_bytes page_size) % 4294967296
            ≡ l.cal_mem_used + calseg_bytes page_size =
          omega (arith, v.used, small) in
        register_made-IsWf l.cal_mem_used page_size _
          (record l { cal_mem_used = (l.cal_mem_used + calseg_bytes page_size) % 4294967296 })
          (init_cal_seg-IsMade name source page_size memory_segment _ pos small (record {
            active = v.active;
            few = v.few;
            numbered = v.numbered;
            used = ground (arith, room);
            placed = λ i h. omega (arith, v.placed i h, used);
            apart = v.apart;
            paged = v.paged;
          }))
          v.placed (omega (arith, used)))

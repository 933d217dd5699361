-- ===== src/Cal/Written.antt =====
-- What the XCP client writes to a calibration segment and reads from it, src/cal.c:
-- `XcpCalSegWriteMemory` and `XcpCalSegReadMemory`.
use xcplite.Prelude.{
  ℕ, ◌+◌, ◌-◌, ◌≤◌, ◌<◌, ◌≡◌, ◌≢◌, ◌⊎◌, inl, inr, refl, sym, ap, subst, Bool, true, false, not,
  ◌==◌, ◌||◌, ltb, leb, if_cases, arith, List, length, get_or,
}
use xcplite.Config.{crc_cmd_ok, crc_access_denied}
use xcplite.Daq.Address.{decode_seg_number, decode_seg_offset}
use xcplite.Mta.{write_bytes}
use xcplite.Mta.Transfer.{read_bytes-get_or}
use xcplite.Cal.{
  CalSeg, CalSegList, xcp_calseg_no_page, xcp_calpage_working_page, copy_within, set_calseg,
  get_cal_seg_count,
}
use xcplite.Cal.Rcu.{rcu_try_publish}
use xcplite.Cal.Access.{
  client_page, cal_seg_publish, end_publish, write_page, cal_seg_read_memory, cal_seg_write_memory,
}

-- A segment whose client, on the working page, finds `bytes` at `offset`.
record Holds (size offset : ℕ) (bytes : List ℕ) (c : CalSeg) : Type 0 where
  same_size : c.size ≡ size
  working : c.xcp_access ≡ xcp_calpage_working_page
  held : (k : ℕ) → k < length bytes → c.b (c.xcp_page + offset + k) ≡ get_or bytes k 0

written-Holds :
    (offset : ℕ) (bytes : List ℕ) (c : CalSeg)
    → c.xcp_access ≡ xcp_calpage_working_page
    → Holds c.size offset bytes (record c { b = write_bytes c.b (c.xcp_page + offset) bytes })
unfolding write_bytes
written-Holds offset bytes c h = record {
  same_size = refl;
  working = h;
  held = λ k lt. ground arith;
}

-- the publication takes the bytes along to the new page
try_publish-Holds :
    (size offset : ℕ) (bytes : List ℕ) (c : CalSeg)
    → offset + length bytes ≤ size
    → Holds size offset bytes c
    → Holds size offset bytes (rcu_try_publish c).1
unfolding rcu_try_publish copy_within
try_publish-Holds size offset bytes c fits v =
    if_cases (λ (o : Bool × CalSeg). Holds size offset bytes o.1)
      (c.free_page == xcp_calseg_no_page || c.free_page_hazard) (λ h. v)
      (λ h. record {
        same_size = v.same_size;
        working = v.working;
        held = λ k lt.
            let at : c.xcp_page + (c.free_page + offset + k - c.free_page)
                ≡ c.xcp_page + offset + k =
              omega arith in
            ground (arith, v.same_size, ap c.b at, v.held k lt);
      })

publish-Holds :
    (readers : ℕ → CalSeg → CalSeg) (size offset : ℕ) (bytes : List ℕ) (c : CalSeg)
    → offset + length bytes ≤ size
    → Holds size offset bytes c
    → Holds size offset bytes (cal_seg_publish readers false c).1
unfolding cal_seg_publish end_publish
publish-Holds readers size offset bytes c fits v =
    let t = try_publish-Holds size offset bytes c fits v in
    if_cases (λ (o : ℕ × CalSeg). Holds size offset bytes o.1) (not (rcu_try_publish c).0)
      (λ h. pending true t) (λ h. pending false t)
  where
    pending :
        (b : Bool) {c : CalSeg}
        → Holds size offset bytes c
        → Holds size offset bytes (record c { write_pending = b })
    pending b t = record { same_size = t.same_size; working = t.working; held = t.held }

write_page-Holds :
    (readers : ℕ → CalSeg → CalSeg) (delayed : Bool) (offset : ℕ) (bytes : List ℕ) (c : CalSeg)
    → c.xcp_access ≡ xcp_calpage_working_page
    → offset + length bytes ≤ c.size
    → Holds c.size offset bytes (write_page readers delayed offset bytes c)
unfolding write_page
write_page-Holds readers delayed offset bytes c working fits =
    let w = written-Holds offset bytes c working in
    if_cases (Holds c.size offset bytes) delayed
      (λ h. record { same_size = w.same_size; working = w.working; held = w.held })
      (λ h. publish-Holds readers c.size offset bytes _ fits w)

-- a segment that holds the bytes gives them to the client
read-Holds :
    (src : ℕ) (bytes : List ℕ) (l : CalSegList) (size : ℕ)
    → decode_seg_number src < get_cal_seg_count l
    → decode_seg_offset src + length bytes ≤ size
    → Holds size (decode_seg_offset src) bytes (l.calsegs (decode_seg_number src))
    → cal_seg_read_memory src (length bytes) l ≡ (crc_cmd_ok, bytes)
unfolding cal_seg_read_memory
read-Holds src bytes l size known fits v =
    let c = l.calsegs (decode_seg_number src) in
    let page : client_page c ≡ c.xcp_page = ground (arith, v.working) in
    let back = read_bytes-get_or c.b (c.xcp_page + decode_seg_offset src) bytes v.held in
    ground (arith, known, fits, v.same_size, page, back)

calseg_at : (i : ℕ) (c : CalSeg) (l : CalSegList) → (set_calseg i c l).calsegs i ≡ c
unfolding set_calseg
calseg_at i c l = ground arith

-- the reasons to refuse a write: no such segment, its end, or the client on the default page
abbrev pub RefusesAt : ℕ → ℕ → List ℕ → CalSegList → Type 0
RefusesAt seg offset bytes l =
    (get_cal_seg_count l ≤ seg)
    ⊎ ((l.calsegs seg).size < offset + length bytes)
    ⊎ ((l.calsegs seg).xcp_access ≢ xcp_calpage_working_page)

abbrev pub Refuses : ℕ → List ℕ → CalSegList → Type 0
Refuses dst bytes l = RefusesAt (decode_seg_number dst) (decode_seg_offset dst) bytes l

-- XcpCalSegWriteMemory is refused and changes nothing, which happens only for a segment that does not
-- exist, beyond the end of the segment, or where the client is on the default page; or it is accepted:
-- then XcpCalSegReadMemory at the same address gives back the bytes, published or not, and at every
-- address of another segment what it gave before.
pub write_memory-read_memory :
    (readers : ℕ → CalSeg → CalSeg) (dst : ℕ) (bytes : List ℕ) (l : CalSegList)
    → let (r, l') = cal_seg_write_memory readers dst bytes l in
      ((r ≡ crc_access_denied) × (l' ≡ l) × Refuses dst bytes l)
      ⊎ ((r ≡ crc_cmd_ok)
          × (cal_seg_read_memory dst (length bytes) l' ≡ (crc_cmd_ok, bytes))
          × ((src n : ℕ)
              → decode_seg_number src ≢ decode_seg_number dst
              → cal_seg_read_memory src n l' ≡ cal_seg_read_memory src n l))
unfolding cal_seg_write_memory set_calseg cal_seg_read_memory
write_memory-read_memory readers dst bytes l =
    let i = decode_seg_number dst in
    let offset = decode_seg_offset dst in
    let c = l.calsegs i in
    if_cases P (leb (get_cal_seg_count l) i) (λ h. inl (refl, refl, inl (ground arith)))
      (λ known.
        if_cases P (ltb c.size (offset + length bytes))
          (λ h. inl (refl, refl, inr (inl (ground arith))))
          (λ fits.
            if_cases P (not (c.xcp_access == xcp_calpage_working_page))
              (λ h. inl (refl, refl, inr (inr (ground arith))))
              (λ working.
                let written = write_page readers l.write_delayed offset bytes c in
                let l' = set_calseg i written l in
                inr (
                  refl,
                  read-Holds dst bytes l' c.size (ground arith) (ground arith) (
                      subst (Holds c.size offset bytes) (sym (calseg_at i written l)) (
                        write_page-Holds readers l.write_delayed offset bytes c (ground arith)
                          (ground arith))),
                  λ src n other. ground arith,
                ))))
  where
    P : ℕ × CalSegList → Type 0
    P (r, l') =
        ((r ≡ crc_access_denied) × (l' ≡ l) × Refuses dst bytes l)
        ⊎ ((r ≡ crc_cmd_ok)
            × (cal_seg_read_memory dst (length bytes) l' ≡ (crc_cmd_ok, bytes))
            × ((src n : ℕ)
                → decode_seg_number src ≢ decode_seg_number dst
                → cal_seg_read_memory src n l' ≡ cal_seg_read_memory src n l))

-- ===== src/Cal/Access.antt =====
-- Access to the calibration segments and publication of the changes, src/cal.c: `XcpLockCalSeg`,
-- `XcpUnlockCalSeg`, `XcpCalSegReadMemory` to `XcpCalSegWriteMemory`, and the transactions.
use xcplite.Prelude.{
  ℕ, zero, suc, ◌+◌, ◌-◌, not, Bool, true, false, List, [], length, ltb, leb, ◌==◌, if◌then◌else◌,
}
use xcplite.Config.{crc_cmd_ok, crc_cmd_pending, crc_access_denied}
use xcplite.Daq.Address.{decode_seg_number, decode_seg_offset}
use xcplite.Mta.{read_bytes, write_bytes}
use xcplite.Cal.{
  CalSeg, CalSegList, xcp_calpage_working_page, default_page_offset, set_calseg, get_cal_seg_count,
}
use xcplite.Cal.Rcu.{rcu_lock, rcu_unlock, rcu_try_publish}

-- `XcpLockCalSeg` and `XcpUnlockCalSeg` on a valid index of an activated list
unfoldable pub lock_cal_seg : ℕ → CalSegList → ℕ × CalSegList
unfolding set_calseg
lock_cal_seg i l = let (page, c) = rcu_lock (l.calsegs i) in (page, set_calseg i c l)

unfoldable pub unlock_cal_seg : ℕ → CalSegList → CalSegList
unfolding set_calseg
unlock_cal_seg i l = set_calseg i (rcu_unlock (l.calsegs i)) l

-- the page that the XCP client sees
abbrev pub client_page : CalSeg → ℕ
client_page c = if c.xcp_access == xcp_calpage_working_page then c.xcp_page else default_page_offset

-- `XcpCalSegReadMemory`: the code and the bytes
unfoldable pub cal_seg_read_memory : ℕ → ℕ → CalSegList → ℕ × List ℕ
unfolding read_bytes
cal_seg_read_memory src size l =
    let i = decode_seg_number src in
    let offset = decode_seg_offset src in
    let c = l.calsegs i in
    if leb (get_cal_seg_count l) i
    then (crc_access_denied, [])
    else if ltb c.size (offset + size)
    then (crc_access_denied, [])
    else (crc_cmd_ok, read_bytes c.b (client_page c + offset) size)

-- `readers n c`: what the reading threads make of a segment while the server sleeps, with `n`
-- rounds left.
module _ (readers : ℕ → CalSeg → CalSeg) where
  -- The loop of `XcpCalSegPublish`.
  unfoldable pub publish_within : ℕ → CalSeg → Bool × CalSeg
  publish_within zero c = (false, c)
  publish_within (suc n) c =
      let (published, c') = rcu_try_publish (readers n c) in
      let rest = publish_within n c' in if published then (true, c') else rest

  -- the end of `XcpCalSegPublish`
  unfoldable pub end_publish : Bool → Bool × CalSeg → ℕ × CalSeg
  end_publish wait (true, c) = (crc_cmd_ok, record c { write_pending = false })
  end_publish wait (false, c) =
      (if wait then crc_access_denied else crc_cmd_pending, record c { write_pending = true })

  -- `XcpCalSegPublish`; XCP_CALSEG_AQUIRE_FREE_PAGE_TIMEOUT is 500.
  unfoldable pub cal_seg_publish : Bool → CalSeg → ℕ × CalSeg
  unfolding publish_within end_publish
  cal_seg_publish wait c =
      let (published, c') = rcu_try_publish c in
      let later = end_publish wait (publish_within 500 c') in
      if not published
      then if wait then later else end_publish wait (false, c')
      else end_publish wait (true, c')

  -- The loop of `XcpCalSegPublishAll`, over `n` segments from `i` on.
  unfoldable pub publish_from : Bool → ℕ → ℕ → ℕ → CalSegList → ℕ × CalSegList
  unfolding set_calseg
  publish_from wait zero i res l = (res, l)
  publish_from wait (suc n) i res l =
      let (r, c) = cal_seg_publish wait (l.calsegs i) in
      let pending = (l.calsegs i).write_pending in
      publish_from wait n (i + 1) (if pending then if r == crc_cmd_ok then res else r else res)
        (if pending then set_calseg i c l else l)

  -- `XcpCalSegPublishAll`: the EPK segment 0 is left out.
  unfoldable pub cal_seg_publish_all : Bool → CalSegList → ℕ × CalSegList
  unfolding publish_from
  cal_seg_publish_all wait l =
      if l.write_delayed
      then (crc_cmd_ok, l)
      else publish_from wait (get_cal_seg_count l - 1) 1 crc_cmd_ok l

  -- `XcpCalSegBeginAtomicTransaction` and `XcpCalSegEndAtomicTransaction`
  unfoldable pub begin_atomic_transaction : CalSegList → CalSegList
  begin_atomic_transaction l = record l { write_delayed = true }

  unfoldable pub end_atomic_transaction : CalSegList → ℕ × CalSegList
  unfolding cal_seg_publish_all
  end_atomic_transaction l = cal_seg_publish_all true (record l { write_delayed = false })

  -- the bytes in the page of the server, and its publication unless a transaction delays it
  unfoldable pub write_page : Bool → ℕ → List ℕ → CalSeg → CalSeg
  unfolding write_bytes cal_seg_publish
  write_page delayed offset bytes c =
      let written = record c { b = write_bytes c.b (c.xcp_page + offset) bytes } in
      let (r, published) = cal_seg_publish false written in
      if delayed then record written { write_pending = true } else published

  -- `XcpCalSegWriteMemory`, with lazy writes (XCP_ENABLE_CALSEG_LAZY_WRITE)
  unfoldable pub cal_seg_write_memory : ℕ → List ℕ → CalSegList → ℕ × CalSegList
  unfolding write_page set_calseg
  cal_seg_write_memory dst src l =
      let i = decode_seg_number dst in
      let offset = decode_seg_offset dst in
      let c = l.calsegs i in
      if leb (get_cal_seg_count l) i
      then (crc_access_denied, l)
      else if ltb c.size (offset + length src)
      then (crc_access_denied, l)
      else if not (c.xcp_access == xcp_calpage_working_page)
      then (crc_access_denied, l)
      else (crc_cmd_ok, set_calseg i (write_page l.write_delayed offset src c) l)

-- ===== src/Command/Segments/Transfer.antt =====
-- What DOWNLOAD writes to a calibration segment and UPLOAD reads from it, src/xcplite.c, src/cal.c.
use xcplite.Prelude.{
  ℕ, ◌<◌, ◌∙◌, subst, ◌≤◌, ◌≡◌, ◌≢◌, ◌⊎◌, inl, inr, refl, ap, arith, List, length,
}
use xcplite.Config.{crc_cmd_ok, crc_access_denied, xcp_addr_ext_seg}
use xcplite.Daq.Address.{encode_seg_number, decode_seg_number, decode-encode_seg}
use xcplite.Mta.{Mta, set_mta, write_mta, read_mta}
use xcplite.Cal.Access.{cal_seg_read_memory}
use xcplite.Cal.Written.{RefusesAt, write_memory-read_memory}
use xcplite.Command.Segments.{Host, CalWorld, cal_backend}

module _ (h : Host) where
  open h use {State}

  -- SET_MTA to a segment points there.
  set_mta_seg :
      (addr : ℕ) (m : Mta)
      → 0x80000000 ≤ addr
      → set_mta (cal_backend h) xcp_addr_ext_seg addr m
        ≡ (crc_cmd_ok, record m { mta_ext = xcp_addr_ext_seg; mta_addr = addr; mta_ptr = 0 })
  unfolding set_mta
  set_mta_seg addr m le = ground arith

  -- DOWNLOAD behind a SET_MTA to a segment, its number of 15 bits and an offset of 16 bits, is denied and
  -- changes no segment, which happens only for a segment that does not exist, beyond the end of the
  -- segment, or where the client is on the default page; or it succeeds, and UPLOAD of as many bytes
  -- behind a SET_MTA to the same address gives them back, while other segments are read as before.
  -- What surrounds the segments stays as it was.
  pub write_mta_seg-read_mta :
      (seg offset : ℕ) (bytes : List ℕ) (m : Mta) (w : CalWorld State)
      → seg < 32768
      → offset < 65536
      → let b = cal_backend h in
        let addr = encode_seg_number seg offset in
        let (r1, m1, w1) = write_mta b bytes (set_mta b xcp_addr_ext_seg addr m).1 w in
        let (r2, back, m2) = read_mta b (length bytes) (set_mta b xcp_addr_ext_seg addr m1).1 w1 in
        (w1.host ≡ w.host)
        × (((r1 ≡ crc_access_denied) × (w1.cals ≡ w.cals) × RefusesAt seg offset bytes w.cals)
            ⊎ ((r1 ≡ crc_cmd_ok)
                × (r2 ≡ crc_cmd_ok)
                × (back ≡ bytes)
                × ((src n : ℕ)
                    → decode_seg_number src ≢ seg
                    → cal_seg_read_memory src n w1.cals ≡ cal_seg_read_memory src n w.cals)))
  unfolding write_mta read_mta
  write_mta_seg-read_mta seg offset bytes m w seg_lt offset_lt =
      let b = cal_backend h in
      let addr = encode_seg_number seg offset in
      let at : Mta = record m { mta_ext = xcp_addr_ext_seg; mta_addr = addr; mta_ptr = 0 } in
      let le : 0x80000000 ≤ addr = omega (arith, seg_lt, offset_lt) in
      let decoded = decode-encode_seg seg offset seg_lt offset_lt in
      rw (set_mta_seg addr m le, set_mta_seg addr (write_mta b bytes at w).1 le)
        (
          refl,
          elim (write_memory-read_memory h.readers addr bytes w.cals) [
            | inl (denied, same, why) ↦ inl (
              denied,
              same,
              subst (λ i. RefusesAt i offset bytes w.cals) decoded.0
                  (subst (λ k. RefusesAt (decode_seg_number addr) k bytes w.cals) decoded.1 why),
            )
            | inr (ok, back, others) ↦ inr (
              ok,
              ap (λ (o : ℕ × List ℕ). o.0) back,
              ap (λ (o : ℕ × List ℕ). o.1) back,
              λ src n ne. others src n (λ e. ne (e ∙ decoded.0)),
            )
          ],
        )

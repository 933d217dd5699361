-- ===== src/Daq/Entry/Empty.antt =====
-- An ODT to which ALLOC_ODT_ENTRY gave no entries, behind SET_DAQ_PTR and WRITE_DAQ of
-- src/xcplite.c.
use xcplite.Prelude.{ℕ, ◌+◌, ◌%◌, ◌≤◌, ◌<◌, ◌≡◌, refl, ◌≢◌, ◌⊎◌, inl, inr, arith, false}
use xcplite.State.{Xcp, is_daq_running}
use xcplite.Config.{crc_cmd_ok}
use xcplite.Daq.Tables.{first_odt, last_odt, first_odt_entry, last_odt_entry, odt_size, entry_size}
use xcplite.Daq.Layout.{IsWf}
use xcplite.Daq.Entry.{set_daq_ptr, add_odt_entry}
use xcplite.Daq.Entry.Written.{odt_size-new, entry_size-new}
use xcplite.Daq.Entry.Cursor.{add_odt_entry-Accepted}

cursor-empty :
    (daq odt : ℕ) (x : Xcp)
    → IsWf x.daq_lists
    → 0 < x.daq_lists.odt_entry_count
    → daq < x.daq_lists.daq_count
    → first_odt x.daq_lists daq + odt ≤ last_odt x.daq_lists daq
    → is_daq_running x ≡ false
    → first_odt_entry x.daq_lists (first_odt x.daq_lists daq + odt) ≡ 0
    → last_odt_entry x.daq_lists (first_odt x.daq_lists daq + odt) ≡ 0
    → set_daq_ptr daq odt 0 x ≡ (
      crc_cmd_ok,
      record x {
        write_daq_odt_entry = 0;
        write_daq_odt = first_odt x.daq_lists daq + odt;
        write_daq_daq = daq;
      },
    )
unfolding set_daq_ptr
cursor-empty daq odt x v some_entries daq_in odt_in stopped first last =
    rw (small, first, last) (ground (arith, first, last, stopped, daq_in, odt_in, small))
  where
    small : (first_odt x.daq_lists daq + odt) % 65536 ≡ first_odt x.daq_lists daq + odt
    small = ground (arith, odt_in, v.lists daq, v.fits)

-- What WRITE_DAQ at the entry 0 through the ODT `odt` makes of the tables.
abbrev pub Rewrites : ℕ → ℕ → ℕ → ℕ → Xcp → Type 0
Rewrites odt addr ext size x =
    let (r, x') = add_odt_entry addr ext size x in
    ((r ≢ crc_cmd_ok) × (x' ≡ x))
    ⊎ ((entry_size x'.daq_lists 0 ≡ size)
        × ((o : ℕ)
            → o < x.daq_lists.odt_count
            → o ≢ odt
            → odt_size x'.daq_lists o ≡ odt_size x.daq_lists o))

rewrite-Rewrites :
    (addr ext size : ℕ) (x : Xcp)
    → IsWf x.daq_lists
    → x.write_daq_odt < x.daq_lists.odt_count
    → x.write_daq_odt_entry ≡ 0
    → Rewrites x.write_daq_odt addr ext size x
rewrite-Rewrites addr ext size x v odt_in zero_entry =
    elim (add_odt_entry-Accepted addr ext size x) [
      | inl (same, err) ↦ inl (err, same)
      | inr a ↦
          let in_range : x.write_daq_odt_entry < x.daq_lists.odt_entry_count =
            omega (arith, a.some_entries, zero_entry) in
          rw a.done (
            inr (
              ground (
                arith,
                zero_entry,
                a.sized,
                a.some_entries,
                entry_size-new size ext a.offset a.event x v a.daq_in odt_in in_range 0,
              ),
              λ o p ne. ground (
                arith,
                ne,
                odt_size-new size ext a.offset a.event x v a.daq_in odt_in in_range o p,
              ),
            ))
    ]

-- For an ODT without entries, whose range is the entry 0: SET_DAQ_PTR accepts its entry 0 on well-
-- formed DAQ memory while data acquisition is stopped and entries are allocated, and WRITE_DAQ is
-- then refused and changes nothing, or it gives the entry 0 the new size while the sizes of all
-- other ODTs, the owner of the entry 0 among them, stay as they were.
pub add_odt_entry-set_daq_ptr :
    (daq odt addr ext size : ℕ) (x : Xcp)
    → IsWf x.daq_lists
    → 0 < x.daq_lists.odt_entry_count
    → daq < x.daq_lists.daq_count
    → first_odt x.daq_lists daq + odt ≤ last_odt x.daq_lists daq
    → is_daq_running x ≡ false
    → first_odt_entry x.daq_lists (first_odt x.daq_lists daq + odt) ≡ 0
    → last_odt_entry x.daq_lists (first_odt x.daq_lists daq + odt) ≡ 0
    → let (r, x') = set_daq_ptr daq odt 0 x in
      (r ≡ crc_cmd_ok) × Rewrites (first_odt x.daq_lists daq + odt) addr ext size x'
add_odt_entry-set_daq_ptr daq odt addr ext size x v some_entries daq_in odt_in stopped first last =
    rw (cursor-empty daq odt x v some_entries daq_in odt_in stopped first last) (
      refl,
      rewrite-Rewrites addr ext size
          (record x {
            write_daq_odt_entry = 0;
            write_daq_odt = first_odt x.daq_lists daq + odt;
            write_daq_daq = daq;
          })
          v (ground (arith, v.lists daq, v.has_odts, odt_in)) refl,
    )

-- ===== src/Daq/Entry/Written.antt =====
-- What an accepted WRITE_DAQ leaves in the tables, and that a refused one leaves everything.
use xcplite.Prelude.{
  ℕ, ◌+◌, ◌%◌, ◌≤◌, ◌<◌, ◌≡◌, refl, ◌⊎◌, inl, inr, ◌≢◌, arith, Bool-cases, ◌==◌, ltb, false,
  if◌then◌else◌,
}
use xcplite.Memory.{get8, get16, get32, put8, put16, put32}
use xcplite.State.{DaqLists, Xcp, is_daq_running}
use xcplite.Config.{crc_cmd_ok, crc_daq_config}
use xcplite.Daq.Alloc.{used_memory}
use xcplite.Daq.Tables.{
  first_odt, last_odt, first_odt_entry, last_odt_entry, odt_size, entry_size, entry_addr, entry_ext,
  set_event_channel, set_odt_size, event_channel,
}
use xcplite.Daq.Layout.{IsWf}
use xcplite.Daq.Entry.{
  Decoded, decoded, refused, decode_entry, max_odt_size, checked_odt_size, commit_entry, size_after,
  place_entry, add_odt_entry,
}

-- The tables behind an accepted entry.
abbrev pub written : ℕ → ℕ → ℕ → Xcp → DaqLists
written size offset event x =
    let l = x.daq_lists in
    let l1 =
      set_odt_size l x.write_daq_odt (size_after l x.write_daq_odt x.write_daq_odt_entry size) in
    set_event_channel l1 x.write_daq_daq event

abbrev pub after_write : ℕ → ℕ → ℕ → ℕ → Xcp → Xcp
after_write size ext offset event x = record x {
  daq_lists = commit_entry x.write_daq_odt_entry size offset ext (written size offset event x);
  write_daq_odt_entry = (x.write_daq_odt_entry + 1) % 65536;
}

abbrev pub FitsOdt : ℕ → Xcp → Type 0
FitsOdt size x =
    size_after x.daq_lists x.write_daq_odt x.write_daq_odt_entry size
    ≤ max_odt_size x.daq_lists x.write_daq_daq x.write_daq_odt

pub outcome-place_entry :
    (size ext : ℕ) (d : Decoded) (x : Xcp)
    → (((place_entry size ext d x).1 ≡ x)
        × ((d ≡ refused (place_entry size ext d x).0)
            ⊎ ((place_entry size ext d x).0 ≡ crc_daq_config)))
      ⊎ ((offset : ℕ) × (event : ℕ) × (d ≡ decoded offset event)
          × FitsOdt size x
          × (place_entry size ext d x ≡ (crc_cmd_ok, after_write size ext offset event x)))
unfolding place_entry checked_odt_size
outcome-place_entry size ext (refused err) x = inl (refl, inl refl)
outcome-place_entry size ext (decoded offset event) x =
    elim (Bool-cases (
      ltb (max_odt_size x.daq_lists x.write_daq_daq x.write_daq_odt)
        (size_after x.daq_lists x.write_daq_odt x.write_daq_odt_entry size))) [
          | inl over ↦ inl (rw (over, place_entry) refl, inr (rw (over, place_entry) refl))
          | inr fits ↦ inr (offset, event, refl, ground arith, rw (fits, place_entry))
        ]

-- The guards of `XcpAddOdtEntry` that stand before the decoding.
pub guards-add_odt_entry :
    (addr ext size : ℕ) (x : Xcp)
    → let l = x.daq_lists in
      (((add_odt_entry addr ext size x).1 ≡ x) × ((add_odt_entry addr ext size x).0 ≢ crc_cmd_ok))
      ⊎ ((0 < size)
          × (size ≤ 248)
          × (x.write_daq_daq < l.daq_count)
          × (0 < l.odt_count)
          × (0 < l.odt_entry_count)
          × (x.write_daq_odt_entry ≤ last_odt_entry l x.write_daq_odt)
          × (is_daq_running x ≡ false)
          × (add_odt_entry addr ext size x
              ≡ place_entry size ext (decode_entry l x.write_daq_daq addr ext) x))
unfolding add_odt_entry
guards-add_odt_entry addr ext size x = ground arith

-- The bytes of an entry and of its ODT are told apart from all others: what each table holds
-- behind an accepted entry.
module _ (size ext offset event : ℕ) (x : Xcp) (v : IsWf x.daq_lists)
    (daq_in : x.write_daq_daq < x.daq_lists.daq_count)
    (odt_in : x.write_daq_odt < x.daq_lists.odt_count)
    (entry_in : x.write_daq_odt_entry < x.daq_lists.odt_entry_count) where
  abbrev pub new : DaqLists
  new = (after_write size ext offset event x).daq_lists

  pub entry_size-new :
      (e : ℕ)
      → e < x.daq_lists.odt_entry_count
      → entry_size new e
        ≡ (if e == x.write_daq_odt_entry then size % 256 else entry_size x.daq_lists e)
  unfolding commit_entry get8 put8 put16 put32
  entry_size-new e h = ground arith

  pub entry_ext-new :
      (e : ℕ)
      → e < x.daq_lists.odt_entry_count
      → entry_ext new e
        ≡ (if e == x.write_daq_odt_entry then ext % 256 else entry_ext x.daq_lists e)
  unfolding commit_entry get8 put8 put16 put32
  entry_ext-new e h = ground arith

  pub entry_addr-new_self : offset < 4294967296 → entry_addr new x.write_daq_odt_entry ≡ offset
  unfolding commit_entry get32 put8 put16 put32
  entry_addr-new_self h = ground arith

  pub entry_addr-new_ne :
      (e : ℕ)
      → e < x.daq_lists.odt_entry_count
      → e ≢ x.write_daq_odt_entry
      → entry_addr new e ≡ entry_addr x.daq_lists e
  unfolding commit_entry get32 put8 put16 put32
  entry_addr-new_ne e h ne = ground arith

  pub odt_size-new :
      (odt : ℕ)
      → odt < x.daq_lists.odt_count
      → odt_size new odt ≡ (
          if odt == x.write_daq_odt
          then size_after x.daq_lists x.write_daq_odt x.write_daq_odt_entry size
          else odt_size x.daq_lists odt)
  unfolding commit_entry get16 put8 put16 put32
  odt_size-new odt h = ground arith

  pub entries-new :
      (odt : ℕ)
      → odt < x.daq_lists.odt_count
      → (first_odt_entry new odt ≡ first_odt_entry x.daq_lists odt)
        × (last_odt_entry new odt ≡ last_odt_entry x.daq_lists odt)
  unfolding commit_entry get16 put8 put16 put32
  entries-new odt h = ground arith

  pub odts-new :
      (daq : ℕ)
      → daq < x.daq_lists.daq_count
      → (first_odt new daq ≡ first_odt x.daq_lists daq)
        × (last_odt new daq ≡ last_odt x.daq_lists daq)
  unfolding commit_entry get16 put8 put16 put32
  odts-new daq h = ground arith

  pub event_channel-new :
      (daq : ℕ)
      → daq < x.daq_lists.daq_count
      → event < 65536
      → event_channel new daq
        ≡ (if daq == x.write_daq_daq then event else event_channel x.daq_lists daq)
  unfolding commit_entry get16 put8 put16 put32
  event_channel-new daq h k = ground arith

  -- Nothing behind the tables is written.
  pub mem-new : (i : ℕ) → used_memory x.daq_lists ≤ i → new.mem i ≡ x.daq_lists.mem i
  unfolding commit_entry put8 put16 put32
  mem-new i h = ground arith

  pub counts-new :
      (new.daq_count ≡ x.daq_lists.daq_count)
      × (new.odt_count ≡ x.daq_lists.odt_count)
      × (new.odt_entry_count ≡ x.daq_lists.odt_entry_count)
  unfolding commit_entry
  counts-new = (refl, refl, refl)

  pub new-IsWf : IsWf new
  new-IsWf = record {
    fits = omega (arith, counts-new, v.fits);
    has_lists = λ p. omega (arith, counts-new);
    has_odts = λ p. omega (arith, counts-new);
    lists = λ daq p. ground (arith, counts-new, odts-new daq, v.lists daq);
    odts = λ odt p. ground (arith, counts-new, entries-new odt, v.odts odt);
    fresh = λ e i p. absurd (omega (arith, counts-new));
  }

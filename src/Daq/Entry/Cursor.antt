-- ===== src/Daq/Entry/Cursor.antt =====
-- WRITE_DAQ through the cursor of SET_DAQ_PTR, src/xcplite.c: `XcpSetDaqPtr`, `XcpAddOdtEntry`,
-- and the loop of WRITE_DAQ_MULTIPLE.
use xcplite.Prelude.{
  ℕ, ◌+◌, ◌≤◌, ◌<◌, ◌≡◌, refl, subst, ◌⊎◌, inl, inr, ◌∙◌, ◌≢◌, arith, ◌==◌, false, List, [], ◌∷◌,
  Bool-cases, ap, sym,
}
use xcplite.State.{DaqLists, Xcp, is_daq_running}
use xcplite.Config.{crc_cmd_ok, xcp_undefined_daq_list}
use xcplite.Daq.Tables.{last_odt_entry, entry_size, entry_addr, entry_ext}
use xcplite.Daq.Layout.{IsWf}
use xcplite.Daq.Alloc.{clear_daq, used_memory, empty_daq_lists}
use xcplite.Daq.Alloc.Lists.{first-reset_daq_first}
use xcplite.Daq.Entry.{decoded, refused, add_odt_entry, add_odt_entries, EntrySpec, decode_entry}
use xcplite.Daq.Entry.Written.{
  after_write, FitsOdt, entry_size-new, entry_ext-new, entry_addr-new_self, entry_addr-new_ne,
  entries-new, odts-new, counts-new, new-IsWf, outcome-place_entry, guards-add_odt_entry, mem-new,
}
use xcplite.Daq.Entry.Sized.{
  IsDisjoint, IsSized, IsCursor, new-IsSized, new-IsDisjoint, IsShort, IsNested, new-IsShort,
  new-IsNested,
}

decode_entry-refused :
    (l : DaqLists) (daq addr ext err : ℕ)
    → decode_entry l daq addr ext ≡ refused err
    → err ≢ crc_cmd_ok
unfolding decode_entry
decode_entry-refused l daq addr ext err h = ground arith

-- What an accepted WRITE_DAQ has found and done.
pub record Accepted (addr ext size : ℕ) (x : Xcp) : Type 0 where
  pub offset : ℕ
  pub event : ℕ
  pub sized : (0 < size) × (size ≤ 248)
  pub daq_in : x.write_daq_daq < x.daq_lists.daq_count
  pub some_odts : 0 < x.daq_lists.odt_count
  pub some_entries : 0 < x.daq_lists.odt_entry_count
  pub entry_in : x.write_daq_odt_entry ≤ last_odt_entry x.daq_lists x.write_daq_odt
  pub stopped : is_daq_running x ≡ false
  pub from_addr : decode_entry x.daq_lists x.write_daq_daq addr ext ≡ decoded offset event
  pub fits : FitsOdt size x
  pub done : add_odt_entry addr ext size x ≡ (crc_cmd_ok, after_write size ext offset event x)

pub add_odt_entry-Accepted :
    (addr ext size : ℕ) (x : Xcp)
    → (((add_odt_entry addr ext size x).1 ≡ x) × ((add_odt_entry addr ext size x).0 ≢ crc_cmd_ok))
      ⊎ Accepted addr ext size x
add_odt_entry-Accepted addr ext size x = elim (guards-add_odt_entry addr ext size x) [
  | inl same ↦ inl same
  | inr (h1, h2, h3, h4, h5, h6, h7, e) ↦
      elim (outcome-place_entry size ext (decode_entry x.daq_lists x.write_daq_daq addr ext) x) [
        | inl (same, why) ↦ inl (
          rw e same,
          rw e (elim why [
            | inl r ↦ decode_entry-refused x.daq_lists x.write_daq_daq addr ext _ r
            | inr c ↦ rw c (λ p. absurd (omega arith))
          ]),
        )
        | inr (o, ev, d, f, done) ↦ inr (record {
          offset = o;
          event = ev;
          sized = (h1, h2);
          daq_in = h3;
          some_odts = h4;
          some_entries = h5;
          entry_in = h6;
          stopped = h7;
          from_addr = d;
          fits = f;
          done = e ∙ done;
        })
      ]
]

-- A refused WRITE_DAQ changes nothing: neither the tables nor the cursor.
pub add_odt_entry_atomic :
    (addr ext size : ℕ) (x : Xcp)
    → (add_odt_entry addr ext size x).0 ≢ crc_cmd_ok
    → (add_odt_entry addr ext size x).1 ≡ x
add_odt_entry_atomic addr ext size x h = elim (add_odt_entry-Accepted addr ext size x) [
  | inl (same, _) ↦ same
  | inr a ↦ absurd (h (ap (λ r. r.0) a.done))
]

-- The configuration that WRITE_DAQ works on.
pub record IsReady (x : Xcp) : Type 0 where
  pub wf : IsWf x.daq_lists
  pub disjoint : IsDisjoint x.daq_lists
  pub sized : IsSized x.daq_lists
  pub nested : IsNested x.daq_lists
  pub short : IsShort x.daq_lists
  pub cursor : IsCursor x

module _ (addr ext size : ℕ) (x : Xcp) (a : Accepted addr ext size x) (v : IsReady x) where
  in_range : x.write_daq_odt_entry < x.daq_lists.odt_entry_count
  in_range = ground (arith, a.some_entries, a.entry_in, v.wf.odts x.write_daq_odt, v.cursor)

  after_write-IsReady : IsReady (after_write size ext a.offset a.event x)
  after_write-IsReady = record {
    wf = new-IsWf size ext a.offset a.event x v.wf a.daq_in v.cursor.0 in_range;
    disjoint =
        new-IsDisjoint size ext a.offset a.event x v.wf a.daq_in v.cursor.0 in_range a.sized.1
          v.disjoint;
    sized =
        new-IsSized size ext a.offset a.event x v.wf a.daq_in v.cursor.0 in_range a.sized.1
          v.cursor.1 a.entry_in a.fits v.disjoint v.sized;
    nested =
        new-IsNested size ext a.offset a.event x v.wf a.daq_in v.cursor.0 in_range a.sized.1
          v.nested;
    short =
        new-IsShort size ext a.offset a.event x v.wf a.daq_in v.cursor.0 in_range a.sized.1
          v.cursor.2 v.cursor.3 a.fits v.nested v.short;
    cursor = ground (
      arith,
      v.cursor,
      v.wf.fits,
      in_range,
      counts-new size ext a.offset a.event x v.wf a.daq_in v.cursor.0 in_range,
      entries-new size ext a.offset a.event x v.wf a.daq_in v.cursor.0 in_range x.write_daq_odt,
      odts-new size ext a.offset a.event x v.wf a.daq_in v.cursor.0 in_range x.write_daq_daq
          a.daq_in,
    );
  }

-- WRITE_DAQ, accepted or refused, leaves the tables well-formed, the ODTs disjoint, the lists
-- nested, the size of each ODT the sum of its entries and at most 1020, that of the first ODT of a
-- list at most 1016, and the cursor on or behind the first entry of an ODT of its list.
pub add_odt_entry-IsReady :
    (addr ext size : ℕ) (x : Xcp) → IsReady x → IsReady (add_odt_entry addr ext size x).1
add_odt_entry-IsReady addr ext size x v = elim (add_odt_entry-Accepted addr ext size x) [
  | inl (same, _) ↦ rw same v
  | inr a ↦ rw a.done (after_write-IsReady addr ext size x a v)
]

-- What an accepted WRITE_DAQ of `addr`, `ext` and `size` leaves in `x'`, beside what was in `x`.
pub record ReadBack (addr ext size : ℕ) (x x' : Xcp) : Type 0 where
  pub size_written : entry_size x'.daq_lists x.write_daq_odt_entry ≡ size
  pub ext_written : entry_ext x'.daq_lists x.write_daq_odt_entry ≡ ext
  pub event : ℕ
  pub addr_written :
      decode_entry x.daq_lists x.write_daq_daq addr ext
      ≡ decoded (entry_addr x'.daq_lists x.write_daq_odt_entry) event
  pub others :
      (e : ℕ)
      → e < x.daq_lists.odt_entry_count
      → e ≢ x.write_daq_odt_entry
      → (entry_size x'.daq_lists e ≡ entry_size x.daq_lists e)
        × (entry_ext x'.daq_lists e ≡ entry_ext x.daq_lists e)
        × (entry_addr x'.daq_lists e ≡ entry_addr x.daq_lists e)
  pub behind : (i : ℕ) → used_memory x.daq_lists ≤ i → x'.daq_lists.mem i ≡ x.daq_lists.mem i
  pub next_entry : x'.write_daq_odt_entry ≡ x.write_daq_odt_entry + 1

decode_entry-offset :
    (l : DaqLists) (daq addr ext offset event : ℕ)
    → addr < 4294967296
    → decode_entry l daq addr ext ≡ decoded offset event
    → offset < 4294967296
unfolding decode_entry
decode_entry-offset l daq addr ext offset event h d = ground arith

after_write-ReadBack :
    (addr ext size : ℕ) (x : Xcp) (a : Accepted addr ext size x)
    → IsReady x
    → addr < 4294967296
    → ext < 256
    → ReadBack addr ext size x (after_write size ext a.offset a.event x)
after_write-ReadBack addr ext size x a v ha he = record {
  size_written = ground (
    arith,
    inside,
    a.sized,
    entry_size-new size ext a.offset a.event x v.wf a.daq_in v.cursor.0 inside
        x.write_daq_odt_entry,
  );
  ext_written = ground (
    arith,
    inside,
    entry_ext-new size ext a.offset a.event x v.wf a.daq_in v.cursor.0 inside x.write_daq_odt_entry,
  );
  event = a.event;
  addr_written =
      a.from_addr
      ∙ ap (λ o. decoded o a.event)
          (sym (
            entry_addr-new_self size ext a.offset a.event x v.wf a.daq_in v.cursor.0 inside
              (decode_entry-offset _ _ addr ext a.offset a.event ha a.from_addr)));
  others = λ e h ne. (
    ground
        (arith, ne, entry_size-new size ext a.offset a.event x v.wf a.daq_in v.cursor.0 inside e),
    ground (arith, ne, entry_ext-new size ext a.offset a.event x v.wf a.daq_in v.cursor.0 inside e),
    entry_addr-new_ne size ext a.offset a.event x v.wf a.daq_in v.cursor.0 inside e h ne,
  );
  behind = mem-new size ext a.offset a.event x v.wf a.daq_in v.cursor.0 inside;
  next_entry = omega (arith, inside, v.wf.fits);
}
  where
    inside : x.write_daq_odt_entry < x.daq_lists.odt_entry_count
    inside = in_range addr ext size x a v

-- An accepted WRITE_DAQ is read back: the entry under the cursor holds the size, the extension and
-- the decoded address, every other entry is as before, nothing is written behind the tables, and
-- the cursor stands on the next entry.
pub add_odt_entry-ReadBack :
    (addr ext size : ℕ) (x : Xcp)
    → IsReady x
    → addr < 4294967296
    → ext < 256
    → (add_odt_entry addr ext size x).0 ≡ crc_cmd_ok
    → ReadBack addr ext size x (add_odt_entry addr ext size x).1
add_odt_entry-ReadBack addr ext size x v ha he ok = elim (add_odt_entry-Accepted addr ext size x) [
  | inl (_, bad) ↦ absurd (bad ok)
  | inr a ↦ rw a.done (after_write-ReadBack addr ext size x a v ha he)
]

add_odt_entry-event_count :
    (addr ext size : ℕ) (x : Xcp) → (add_odt_entry addr ext size x).1.event_count ≡ x.event_count
add_odt_entry-event_count addr ext size x = elim (add_odt_entry-Accepted addr ext size x) [
  | inl (same, _) ↦ ap (λ (y : Xcp). y.event_count) same
  | inr a ↦ ap (λ (r : ℕ × Xcp). r.1.event_count) a.done
]

-- No list, ODT or entry is allocated, the cursor stands on no list, nothing is running, and none
-- of the first `n` events has a DAQ list.
abbrev pub IsFreed : ℕ → Xcp → Type 0
IsFreed n x =
    (x.daq_lists ≡ empty_daq_lists)
    × (x.write_daq_daq ≡ 0xffff)
    × (x.daq_running ≡ false)
    × ((e : ℕ) → e < n → (x.events e).daq_first ≡ xcp_undefined_daq_list)

clear_daq-IsFreed : (n : ℕ) (x : Xcp) → x.event_count ≡ n → IsFreed n (clear_daq x)
unfolding clear_daq
clear_daq-IsFreed n x h = (
  refl,
  refl,
  refl,
  λ e lt. first-reset_daq_first x.event_count x.events e (omega (arith, h, lt)),
)

-- WRITE_DAQ_MULTIPLE from a ready configuration: if every entry is accepted the configuration is
-- ready for more entries or for the start, and if one is refused the whole configuration is freed,
-- the links of the events to their lists included.
pub add_odt_entries-IsReady :
    (es : List EntrySpec) (x : Xcp)
    → IsReady x
    → (((add_odt_entries es x).0 ≡ crc_cmd_ok) × IsReady (add_odt_entries es x).1)
      ⊎ (((add_odt_entries es x).0 ≢ crc_cmd_ok) × IsFreed x.event_count (add_odt_entries es x).1)
unfolding add_odt_entries
add_odt_entries-IsReady [] x v = inl (refl, v)
add_odt_entries-IsReady (e ∷ es) x v =
    let x' = (add_odt_entry e.addr e.ext e.size x).1 in
    let same = add_odt_entry-event_count e.addr e.ext e.size x in
    elim (Bool-cases ((add_odt_entry e.addr e.ext e.size x).0 == crc_cmd_ok)) [
      | inl ok ↦ rw ok (
          subst
            (λ n.
              (((add_odt_entries es x').0 ≡ crc_cmd_ok) × IsReady (add_odt_entries es x').1)
              ⊎ (((add_odt_entries es x').0 ≢ crc_cmd_ok) × IsFreed n (add_odt_entries es x').1))
            same (add_odt_entries-IsReady es x' (add_odt_entry-IsReady e.addr e.ext e.size x v)))
      | inr bad ↦ rw bad (inr (ground arith, clear_daq-IsFreed x.event_count x' same))
    ]

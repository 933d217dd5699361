-- ===== src/Daq/Alloc/Entries.antt =====
-- New ODT entries, `XcpAllocOdtEntry`, keep the DAQ memory well-formed.
use xcplite.Prelude.{ℕ, ◌+◌, ◌-◌, ◌*◌, ◌≤◌, ◌<◌, ◌≡◌, refl, ◌⊎◌, arith}
use xcplite.Memory.{get16, put16}
use xcplite.State.{DaqLists}
use xcplite.Daq.Tables.{first_odt_entry, last_odt_entry}
use xcplite.Daq.Alloc.{used_memory, take_entries}
use xcplite.Daq.Layout.{IsWf}

-- `XcpAllocOdtEntry` gives the ODT the entries from the old count to the new one.
pub entries-take_entries :
    (odt count : ℕ) (l : DaqLists)
    → l.odt_entry_count + count < 65536
    → 0 < count
    → let l' = take_entries odt count l in
      (l'.odt_entry_count ≡ l.odt_entry_count + count)
      × (first_odt_entry l' odt ≡ l.odt_entry_count)
      × (last_odt_entry l' odt ≡ l.odt_entry_count + count - 1)
unfolding take_entries get16 put16
entries-take_entries odt count l h p = ground arith

-- It leaves what lies outside the first six bytes of that ODT alone.
pub get16-take_entries :
    (odt count : ℕ) (l : DaqLists) (p : ℕ)
    → (p + 2 ≤ 12 * l.daq_count + 8 * odt) ⊎ (12 * l.daq_count + 8 * odt + 6 ≤ p)
    → get16 (take_entries odt count l).mem p ≡ get16 l.mem p
unfolding take_entries get16 put16
get16-take_entries odt count l p h = ground arith

counts-take_entries :
    (odt count : ℕ) (l : DaqLists)
    → ((take_entries odt count l).daq_count ≡ l.daq_count)
      × ((take_entries odt count l).odt_count ≡ l.odt_count)
unfolding take_entries
counts-take_entries odt count l = (refl, refl)

pub take_entries-IsWf :
    (odt count : ℕ) (l : DaqLists)
    → IsWf l
    → odt < l.odt_count
    → 0 < count
    → l.odt_entry_count + count < 65536
    → used_memory (take_entries odt count l) < 3072
    → IsWf (take_entries odt count l)
take_entries-IsWf odt count l v hd hc h fits = record {
  fits = omega arith;
  has_lists = λ p. grind (arith, k, v.has_lists);
  has_odts = λ p. omega (arith, k.1);
  lists = λ d p. ground (
    arith,
    k,
    v.lists d,
    get16-take_entries odt count l (12 * d),
    get16-take_entries odt count l (12 * d + 2),
  );
  odts = λ i p. ground (
    arith,
    k,
    t,
    v.odts i,
    get16-take_entries odt count l (12 * l.daq_count + 8 * i),
    get16-take_entries odt count l (12 * l.daq_count + 8 * i + 2),
  );
  fresh = λ e i p. absurd (omega (arith, t.0));
}
  where
    k :
        ((take_entries odt count l).daq_count ≡ l.daq_count)
        × ((take_entries odt count l).odt_count ≡ l.odt_count)
    k = counts-take_entries odt count l

    t :
        ((take_entries odt count l).odt_entry_count ≡ l.odt_entry_count + count)
        × (first_odt_entry (take_entries odt count l) odt ≡ l.odt_entry_count)
        × (last_odt_entry (take_entries odt count l) odt ≡ l.odt_entry_count + count - 1)
    t = entries-take_entries odt count l h hc

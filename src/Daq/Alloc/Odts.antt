-- ===== src/Daq/Alloc/Odts.antt =====
-- New ODTs, `XcpAllocOdt`, keep the DAQ memory well-formed.
use xcplite.Prelude.{ℕ, ◌+◌, ◌-◌, ◌*◌, ◌≤◌, ◌<◌, ◌≡◌, refl, ◌⊎◌, ◌∙◌, arith}
use xcplite.Memory.{get16, put16, get16-put16_self, get16-put16_ne}
use xcplite.State.{DaqLists}
use xcplite.Daq.Tables.{first_odt, last_odt}
use xcplite.Daq.Alloc.{used_memory, take_odts}
use xcplite.Daq.Layout.{IsWf, fresh_entries}

-- `XcpAllocOdt` gives the list the ODTs from the old count to the new one.
pub odts-take_odts :
    (daq count : ℕ) (l : DaqLists)
    → l.odt_count + count < 65536
    → 0 < count
    → let l' = take_odts daq count l in
      (l'.odt_count ≡ l.odt_count + count)
      × (first_odt l' daq ≡ l.odt_count)
      × (last_odt l' daq ≡ l.odt_count + count - 1)
unfolding take_odts
odts-take_odts daq count l h p =
    let m1 = put16 l.mem (12 * daq + 2) l.odt_count in
    ground (
      arith,
      get16-put16_ne m1 (12 * daq) (12 * daq + 2) (l.odt_count + count - 1),
      get16-put16_self l.mem (12 * daq + 2) l.odt_count,
      get16-put16_self m1 (12 * daq) (l.odt_count + count - 1),
    )

-- It leaves what lies outside the first four bytes of that list alone.
pub get16-take_odts :
    (daq count : ℕ) (l : DaqLists) (p : ℕ)
    → (p + 2 ≤ 12 * daq) ⊎ (12 * daq + 4 ≤ p)
    → get16 (take_odts daq count l).mem p ≡ get16 l.mem p
unfolding take_odts get16 put16
get16-take_odts daq count l p h = ground arith

mem-take_odts :
    (daq count : ℕ) (l : DaqLists) (i : ℕ)
    → 12 * daq + 4 ≤ i
    → (take_odts daq count l).mem i ≡ l.mem i
unfolding take_odts put16
mem-take_odts daq count l i h = ground arith

counts-take_odts :
    (daq count : ℕ) (l : DaqLists)
    → ((take_odts daq count l).daq_count ≡ l.daq_count)
      × ((take_odts daq count l).odt_entry_count ≡ l.odt_entry_count)
unfolding take_odts
counts-take_odts daq count l = (refl, refl)

pub take_odts-IsWf :
    (daq count : ℕ) (l : DaqLists)
    → IsWf l
    → l.odt_entry_count ≡ 0
    → daq < l.daq_count
    → 0 < count
    → l.odt_count + count < 65536
    → used_memory (take_odts daq count l) < 3072
    → IsWf (take_odts daq count l)
take_odts-IsWf daq count l v none hd hc h fits = record {
  fits = omega arith;
  has_lists = λ p. omega (arith, k.0);
  has_odts = λ p. omega (arith, k.1);
  lists = λ d p. ground (
    arith,
    k.0,
    t,
    v.lists d,
    get16-take_odts daq count l (12 * d),
    get16-take_odts daq count l (12 * d + 2),
  );
  odts = λ odt p. ground (
    arith,
    k,
    t.0,
    v.odts odt,
    fresh_entries l v odt none,
    get16-take_odts daq count l (12 * l.daq_count + 8 * odt),
    get16-take_odts daq count l (12 * l.daq_count + 8 * odt + 2),
  );
  fresh = λ e i p.
      mem-take_odts daq count l i (omega (arith, k.0)) ∙ v.fresh none i (omega (arith, k.0, t.0));
}
  where
    k :
        ((take_odts daq count l).daq_count ≡ l.daq_count)
        × ((take_odts daq count l).odt_entry_count ≡ l.odt_entry_count)
    k = counts-take_odts daq count l

    t :
        ((take_odts daq count l).odt_count ≡ l.odt_count + count)
        × (first_odt (take_odts daq count l) daq ≡ l.odt_count)
        × (last_odt (take_odts daq count l) daq ≡ l.odt_count + count - 1)
    t = odts-take_odts daq count l h hc

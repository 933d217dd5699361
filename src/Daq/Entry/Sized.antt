-- ===== src/Daq/Entry/Sized.antt =====
-- The size that is kept in an ODT is the sum of its entries' sizes and fits a DTO, as long as no
-- two ODTs share entries: the copy loop of `XcpTriggerDaqList_` relies on it.
use xcplite.Prelude.{ℕ, zero, suc, ◌+◌, ◌-◌, ◌≤◌, ◌<◌, ◌≡◌, refl, ◌⊎◌, ◌≢◌, arith}
use native.Mathlib.Decide.{ℕ_discrete}
use xcplite.State.{DaqLists, Xcp}
use xcplite.Daq.Tables.{first_odt, last_odt, first_odt_entry, last_odt_entry, odt_size, entry_size}
use xcplite.Daq.Layout.{IsWf}
use xcplite.Daq.Entry.Written.{
  new, FitsOdt, entry_size-new, odt_size-new, entries-new, odts-new, counts-new,
}

-- sizes of `n` entries from `e` on
abbrev pub sum_sizes : DaqLists → ℕ → ℕ → ℕ
sum_sizes l e zero = 0
sum_sizes l e (suc n) = entry_size l e + sum_sizes l (e + 1) n

-- what the inner loop of `XcpTriggerDaqList_` copies for an ODT
abbrev pub payload : DaqLists → ℕ → ℕ
payload l odt =
    sum_sizes l (first_odt_entry l odt) (last_odt_entry l odt + 1 - first_odt_entry l odt)

abbrev pub IsDisjoint : DaqLists → Type 0
IsDisjoint l =
    (i j : ℕ)
    → i < l.odt_count
    → j < l.odt_count
    → i ≢ j
    → (last_odt_entry l i < first_odt_entry l j) ⊎ (last_odt_entry l j < first_odt_entry l i)

abbrev pub IsSized : DaqLists → Type 0
IsSized l =
    (odt : ℕ) → odt < l.odt_count → (payload l odt ≡ odt_size l odt) × (odt_size l odt ≤ 1020)

-- The first ODT of a list leaves room for the timestamp.
abbrev pub IsShort : DaqLists → Type 0
IsShort l = (daq : ℕ) → daq < l.daq_count → odt_size l (first_odt l daq) ≤ 1016

-- No list begins in the middle of another.
abbrev pub IsNested : DaqLists → Type 0
IsNested l =
    (d d' : ℕ)
    → d < l.daq_count
    → d' < l.daq_count
    → first_odt l d ≤ first_odt l d'
    → first_odt l d' ≤ last_odt l d
    → first_odt l d' ≡ first_odt l d

-- SET_DAQ_PTR has set the cursor, and no ODT has been allocated anew since.
abbrev pub IsCursor : Xcp → Type 0
IsCursor x =
    (x.write_daq_odt < x.daq_lists.odt_count)
    × (first_odt_entry x.daq_lists x.write_daq_odt ≤ x.write_daq_odt_entry)
    × (first_odt x.daq_lists x.write_daq_daq ≤ x.write_daq_odt)
    × (x.write_daq_odt ≤ last_odt x.daq_lists x.write_daq_daq)

entry_size-le-sum :
    (l : DaqLists) (e n k : ℕ) → e ≤ k → k < e + n → entry_size l k ≤ sum_sizes l e n
entry_size-le-sum l e zero k h p = absurd (omega arith)
entry_size-le-sum l e (suc n) k h p = ground (arith, entry_size-le-sum l (e + 1) n k)

module _ (size ext offset event : ℕ) (x : Xcp) (v : IsWf x.daq_lists)
    (daq_in : x.write_daq_daq < x.daq_lists.daq_count)
    (odt_in : x.write_daq_odt < x.daq_lists.odt_count)
    (entry_in : x.write_daq_odt_entry < x.daq_lists.odt_entry_count) (small : size ≤ 248) where
  abbrev pub l' : DaqLists
  l' = new size ext offset event x v daq_in odt_in entry_in

  sum_outside :
      (e n : ℕ)
      → e + n ≤ x.daq_lists.odt_entry_count
      → (x.write_daq_odt_entry < e) ⊎ (e + n ≤ x.write_daq_odt_entry)
      → sum_sizes l' e n ≡ sum_sizes x.daq_lists e n
  sum_outside e zero h p = refl
  sum_outside e (suc n) h p = ground (
    arith,
    entry_size-new size ext offset event x v daq_in odt_in entry_in e,
    sum_outside (e + 1) n,
  )

  sum_inside :
      (e n : ℕ)
      → e + n ≤ x.daq_lists.odt_entry_count
      → e ≤ x.write_daq_odt_entry
      → x.write_daq_odt_entry < e + n
      → sum_sizes l' e n + entry_size x.daq_lists x.write_daq_odt_entry
        ≡ sum_sizes x.daq_lists e n + size
  sum_inside e zero h p q = absurd (omega arith)
  sum_inside e (suc n) h p q = ground (
    arith,
    entry_size-new size ext offset event x v daq_in odt_in entry_in e,
    sum_outside (e + 1) n,
    sum_inside (e + 1) n,
  )

  pub new-IsSized :
      first_odt_entry x.daq_lists x.write_daq_odt ≤ x.write_daq_odt_entry
      → x.write_daq_odt_entry ≤ last_odt_entry x.daq_lists x.write_daq_odt
      → FitsOdt size x
      → IsDisjoint x.daq_lists
      → IsSized x.daq_lists
      → IsSized l'
  new-IsSized lo hi fits d s odt h = elim (ℕ_discrete odt x.write_daq_odt) [
    | yes e ↦ ground (
      arith,
      e,
      entries-new size ext offset event x v daq_in odt_in entry_in odt,
      odt_size-new size ext offset event x v daq_in odt_in entry_in odt,
      counts-new size ext offset event x v daq_in odt_in entry_in,
      v.odts odt,
      s odt,
      entry_size-le-sum x.daq_lists (first_odt_entry x.daq_lists odt)
          (last_odt_entry x.daq_lists odt + 1 - first_odt_entry x.daq_lists odt)
          x.write_daq_odt_entry,
      sum_inside (first_odt_entry x.daq_lists odt)
          (last_odt_entry x.daq_lists odt + 1 - first_odt_entry x.daq_lists odt),
    )
    | no ne ↦ ground (
      arith,
      ne,
      entries-new size ext offset event x v daq_in odt_in entry_in odt,
      odt_size-new size ext offset event x v daq_in odt_in entry_in odt,
      counts-new size ext offset event x v daq_in odt_in entry_in,
      v.odts odt,
      s odt,
      d odt x.write_daq_odt,
      sum_outside (first_odt_entry x.daq_lists odt)
          (last_odt_entry x.daq_lists odt + 1 - first_odt_entry x.daq_lists odt),
    )
  ]

  pub new-IsDisjoint : IsDisjoint x.daq_lists → IsDisjoint l'
  new-IsDisjoint d i j hi hj ne = ground (
    arith,
    entries-new size ext offset event x v daq_in odt_in entry_in i,
    entries-new size ext offset event x v daq_in odt_in entry_in j,
    counts-new size ext offset event x v daq_in odt_in entry_in,
    d i j,
  )

  pub new-IsShort :
      first_odt x.daq_lists x.write_daq_daq ≤ x.write_daq_odt
      → x.write_daq_odt ≤ last_odt x.daq_lists x.write_daq_daq
      → FitsOdt size x
      → IsNested x.daq_lists
      → IsShort x.daq_lists
      → IsShort l'
  new-IsShort lo hi fits n s d h = ground (
    arith,
    counts-new size ext offset event x v daq_in odt_in entry_in,
    odts-new size ext offset event x v daq_in odt_in entry_in d,
    odt_size-new size ext offset event x v daq_in odt_in entry_in (first_odt x.daq_lists d),
    n x.write_daq_daq d,
    s d,
    v.lists d,
    v.fits,
  )

  pub new-IsNested : IsNested x.daq_lists → IsNested l'
  new-IsNested n d d' h h' = ground (
    arith,
    counts-new size ext offset event x v daq_in odt_in entry_in,
    odts-new size ext offset event x v daq_in odt_in entry_in d,
    odts-new size ext offset event x v daq_in odt_in entry_in d',
    n d d',
  )

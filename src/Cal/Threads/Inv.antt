-- ===== src/Cal/Threads/Inv.antt =====
-- What holds at one calibration segment in every reachable state: where the three pages are, and
-- which of them a thread may still read.
use xcplite.Prelude.{ℕ, ◌*◌, ◌≤◌, ◌<◌, ◌≡◌, ◌≢◌, ◌⊎◌, Bool, true, false}
use xcplite.Cal.{CalSeg, xcp_calseg_no_page}
use xcplite.Cal.Threads.{
  Reader, idle, first, next_loaded, both_loaded, hazard_set, swapped, ready, chosen, reading,
  reading_default, Writer, rest, loaded, cleared, taken, copied, System,
}
use xcplite.Cal.Threads.Count.{total}

-- between the first lock and the hand-over of the old page
abbrev pub is_leading : Reader → Bool
is_leading first = true
is_leading (next_loaded n) = true
is_leading (both_loaded n e) = true
is_leading (hazard_set n e) = true
is_leading (swapped e) = true
is_leading idle = false
is_leading ready = false
is_leading chosen = false
is_leading (reading p) = false
is_leading reading_default = false

-- the same, before `ecu_page` is changed
abbrev pub is_early : Reader → Bool
is_early first = true
is_early (next_loaded n) = true
is_early (both_loaded n e) = true
is_early (hazard_set n e) = true
is_early (swapped e) = false
is_early idle = false
is_early ready = false
is_early chosen = false
is_early (reading p) = false
is_early reading_default = false

-- no hazard was seen yet
abbrev pub is_undecided : Writer → Bool
is_undecided rest = true
is_undecided (loaded f) = true
is_undecided (cleared f) = false
is_undecided (taken f) = false
is_undecided (copied f) = false

abbrev pub IsRest : Writer → Type 0
IsRest rest = Unit
IsRest (loaded f) = ⊥
IsRest (cleared f) = ⊥
IsRest (taken f) = ⊥
IsRest (copied f) = ⊥

-- What a thread knows of the pages, by the fields `ecu_page`, `ecu_page_next`, `free_page` and
-- `free_page_hazard`; `third` is the page that is neither the server's nor `ecu_page`.
abbrev pub KnowsOf : ℕ → ℕ → ℕ → Bool → Writer → ℕ → Reader → Type 0
KnowsOf ecu next free hazard w third idle = Unit
KnowsOf ecu next free hazard w third first = Unit
KnowsOf ecu next free hazard w third (next_loaded n) = (n ≡ ecu) ⊎ (n ≡ next)
KnowsOf ecu next free hazard w third (both_loaded n e) = (e ≡ ecu) × ((n ≡ ecu) ⊎ (n ≡ next))
KnowsOf ecu next free hazard w third (hazard_set n e) =
    (e ≡ ecu) × (n ≡ next) × (n ≢ ecu) × (hazard ≡ true)
KnowsOf ecu next free hazard w third (swapped e) =
    (e ≡ third) × (free ≡ xcp_calseg_no_page) × (next ≡ ecu) × (hazard ≡ true) × IsRest w
KnowsOf ecu next free hazard w third ready = Unit
KnowsOf ecu next free hazard w third chosen = Unit
KnowsOf ecu next free hazard w third (reading p) =
    (p ≡ ecu) ⊎ ((p ≡ third) × (next ≡ ecu) × (hazard ≡ true) × (is_undecided w ≡ true))
KnowsOf ecu next free hazard w third reading_default = Unit

abbrev pub Knows : CalSeg → Writer → ℕ → Reader → Type 0
Knows c w third r = KnowsOf c.ecu_page c.ecu_page_next c.free_page c.free_page_hazard w third r

-- a thread that reads, reads the page `p`
abbrev pub Reads : ℕ → Reader → Type 0
Reads p (reading q) = q ≡ p
Reads p idle = Unit
Reads p first = Unit
Reads p (next_loaded n) = Unit
Reads p (both_loaded n e) = Unit
Reads p (hazard_set n e) = Unit
Reads p (swapped e) = Unit
Reads p ready = Unit
Reads p chosen = Unit
Reads p reading_default = Unit

-- The third page is free; or it is published; or it is on its way from `ecu_page` to `free_page`; or
-- the server fills it.
abbrev pub Third : ℕ → ℕ → ℕ → Writer → ℕ → Type 0
Third ecu next free rest third =
    ((free ≡ third) × (next ≡ ecu))
    ⊎ ((free ≡ xcp_calseg_no_page) × (next ≡ third))
    ⊎ ((free ≡ xcp_calseg_no_page) × (next ≡ ecu))
Third ecu next free (loaded f) third = (f ≡ third) × (free ≡ third) × (next ≡ ecu)
Third ecu next free (cleared f) third = (f ≡ third) × (free ≡ third) × (next ≡ ecu)
Third ecu next free (taken f) third = (f ≡ third) × (free ≡ xcp_calseg_no_page) × (next ≡ ecu)
Third ecu next free (copied f) third = (f ≡ third) × (free ≡ xcp_calseg_no_page) × (next ≡ ecu)

-- a page of the segment, by its offset
abbrev pub IsPage : ℕ → ℕ → Type 0
IsPage a p = (p ≡ a) ⊎ (p ≡ 2 * a) ⊎ (p ≡ 3 * a)

-- The pages, with `third` found.
pub record Pages (a xcp ecu next free : ℕ) (w : Writer) (third : ℕ) : Type 0 where
  pub xcp_in : IsPage a xcp
  pub ecu_in : IsPage a ecu
  pub third_in : IsPage a third
  pub xcp_ne_ecu : xcp ≢ ecu
  pub xcp_ne_third : xcp ≢ third
  pub ecu_ne_third : ecu ≢ third
  pub role : Third ecu next free w third

abbrev pub PagesOf : ℕ → CalSeg → Writer → ℕ → Type 0
PagesOf a c w third = Pages a c.xcp_page c.ecu_page c.ecu_page_next c.free_page w third

pub record Inv (n a : ℕ) (s : System) : Type 0 where
  pub third : ℕ
  pub few : n < 65536
  pub fits : s.seg.size ≤ a
  pub some_bytes : 0 < a
  pub small : 3 * a < xcp_calseg_no_page
  pub count : s.seg.lock_count ≡ total n s.readers
  pub outside : (i : ℕ) → n ≤ i → s.readers i ≡ idle
  pub single : (i j : ℕ) → is_leading (s.readers i) ≡ true → is_leading (s.readers j) ≡ true → i ≡ j
  pub knows : (i : ℕ) → Knows s.seg s.writer third (s.readers i)
  pub calm : (i j : ℕ) → is_early (s.readers i) ≡ true → Reads s.seg.ecu_page (s.readers j)
  pub pages : PagesOf a s.seg s.writer third

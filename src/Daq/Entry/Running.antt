-- ===== src/Daq/Entry/Running.antt =====
-- Writing ODT entries while data acquisition is running, src/xcplite.c.
use xcplite.Prelude.{ℕ, ◌≡◌, ◌≢◌, arith, true}
use xcplite.State.{Xcp, is_daq_running}
use xcplite.Daq.Entry.{set_daq_ptr, add_odt_entry}

pub set_daq_ptr-running :
    (daq odt idx : ℕ) (x : Xcp)
    → is_daq_running x ≡ true
    → (err : ℕ) × (err ≢ 0) × (set_daq_ptr daq odt idx x ≡ (err, x))
unfolding set_daq_ptr
set_daq_ptr-running daq odt idx x h = ((set_daq_ptr daq odt idx x).0, ground arith, ground arith)

pub add_odt_entry-running :
    (addr ext size : ℕ) (x : Xcp)
    → is_daq_running x ≡ true
    → (err : ℕ) × (err ≢ 0) × (add_odt_entry addr ext size x ≡ (err, x))
unfolding add_odt_entry
add_odt_entry-running addr ext size x h =
    ((add_odt_entry addr ext size x).0, ground arith, ground arith)

-- ===== src/Tests/CommandTests.antt =====
-- Commands, memory access and events at concrete sessions.
use xcplite.Prelude.{
  ℕ, ◌≤◌, ◌<◌, ◌≡◌, refl, ◌≢◌, ◌⊎◌, arith, Bool, true, false, none, some, [], ◌∷◌,
}
use xcplite.Config.{
  crc_cmd_ok, crc_access_denied, xcp_addr_ext_abs, xcp_addr_ext_seg, xcp_undefined_event_id,
}
use xcplite.Memory.{Bytes, cleared, get8, put8}
use xcplite.State.{Xcp, is_daq_running, is_started, is_connected, is_activated}
use xcplite.Mta.{Backend, Mta, read_bytes, write_mta, read_mta, set_mta, calc_checksum}
use xcplite.Mta.Transfer.{write_mta-read_mta, set_mta_seg_denied}
use xcplite.Mta.Crc.{crc16_ccitt, calc_checksum-bitwise}
use xcplite.Events.{create_event, find_event, find_below, find_event_instances}
use xcplite.Events.Find.{IsCreated, IsRefused, create_event-find}
use xcplite.Command.Reply.{Session, App, Reply, negative}
use xcplite.Command.Access.{set_mta_command, upload, short_upload}
use xcplite.Command.Config.{
  alloc_daq_command, alloc_odt_command, alloc_odt_entry_command, set_daq_list_mode_command,
  set_daq_ptr_command, write_daq, write_daq_multiple,
}
use xcplite.Command.Safety.{Refused, configuration-Refused}
use xcplite.Command.Deferred.{and_then, short_upload-set_mta-upload, UploadsLater, upload_deferred}
use xcplite.Tests.Setup.{configured}

-- Segments and application memory that are never there; the image starts at 0x10000.
abbrev backend : Backend
backend = record {
  World = Unit;
  write_segment = λ addr bytes w. (crc_access_denied, w);
  read_segment = λ addr size w. (crc_access_denied, []);
  write_app = λ addr bytes w. (crc_access_denied, w);
  read_app = λ addr size w. (crc_access_denied, []);
  read_file = λ size addr. none;
  base_addr = 0x10000;
  check_memory = λ ext addr size. crc_cmd_ok;
}

abbrev app : App Unit
app = record {
  connect = λ mode w. (true, w);
  prepare_daq = λ w. (true, w);
  publish_all = λ w. w;
  disconnect = λ w. w;
  clock = λ w. 1000;
  clock_state = λ w. 1;
  check_memory = λ ext addr size. crc_cmd_ok;
}

abbrev no_others : Bool → Bytes → ℕ → Session Unit → Reply Unit
no_others async cmd len s = negative 32 s

-- the MTA at the offset 16 of the event 0
abbrev at_event : Mta
at_event = record { mta_ptr = 0; mta_addr = 16; mta_ext = 2; memory = cleared }

abbrev at_pointer : Mta
at_pointer = record { mta_ptr = 0x10010; mta_addr = 0; mta_ext = 0xfe; memory = cleared }

abbrev session : Session Unit
session = record {
  xcp = configured;
  mta = at_event;
  world = tt;
  crm = cleared;
  crm_len = 0;
  cmd_pending = false;
  cmd_pending_crm = cleared;
  cmd_pending_crm_len = 0;
  sent = [];
}

abbrev measuring : Session Unit
measuring = record session { xcp = record configured { daq_running = true } }

-- UPLOAD of 4 bytes; START_STOP_SYNCH with start selected; SHORT_UPLOAD of 4 bytes at 0x10
abbrev upload_4 : Bytes
upload_4 = put8 (put8 cleared 0 0xf5) 1 4

abbrev start_selected_synch : Bytes
start_selected_synch = put8 (put8 cleared 0 0xdd) 1 1

abbrev short_upload_4 : Bytes
short_upload_4 = put8 (put8 (put8 (put8 cleared 0 0xf4) 1 4) 3 1) 4 0x10

cleared-byte : (i : ℕ) → cleared i < 256
unfolding cleared
cleared-byte i = omega arith

calc_checksum-bitwise_example :
    calc_checksum backend 3 at_pointer tt
    ≡ some (
      crc_cmd_ok,
      crc16_ccitt 0xffff (read_bytes cleared 0x10010 3),
      record at_pointer { mta_ptr = 0x10013 },
    )
calc_checksum-bitwise_example =
    calc_checksum-bitwise backend 3 at_pointer tt (omega arith) refl (omega arith) (omega arith)
      cleared-byte

write_mta-read_mta_example :
    let (r0, m0) = set_mta backend xcp_addr_ext_abs 0x20 at_event in
    let (r1, m1, w1) = write_mta backend (1 ∷ 2 ∷ 3 ∷ []) m0 tt in
    let (r2, m2) = set_mta backend xcp_addr_ext_abs 0x20 m1 in
    let (r3, back, m3) = read_mta backend 3 m2 w1 in
    (r1 ≡ crc_cmd_ok)
    × (r3 ≡ crc_cmd_ok)
    × (back ≡ 1 ∷ 2 ∷ 3 ∷ [])
    × ((i : ℕ) → i < 0x10020 → m3.memory i ≡ cleared i)
    × ((i : ℕ) → 0x10023 ≤ i → m3.memory i ≡ cleared i)
write_mta-read_mta_example =
    write_mta-read_mta backend 0x20 (1 ∷ 2 ∷ 3 ∷ []) at_event tt (omega arith) (omega arith)

set_mta_seg_denied_example :
    let (r0, m0) = set_mta backend xcp_addr_ext_seg 0x1000 at_event in
    (r0 ≡ crc_cmd_ok)
    × (read_mta backend 4 m0 tt ≡ (crc_access_denied, [], m0))
    × (write_mta backend (1 ∷ []) m0 tt ≡ (crc_access_denied, m0, tt))
    × (m0.memory ≡ cleared)
set_mta_seg_denied_example = set_mta_seg_denied backend 0x1000 4 (1 ∷ []) at_event tt (omega arith)

create_event-find_example :
    ((create_event (120 ∷ []) 1000 0 configured ≡ some (xcp_undefined_event_id, configured))
      × IsRefused (120 ∷ []) configured)
    ⊎ ((id : ℕ) × (x' : Xcp) × (create_event (120 ∷ []) 1000 0 configured ≡ some (id, x'))
        × IsCreated (120 ∷ []) 1000 0 configured id x'
        × (find_event (120 ∷ []) x' ≡ id)
        × (id ≢ xcp_undefined_event_id)
        × ((cycle priority : ℕ) → create_event (120 ∷ []) cycle priority x' ≡ some (id, x')))
unfolding find_event_instances find_below is_activated
create_event-find_example =
    create_event-find (120 ∷ []) 1000 0 configured (omega arith) (omega arith)

configuration-Refused_example :
    Refused measuring (alloc_daq_command upload_4 8 measuring)
    × Refused measuring (alloc_odt_command upload_4 8 measuring)
    × Refused measuring (alloc_odt_entry_command upload_4 8 measuring)
    × Refused measuring (set_daq_list_mode_command upload_4 8 measuring)
    × Refused measuring (set_daq_ptr_command upload_4 8 measuring)
    × Refused measuring (write_daq upload_4 8 measuring)
    × Refused measuring (write_daq_multiple upload_4 8 measuring)
unfolding is_daq_running is_started
configuration-Refused_example = configuration-Refused upload_4 8 measuring refl

short_upload-set_mta-upload_example :
    short_upload backend false short_upload_4 8 session
    ≡ and_then (set_mta_command backend short_upload_4 8 session) (upload backend short_upload_4 8)
unfolding get8 put8 cleared
short_upload-set_mta-upload_example =
    short_upload-set_mta-upload backend short_upload_4 8 session (omega arith) (omega arith)

upload_deferred_example : UploadsLater backend app no_others upload_4 0 3 (λ ext. 0x5000) session
unfolding get8 put8 cleared is_connected is_started
upload_deferred_example =
    upload_deferred backend app no_others upload_4 0 3 (λ ext. 0x5000) session refl (omega arith)
      refl refl refl refl (omega arith) (omega arith)

-- ===== src/Command/Deferred.antt =====
-- UPLOAD by commands, src/xcplite.c: SHORT_UPLOAD as SET_MTA and UPLOAD, and an UPLOAD relative to
-- an event, which waits for the event.
use xcplite.Prelude.{
  ℕ, suc, ◌+◌, ◌%◌, ◌^◌, ◌≤◌, ◌<◌, ◌≡◌, refl, ◌≢◌, ◌∙◌, ap, arith, Bool, true, false, some, List,
  ◌∷◌, length, ==_iff, leb,
}
use xcplite.Memory.{Bytes, get8, put8}
use xcplite.State.{is_connected, is_started}
use xcplite.Daq.Address.{is_dyn, decode_dyn_event, decode_dyn_offset}
use xcplite.Mta.{Backend, read_bytes, write_bytes, read_mta}
use xcplite.Mta.Transfer.{read_bytes-behind, length-read_bytes}
use xcplite.Command.Reply.{
  Session, App, Reply, positive, negative, busy, silent, hung, send_response,
}
use xcplite.Command.Access.{
  set_mta_command, push_command, defer, read_data, access_at, upload, short_upload,
}
use xcplite.Command.Process.{
  default_response, finish, dispatch, reply_to, is_ignored, async_command, process_pending,
}

-- what comes after a command that succeeded
abbrev pub and_then : {World : Type 0} → Reply World → (Session World → Reply World) → Reply World
and_then (positive s) f = f s
and_then (negative err s) f = negative err s
and_then (busy s) f = busy s
and_then (silent s) f = silent s
and_then hung f = hung

module _ (b : Backend) where
  open b use {World}

  -- A SHORT_UPLOAD of complete length and admissible size does what SET_MTA with its address and
  -- then UPLOAD with its size do, deferring and all errors included; the fields stand at the same
  -- places in the three commands.
  pub short_upload-set_mta-upload :
      (cmd : Bytes) (len : ℕ) (s : Session World)
      → 8 ≤ len
      → get8 cmd 1 ≤ 247
      → short_upload b false cmd len s ≡ and_then (set_mta_command b cmd len s) (upload b cmd len)
  unfolding short_upload access_at set_mta_command upload
  short_upload-set_mta-upload cmd len s h k = ground arith

  -- the response packet of UPLOAD: the code and the bytes
  response_packet :
      (m : Bytes) (bytes : List ℕ) (n : ℕ)
      → length bytes ≡ n
      → n ≤ 247
      → read_bytes (write_bytes m 1 bytes) 0 ((1 + n) % 256) ≡ m 0 ∷ bytes
  response_packet m bytes n e h = ap (read_bytes (write_bytes m 1 bytes) 0) long ∙ packet
    where
      long : (1 + n) % 256 ≡ suc (length bytes)
      long = omega (arith, e)

      packet : read_bytes (write_bytes m 1 bytes) 0 (suc (length bytes)) ≡ m 0 ∷ bytes
      packet = read_bytes-behind m bytes

  read_data-ptr :
      (size : ℕ) (s : Session World)
      → s.mta.mta_ext ≡ 0xfe
      → 0 < s.mta.mta_ptr
      → size ≤ 247
      → (s' : Session World) × (read_data b size s ≡ positive s')
        × (read_bytes s'.crm 0 s'.crm_len ≡ s.crm 0 ∷ read_bytes s.mta.memory s.mta.mta_ptr size)
        × (s'.sent ≡ s.sent)
        × (s'.cmd_pending ≡ s.cmd_pending)
        × (s'.mta.memory ≡ s.mta.memory)
  unfolding read_data read_mta
  read_data-ptr size s e p h =
      let bytes = read_bytes s.mta.memory s.mta.mta_ptr size in
      (
        record s {
          mta = record s.mta { mta_ptr = (s.mta.mta_ptr + size) % 2 ^ 64 };
          crm = write_bytes s.crm 1 bytes;
          crm_len = (1 + size) % 256;
        },
        ground arith,
        response_packet s.crm bytes size (length-read_bytes s.mta.memory s.mta.mta_ptr size) h,
        refl,
        refl,
        refl,
      )

  module _ (app : App World) (others : Bool → Bytes → ℕ → Session World → Reply World) where
    reply_to-upload :
        (cmd : Bytes) (s : Session World)
        → get8 cmd 0 ≡ 0xf5
        → get8 cmd 1 ≤ 247
        → s.mta.mta_ext ≡ 0xfe
        → reply_to b app others true cmd 2 s ≡ read_data b (get8 cmd 1) s
    unfolding reply_to dispatch upload
    reply_to-upload cmd s up size ext = ground arith

    -- UPLOAD from a pointer, executed for an event
    async_upload :
        (cmd : Bytes) (s : Session World)
        → get8 cmd 0 ≡ 0xf5
        → get8 cmd 1 ≤ 247
        → is_started s.xcp ≡ true
        → is_connected s.xcp ≡ true
        → s.mta.mta_ext ≡ 0xfe
        → 0 < s.mta.mta_ptr
        → (s2 : Session World) × (async_command b app others true cmd 2 s ≡ some (0, s2))
          × (s2.sent
              ≡ record {
                async = true;
                packet = 0xff ∷ read_bytes s.mta.memory s.mta.mta_ptr (get8 cmd 1);
              }
                ∷ s.sent)
          × (s2.cmd_pending ≡ s.cmd_pending)
          × (s2.mta.memory ≡ s.mta.memory)
    unfolding async_command default_response finish send_response is_ignored put8
    async_upload cmd s up size started conn ext ptr =
        let (s', ok, packet, sent, pending, memory) =
          read_data-ptr (get8 cmd 1) (default_response s) ext ptr size in
        rw (started, conn, reply_to-upload cmd (default_response s) up size ext, ok)
          (send_response true s', ground arith, rw (packet, sent) refl, pending, memory)

    -- What an UPLOAD relative to an event, and then the event with `count` bases, make of `s`.
    abbrev pub UploadsLater : Bytes → ℕ → ℕ → (ℕ → ℕ) → Session World → Type 0
    UploadsLater cmd event count bases s =
        let size = get8 cmd 1 in
        let p = (bases s.mta.mta_ext + decode_dyn_offset s.mta.mta_addr) % 2 ^ 64 in
        let s1 = record s { cmd_pending = true; cmd_pending_crm_len = 2; cmd_pending_crm = cmd } in
        (upload b cmd 2 s ≡ silent s1)
        × (decode_dyn_event s.mta.mta_addr ≢ event
            → process_pending b app others event count bases s1 ≡ some s1)
        × (decode_dyn_event s.mta.mta_addr ≡ event
            → (s2 : Session World) × (process_pending b app others event count bases s1 ≡ some s2)
              × (s2.sent
                  ≡ record { async = true; packet = 0xff ∷ read_bytes s.mta.memory p size }
                    ∷ s.sent)
              × (s2.cmd_pending ≡ false)
              × (s2.mta.memory ≡ s.mta.memory))

    -- An UPLOAD of at most 247 bytes from an address relative to an event, for a connected session of a
    -- started server without a pending command, is not answered, and the command is kept. Other events
    -- leave it waiting. Its event, where it comes with a base for the extension and the pointer is not null,
    -- sends the response through the queue: the bytes at the base plus the unsigned offset of 22 bits
    -- that the address holds.
    pub upload_deferred :
        (cmd : Bytes) (event count : ℕ) (bases : ℕ → ℕ) (s : Session World)
        → get8 cmd 0 ≡ 0xf5
        → get8 cmd 1 ≤ 247
        → is_started s.xcp ≡ true
        → is_connected s.xcp ≡ true
        → s.cmd_pending ≡ false
        → is_dyn s.mta.mta_ext ≡ true
        → s.mta.mta_ext < count
        → 0 < (bases s.mta.mta_ext + decode_dyn_offset s.mta.mta_addr) % 2 ^ 64
        → UploadsLater cmd event count bases s
    unfolding upload defer push_command process_pending
    upload_deferred cmd event count bases s up size started conn free dyn based some_ptr = (
      ground arith,
      λ ne. ground arith,
      λ eq.
          let p = (bases s.mta.mta_ext + decode_dyn_offset s.mta.mta_addr) % 2 ^ 64 in
          let s1 = record s {
            cmd_pending = false;
            cmd_pending_crm_len = 2;
            cmd_pending_crm = cmd;
            mta = record s.mta { mta_ptr = p; mta_ext = 0xfe };
          } in
          let in_range : leb count s.mta.mta_ext ≡ false = ground (arith, based) in
          let eqb = (==_iff (decode_dyn_event s.mta.mta_addr) event).1 eq in
          let (s2, done, sent, pending, memory) =
            async_upload cmd s1 up size started conn refl some_ptr in
          (s2, rw (dyn, eqb, process_pending, in_range, done) refl, sent, pending, memory),
    )

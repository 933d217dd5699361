-- ===== src/Command/Access.antt =====
-- The commands that access memory, src/xcplite.c: SET_MTA, DOWNLOAD, SHORT_DOWNLOAD, UPLOAD,
-- SHORT_UPLOAD and BUILD_CHECKSUM. An access relative to an event is left for `XcpEventExtAt_`.
use xcplite.Prelude.{ℕ, ◌+◌, ◌||◌, Bool, true, Option, none, some, ltb, ◌==◌, if◌then◌else◌}
use xcplite.Config.{crc_cmd_ok, crc_cmd_busy, crc_cmd_syntax, crc_out_of_range}
use xcplite.Memory.{Bytes}
use xcplite.Daq.Address.{is_dyn}
use xcplite.Mta.{Backend, Mta, read_bytes, write_bytes, write_mta, read_mta, set_mta, calc_checksum}
use xcplite.Command.Reply.{
  Session, Reply, positive, negative, busy, silent, hung, check_len, check_error, set_crm_len,
  crm_byte, crm_dword, cro_byte, cro_dword,
}

-- `XcpPushCommand`: the command is kept, unless one is kept already.
unfoldable pub push_command : {World : Type 0} → Bytes → ℕ → Session World → ℕ × Session World
push_command cmd len s = if s.cmd_pending then (crc_cmd_busy, s) else (
  crc_cmd_ok,
  record s { cmd_pending = true; cmd_pending_crm_len = len; cmd_pending_crm = cmd },
)

-- if (XcpPushCommand(CRO, CRO_LEN) == CRC_CMD_BUSY) goto busy_response; goto no_response
unfoldable pub defer : {World : Type 0} → Bytes → ℕ → Session World → Reply World
unfolding push_command
defer cmd len s =
    let (r, s') = push_command cmd len s in if r == crc_cmd_busy then busy s' else silent s'

module _ (b : Backend) where
  open b use {World}

  abbrev pub set_mta_of : ℕ → ℕ → Session World → ℕ × Session World
  set_mta_of ext addr s = let (r, m) = set_mta b ext addr s.mta in (r, record s { mta = m })

  -- CC_SET_MTA
  unfoldable pub set_mta_command : Bytes → ℕ → Session World → Reply World
  unfolding set_mta
  set_mta_command cmd len s =
      check_len 8 len s (check_error (set_mta_of (cro_byte cmd 3) (cro_dword cmd 1) s))

  -- XcpWriteMta(size, data) of the bytes of the command from `at` on
  unfoldable pub write_data : Bytes → ℕ → ℕ → Session World → Reply World
  unfolding write_mta read_bytes
  write_data cmd at size s =
      let (r, m, w) = write_mta b (read_bytes cmd at size) s.mta s.world in
      check_error (r, record s { mta = m; world = w })

  -- XcpReadMta(size, CRM data); CRM_LEN = 1 + size. What is not read leaves CRM as it was.
  unfoldable pub read_data : ℕ → Session World → Reply World
  unfolding read_mta write_bytes
  read_data size s =
      let (r, bytes, m) = read_mta b size s.mta s.world in
      let s' = record s { mta = m; crm = write_bytes s.crm 1 bytes } in
      if r == crc_cmd_ok then positive (set_crm_len (1 + size) s') else negative r s'

  -- CC_DOWNLOAD
  unfoldable pub download : Bytes → ℕ → Session World → Reply World
  unfolding write_data defer
  download cmd len s =
      let size = cro_byte cmd 1 in
      check_len 2 len s (
        if ltb 246 size || ltb len (size + 2)
        then negative crc_cmd_syntax s
        else if is_dyn s.mta.mta_ext
        then defer cmd len s
        else write_data cmd 2 size s)

  -- `if (!async) check_error(XcpSetMta(...))`, then the access, deferred if it is event relative
  unfoldable pub access_at :
      Bool → ℕ → Bytes → ℕ → (Session World → Reply World) → Session World → Reply World
  unfolding set_mta defer
  access_at async addr_dword cmd len access s =
      let (r, s1) =
        if async
        then (crc_cmd_ok, s)
        else set_mta_of (cro_byte cmd 3) (cro_dword cmd addr_dword) s in
      if r == crc_cmd_ok
      then if is_dyn s1.mta.mta_ext then defer cmd len s1 else access s1
      else negative r s1

  -- CC_SHORT_DOWNLOAD
  unfoldable pub short_download : Bool → Bytes → ℕ → Session World → Reply World
  unfolding access_at write_data
  short_download async cmd len s =
      let size = cro_byte cmd 1 in
      check_len 8 len s (
        if ltb 240 size || ltb len (size + 8)
        then negative crc_cmd_syntax s
        else access_at async 1 cmd len (write_data cmd 8 size) s)

  -- CC_UPLOAD
  unfoldable pub upload : Bytes → ℕ → Session World → Reply World
  unfolding read_data defer
  upload cmd len s =
      let size = cro_byte cmd 1 in
      check_len 2 len s (
        if ltb 247 size
        then negative crc_out_of_range s
        else if is_dyn s.mta.mta_ext
        then defer cmd len s
        else read_data size s)

  -- CC_SHORT_UPLOAD
  unfoldable pub short_upload : Bool → Bytes → ℕ → Session World → Reply World
  unfolding access_at read_data
  short_upload async cmd len s =
      let size = cro_byte cmd 1 in
      check_len 8 len s (
        if ltb 247 size
        then negative crc_out_of_range s
        else access_at async 1 cmd len (read_data size) s)

  -- The response to CC_BUILD_CHECKSUM; XCP_CHECKSUM_TYPE_CRC16CCITT is 8.
  unfoldable pub checksum_response : Session World → Option (ℕ × ℕ × Mta) → Reply World
  checksum_response s none = hung
  checksum_response s (some (r, sum, m)) =
      let s' = record s { mta = m } in
      if r == crc_cmd_ok
      then positive (set_crm_len 8 (crm_byte 1 8 (crm_dword 1 sum s')))
      else negative r s'

  -- CC_BUILD_CHECKSUM. A command that is kept already is not reported here.
  unfoldable pub build_checksum : Bytes → ℕ → Session World → Reply World
  unfolding calc_checksum push_command checksum_response
  build_checksum cmd len s =
      let result = calc_checksum b (cro_dword cmd 1) s.mta s.world in
      check_len 8 len s (
        if is_dyn s.mta.mta_ext
        then silent (push_command cmd len s).1
        else checksum_response s result)

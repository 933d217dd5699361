-- ===== src/Command/Reply.antt =====
-- The state of the command processor of src/xcplite.c: the command response `CRM` of
-- `tXcpData`, the pending command, the MTA and the responses that were handed to the transport
-- layer; and the ways a command ends.
use xcplite.Prelude.{ℕ, ◌*◌, ◌%◌, Bool, List, ◌∷◌, ltb, ◌==◌, if◌then◌else◌}
use xcplite.Config.{crc_cmd_ok, crc_cmd_syntax, pid_err}
use xcplite.Memory.{Bytes, get8, get16, get32, put8, put16, put32}
use xcplite.State.{Xcp}
use xcplite.Mta.{Mta, read_bytes}

-- A response: whether it goes through the transmit queue (async) or is sent at once, its bytes.
pub record Response : Type 0 where
  pub async : Bool
  pub packet : List ℕ

-- `World` is the state of the application and of the calibration segments.
pub record Session (World : Type 0) : Type 0 where
  pub xcp : Xcp
  pub mta : Mta
  pub world : World
  pub crm : Bytes
  pub crm_len : ℕ
  pub cmd_pending : Bool
  pub cmd_pending_crm : Bytes
  pub cmd_pending_crm_len : ℕ
  pub sent : List Response

-- The callbacks of the application (src/xcpappl.c) and of the calibration segments (src/cal.c)
-- that the command processor calls.
pub record App (World : Type 0) : Type 0 where
  -- ApplXcpConnect and ApplXcpPrepareDaq
  pub connect : ℕ → World → Bool × World
  pub prepare_daq : World → Bool × World
  -- XcpCalSegPublishAll(true), then ApplXcpDisconnect
  pub publish_all : World → World
  pub disconnect : World → World
  -- ApplXcpGetClock64 and ApplXcpGetClockState
  pub clock : World → ℕ
  pub clock_state : World → ℕ
  -- ApplXcpCheckMemory
  pub check_memory : ℕ → ℕ → ℕ → ℕ

-- The end of a command: the normal response, `goto negative_response`, `goto busy_response`,
-- `goto no_response`. With `hung` the command does not return: it does not end, or an assertion fails.
pub data Reply (World : Type 0) : Type 0 where
  positive busy silent : Session World → Reply World
  negative : ℕ → Session World → Reply World
  hung : Reply World

module _ {World : Type 0} where
  -- `XcpSendResponse`, newest response first. The response through the queue may still be lost there.
  unfoldable pub send_response : Bool → Session World → Session World
  unfolding read_bytes
  send_response async s = record s {
    sent = record { async = async; packet = read_bytes s.crm 0 s.crm_len } ∷ s.sent;
  }

  -- CRM_BYTE(i) = v, CRM_WORD(i) = v, CRM_DWORD(i) = v, CRM_LEN = n
  abbrev pub crm_byte : ℕ → ℕ → Session World → Session World
  crm_byte i v s = record s { crm = put8 s.crm i v }

  abbrev pub crm_word : ℕ → ℕ → Session World → Session World
  crm_word i v s = record s { crm = put16 s.crm (2 * i) v }

  abbrev pub crm_dword : ℕ → ℕ → Session World → Session World
  crm_dword i v s = record s { crm = put32 s.crm (4 * i) v }

  abbrev pub set_crm_len : ℕ → Session World → Session World
  set_crm_len n s = record s { crm_len = n % 256 }

  -- check_len(n)
  abbrev pub check_len : ℕ → ℕ → Session World → Reply World → Reply World
  check_len n len s r = if ltb len n then negative crc_cmd_syntax s else r

  -- check_error(e), at the end of a command
  abbrev pub check_error : ℕ × Session World → Reply World
  check_error (err, s) = if err == crc_cmd_ok then positive s else negative err s

  -- an operation on the DAQ state as one on the session
  abbrev pub on_xcp : ℕ × Xcp → Session World → ℕ × Session World
  on_xcp (r, x) s = (r, record s { xcp = x })

  -- CRM_LEN = 2; CRM_CMD = PID_ERR; CRM_ERR = err
  unfoldable pub send_error : Bool → ℕ → Session World → Session World
  unfolding send_response
  send_error async err s =
      send_response async (crm_byte 1 err (crm_byte 0 pid_err (set_crm_len 2 s)))

-- CRO_BYTE(i), CRO_WORD(i), CRO_DWORD(i)
abbrev pub cro_byte : Bytes → ℕ → ℕ
cro_byte cmd i = get8 cmd i

abbrev pub cro_word : Bytes → ℕ → ℕ
cro_word cmd i = get16 cmd (2 * i)

abbrev pub cro_dword : Bytes → ℕ → ℕ
cro_dword cmd i = get32 cmd (4 * i)

-- ===== src/Command/Respond.antt =====
-- Every command comes to an end, and an error is answered, src/xcplite.c.
use xcplite.Prelude.{ℕ, ◌%◌, ◌≡◌, ◌≢◌, true, ◌⊎◌, Bool, [], ◌∷◌}
use xcplite.Memory.{Bytes, get8}
use xcplite.Mta.{read_bytes}
use xcplite.Command.Reply.{Session, Reply, positive, negative, busy, silent, hung, Response}

-- Why nothing is sent: the command is NOP or CONNECT, or it waits for an event.
abbrev pub IsQuiet : {World : Type 0} → Bytes → Session World → Type 0
IsQuiet cmd s = (get8 cmd 0 ≡ 0xc1) ⊎ (get8 cmd 0 ≡ 0xff) ⊎ (s.cmd_pending ≡ true)

-- One response more than before: what CRM holds. It begins with `code`, but for SYNCH.
abbrev pub SendsOne : {World : Type 0} → Bool → Bytes → ℕ → Session World → Session World → Type 0
SendsOne async cmd code s0 s =
    (s.sent ≡ record { async = async; packet = read_bytes s.crm 0 s.crm_len } ∷ s0.sent)
    × (get8 cmd 0 ≢ 0xfc → s.crm 0 ≡ code)

module _ {World : Type 0} where
  -- The command comes to an end, and the responses before it are there: it has sent none yet, and
  -- left the first byte of CRM but for SYNCH; or, where it sends its own, one or for a reason none.
  abbrev pub Returns : Bool → Bytes → Session World → Reply World → Type 0
  Returns async cmd s0 (positive s) = (s.sent ≡ s0.sent) × (get8 cmd 0 ≢ 0xfc → s.crm 0 ≡ s0.crm 0)
  Returns async cmd s0 (negative err s) = s.sent ≡ s0.sent
  Returns async cmd s0 (busy s) = s.sent ≡ s0.sent
  Returns async cmd s0 (silent s) =
      ((s.sent ≡ s0.sent) × IsQuiet cmd s) ⊎ SendsOne async cmd (s0.crm 0) s0 s
  Returns async cmd s0 hung = ⊥

-- the response with an error code
abbrev pub error_response : Bool → ℕ → Response
error_response async err = record { async = async; packet = 0xfe ∷ err % 256 ∷ [] }

-- What a command returns and what it sends: a success sends one response, which begins with PID_RES
-- but for SYNCH, or none for NOP, CONNECT or a command that waits; `ignored` (CRC_CMD_IGNORED) sends nothing, and any other error code is
-- that of the one response sent.
abbrev pub Answers : {World : Type 0} → Bool → Bytes → Session World → ℕ → Session World → Type 0
Answers async cmd s0 r s =
    ((r ≡ 0) × (SendsOne async cmd 0xff s0 s ⊎ ((s.sent ≡ s0.sent) × IsQuiet cmd s)))
    ⊎ ((r ≡ 2) × (s.sent ≡ s0.sent))
    ⊎ (s.sent ≡ error_response async r ∷ s0.sent)

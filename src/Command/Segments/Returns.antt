-- ===== src/Command/Segments/Returns.antt =====
-- The commands of calibration segments and identification come to an end, src/xcplite.c.
use xcplite.Prelude.{ℕ, arith, Bool}
use xcplite.Memory.{Bytes, put8, put32}
use xcplite.Mta.{write_bytes}
use xcplite.Command.Reply.{Session, Reply}
use xcplite.Command.Respond.{Returns}
use xcplite.Command.Segments.{
  Host, CalWorld, user_cmd, get_id, id_in_response, id_by_upload, set_request, set_cal_page_command,
  get_cal_page_command, copy_cal_page_command, get_pag_processor_info, set_segment_mode,
  get_segment_mode, get_segment_info, get_page_info, segment_commands,
}

module _ (h : Host) where
  open h use {State}

  page-Returns :
      (async : Bool) (cmd : Bytes) (len : ℕ) (s : Session (CalWorld State))
      → Returns async cmd s (user_cmd h cmd len s)
        × Returns async cmd s (get_id h cmd len s)
        × Returns async cmd s (set_request h cmd len s)
        × Returns async cmd s (set_cal_page_command h cmd len s)
        × Returns async cmd s (get_cal_page_command h cmd len s)
        × Returns async cmd s (copy_cal_page_command h cmd s)
  unfolding user_cmd get_id set_request set_cal_page_command get_cal_page_command
      copy_cal_page_command id_in_response id_by_upload write_bytes put8 put32
  page-Returns async cmd len s = ground arith

  info-Returns :
      (async : Bool) (cmd : Bytes) (len : ℕ) (s : Session (CalWorld State))
      → Returns async cmd s (get_pag_processor_info h len s)
        × Returns async cmd s (set_segment_mode h cmd len s)
        × Returns async cmd s (get_segment_mode h cmd len s)
        × Returns async cmd s (get_segment_info h cmd len s)
        × Returns async cmd s (get_page_info h cmd len s)
  unfolding get_pag_processor_info set_segment_mode get_segment_mode get_segment_info get_page_info
      put8 put32
  info-Returns async cmd len s = ground arith

  -- Each of these commands returns and sends nothing itself, as long as the others do.
  pub segment_commands-Returns :
      (others : Bool → Bytes → ℕ → Session (CalWorld State) → Reply (CalWorld State)) (async : Bool)
      (cmd : Bytes) (len : ℕ) (s : Session (CalWorld State))
      → Returns async cmd s (others async cmd len s)
      → Returns async cmd s (segment_commands h others async cmd len s)
  unfolding segment_commands
  segment_commands-Returns others async cmd len s rest =
      ground (arith, page-Returns async cmd len s, info-Returns async cmd len s)

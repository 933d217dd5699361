-- ===== src/Daq/Address.antt =====
-- The encoding of addresses in ODT entries and in the MTA, src/xcp_cfg.h (XCPLITE__CASDD).
use xcplite.Prelude.{ℕ, ◌+◌, ◌*◌, ◌/◌, ◌%◌, ◌<◌, ◌≡◌, Bool, ◌&&◌, leb, ◌==◌, arith}
use xcplite.Config.{
  xcp_addr_ext_seg, xcp_addr_ext_abs, xcp_addr_ext_dyn, xcp_addr_ext_dyn_max, xcp_addr_ext_app,
}

-- XcpAddrIsSeg, XcpAddrIsAbs, XcpAddrIsDyn, XcpAddrIsApp
abbrev pub is_seg : ℕ → Bool
is_seg ext = ext == xcp_addr_ext_seg

abbrev pub is_abs : ℕ → Bool
is_abs ext = ext == xcp_addr_ext_abs

abbrev pub is_dyn : ℕ → Bool
is_dyn ext = leb xcp_addr_ext_dyn ext && leb ext xcp_addr_ext_dyn_max

abbrev pub is_app : ℕ → Bool
is_app ext = ext == xcp_addr_ext_app

-- XcpAddrEncodeDyn, XcpAddrDecodeDynEvent, XcpAddrDecodeDynOffset: 10 bits event, 22 bits offset.
-- The shifted event leaves the low 22 bits zero, so `|` is `+`.
abbrev pub encode_dyn : ℕ → ℕ → ℕ
encode_dyn offset event = (event * 4194304 % 4294967296) + offset % 4194304

abbrev pub decode_dyn_event : ℕ → ℕ
decode_dyn_event addr = addr / 4194304 % 65536

abbrev pub decode_dyn_offset : ℕ → ℕ
decode_dyn_offset addr = addr % 4194304

-- An offset of 22 bits and an event id of 10 bits are decoded from their encoding, which is a 32 bit
-- address.
decode-encode_dyn :
    (offset event : ℕ)
    → offset < 4194304
    → event < 1024
    → (decode_dyn_event (encode_dyn offset event) ≡ event)
      × (decode_dyn_offset (encode_dyn offset event) ≡ offset)
      × (encode_dyn offset event < 4294967296)
decode-encode_dyn offset event h k = omega arith

-- XcpAddrEncodeSegNumber, XcpAddrDecodeSegNumber, XcpAddrDecodeSegOffset
abbrev pub encode_seg_number : ℕ → ℕ → ℕ
encode_seg_number seg offset = (2147483648 + seg * 65536 + offset) % 4294967296

abbrev pub decode_seg_number : ℕ → ℕ
decode_seg_number addr = addr / 65536 % 32768

abbrev pub decode_seg_offset : ℕ → ℕ
decode_seg_offset addr = addr % 65536

-- A segment number of 15 bits and an offset of 16 bits are decoded from their encoding.
pub decode-encode_seg :
    (seg offset : ℕ)
    → seg < 32768
    → offset < 65536
    → (decode_seg_number (encode_seg_number seg offset) ≡ seg)
      × (decode_seg_offset (encode_seg_number seg offset) ≡ offset)
decode-encode_seg seg offset h k = omega arith

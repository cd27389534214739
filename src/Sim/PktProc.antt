-- ===== src/Sim/PktProc.antt =====
-- sim/systemc/src/pkt_proc.cpp: the parsing of a received frame. The field `data`, which is never set,
-- is left out.
use smart_eth.Base.{
  ℕ, ◌-◌, ◌+◌, ◌*◌, ◌^◌, Bool, false, List, ◌++◌, length, take, drop, replicate, get_or, max, ltb,
  ◌==◌, if◌then◌else◌, bit_or, u16, not,
}

pub record PacketDescriptor : Type 0 where
  pub len : ℕ
  pub payload_offset : ℕ
  pub ethertype : ℕ
  pub dest_mac : List ℕ
  pub src_mac : List ℕ
  pub crc_valid : Bool

pub record PktProc : Type 0 where
  pub pkt : PacketDescriptor
  pub buf : List ℕ

unfoldable pub new_pkt_proc : PktProc
new_pkt_proc = record {
  pkt = record {
    len = 0;
    payload_offset = 0;
    ethertype = 0;
    dest_mac = replicate 6 0;
    src_mac = replicate 6 0;
    crc_valid = false;
  };
  buf = replicate 2048 0;
}

-- 80 + 20 + 10 + 40
abbrev pub pkt_proc_ns : ℕ
pkt_proc_ns = 150

-- `resize(n)` of a vector of bytes.
abbrev pub resize : ℕ → List ℕ → List ℕ
resize n buf = take n buf ++ replicate (n - length buf) 0

abbrev pub be16_at : ℕ → List ℕ → ℕ
be16_at i frame = u16 (bit_or (get_or frame i 0 * 2 ^ 8) (get_or frame (i + 1) 0))

unfoldable pub parse_mac : List ℕ → PacketDescriptor → PacketDescriptor
parse_mac frame p = record p { dest_mac = take 6 frame; src_mac = take 6 (drop 6 frame) }

-- With the assignment of the result to `m_pkt.ethertype`.
unfoldable pub parse_ethertype : List ℕ → PacketDescriptor → PacketDescriptor
parse_ethertype frame p =
    if be16_at 12 frame == 0x8100
    then record p { ethertype = be16_at 16 frame; payload_offset = 18 }
    else record p { ethertype = be16_at 12 frame; payload_offset = 14 }

unfoldable pub check_crc32 : ℕ → Bool
check_crc32 len = not (ltb len 4)

unfoldable pub receive : List ℕ → PktProc → PktProc
unfolding parse_mac parse_ethertype check_crc32
receive frame p =
    let buf = frame ++ drop (length frame) (resize (max (length frame) 64) p.buf) in
    record {
      pkt = record (parse_ethertype buf (parse_mac buf p.pkt)) {
        crc_valid = check_crc32 (length frame);
      };
      buf = buf;
    }

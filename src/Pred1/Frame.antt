-- ===== src/Pred1/Frame.antt =====
-- `Pred1Compress` and `Pred1Decompress` of src/ccp_pred1.c: frames with a length, the compressed or
-- plain bytes and a check sequence. An mbuf is the list of its bytes.
use mpdx.Common.{
  ℕ, ◌+◌, ◌-◌, ◌*◌, ◌/◌, ◌%◌, ◌^◌, Bool, Option, none, some, List, [], ◌∷◌, ◌++◌, length, take,
  drop, ltb, leb, ◌==◌, if◌then◌else◌, u8, be16,
}
use mpdx.Crc.{crc16, init_fcs, good_fcs, fcs_bytes}
use mpdx.Pred1.{Predictor, pred1_init, compress, decompress, sync_table}

abbrev pub u64 : ℕ → ℕ
u64 n = n % 2 ^ 64

-- `struct pred1_stats`.
pub record Pred1Stats : Type 0 where
  pub frames_plain : ℕ
  pub frames_comp : ℕ
  pub frames_uncomp : ℕ
  pub in_octets : ℕ
  pub out_octets : ℕ
  pub errors : ℕ

-- `struct pred1info`.
pub record Pred1Info : Type 0 where
  pub input : Predictor
  pub output : Predictor
  pub recv_stats : Pred1Stats
  pub xmit_stats : Pred1Stats

-- `PRED1_DECOMP_BUF_SIZE` and `PRED1_MAX_BLOWUP`.
abbrev pub decomp_buf_size : ℕ
decomp_buf_size = 4096

abbrev pub max_blowup : ℕ → ℕ
max_blowup n = n * 9 / 8 + 24

-- The first two bytes of a frame before the flag of a compressed one is set.
abbrev pub frame_len : ℕ → List ℕ
frame_len n = n / 256 % 128 ∷ u8 n ∷ []

-- The frame, from the output of `Compress`.
unfoldable pub frame_of : List ℕ → List ℕ → List ℕ
frame_of plain packed =
    let n = length plain in
    let fcs = crc16 (crc16 init_fcs (frame_len n)) plain in
    if ltb (length packed) n
    then (n / 256 % 128 + 128) ∷ u8 n ∷ packed ++ fcs_bytes fcs
    else frame_len n ++ plain ++ fcs_bytes fcs

abbrev count_sent : Bool → ℕ → ℕ → Pred1Stats → Pred1Stats
count_sent shorter n size s = record s {
  in_octets = u64 (s.in_octets + n);
  frames_plain = u64 (s.frames_plain + 1);
  frames_comp = if shorter then u64 (s.frames_comp + 1) else s.frames_comp;
  frames_uncomp = if shorter then s.frames_uncomp else u64 (s.frames_uncomp + 1);
  out_octets = u64 (s.out_octets + size);
}

-- `Pred1Compress`: the frame, and the predictor and counters afterwards.
unfoldable pub pred1_compress : List ℕ → Pred1Info → List ℕ × Pred1Info
unfolding frame_of
pred1_compress plain i =
    let (packed, q) = compress plain i.output in
    let frame = frame_of plain packed in
    (
      frame,
      record i {
        output = q;
        xmit_stats =
            count_sent (ltb (length packed) (length plain)) (length plain) (length frame)
              i.xmit_stats;
      },
    )

-- How `Pred1Decompress` ends: with a packet, with a reset request (and NULL), or beyond the memory
-- that it may read or write.
pub data Received : Type 0 where
  packet : List ℕ → Pred1Info → Received
  reset : Pred1Info → Received
  overrun : Received

-- The check of the frame after `plain` and the bytes at `cp` are known.
unfoldable pub has_good_fcs : ℕ → List ℕ → List ℕ → Bool
has_good_fcs len plain fcs = crc16 (crc16 (crc16 init_fcs (be16 len)) plain) fcs == good_fcs

-- `Pred1SendResetReq`, which `CcpSendResetReq` calls.
unfoldable pub pred1_send_reset_req : Pred1Info → Pred1Info
pred1_send_reset_req i = record i { input = pred1_init }

-- A packet is counted; an error is counted, and the predictor starts anew.
unfoldable pub accepted : List ℕ → Pred1Info → Received
accepted plain i =
    let s = i.recv_stats in
    packet plain (record i {
      recv_stats = record s {
        frames_plain = u64 (s.frames_plain + 1);
        out_octets = u64 (s.out_octets + length plain);
      };
    })

unfoldable pub refused : Pred1Info → Received
unfolding pred1_send_reset_req
refused i =
    let s = i.recv_stats in
    reset
      (pred1_send_reset_req (record i { recv_stats = record s { errors = u64 (s.errors + 1) } }))

abbrev pub if_good : Bool → List ℕ → Pred1Info → Received
unfolding accepted refused
if_good good plain i = if good then accepted plain i else refused i

abbrev pub count_comp : Pred1Info → Pred1Info
count_comp i =
    let s = i.recv_stats in
    record i { recv_stats = record s { frames_comp = u64 (s.frames_comp + 1) } }

abbrev pub count_uncomp : Pred1Info → Pred1Info
count_uncomp i =
    let s = i.recv_stats in
    record i { recv_stats = record s { frames_uncomp = u64 (s.frames_uncomp + 1) } }

-- After `Decompress`: -1 or another length than the frame says is an error.
unfoldable pub decompressed : ℕ → List ℕ → Option (List ℕ × Predictor) → Pred1Info → Received
unfolding if_good
decompressed len fcs none i = refused i
decompressed len fcs (some (plain, q)) i =
    if len == length plain
    then if_good (has_good_fcs len plain fcs) plain (record i { input = q })
    else refused i

-- `cf` is set: `body` is the frame without its first two bytes, and its last two are the check.
unfoldable pub recv_compressed : ℕ → List ℕ → Pred1Info → Received
unfolding decompressed
recv_compressed len body i =
    let size = length body - 2 in
    decompressed len (drop size body) (decompress (take size body) decomp_buf_size i.input)
      (count_comp i)

-- `cf` is clear: `len` bytes are copied, whatever the size of the frame and of the buffer.
unfoldable pub recv_plain : ℕ → List ℕ → Pred1Info → Received
unfolding if_good
recv_plain len body i =
    let plain = take len body in
    if ltb decomp_buf_size len
    then overrun
    else if ltb (length body) (len + 2)
    then overrun
    else if_good (has_good_fcs len plain (take 2 (drop len body))) plain
        (record (count_uncomp i) { input = sync_table plain i.input })

abbrev pub count_in : ℕ → Pred1Info → Pred1Info
count_in n i =
    let s = i.recv_stats in record i { recv_stats = record s { in_octets = u64 (s.in_octets + n) } }

-- `Pred1Decompress`. `orglen - 4` is negative for a frame of less than four bytes.
unfoldable pub pred1_decompress : List ℕ → Pred1Info → Received
unfolding recv_compressed recv_plain
pred1_decompress (hi ∷ lo ∷ body) i =
    let len = hi * 256 + lo in
    let counted = count_in (length body + 2) i in
    if leb 32768 len
    then (if ltb (length body) 2 then overrun else recv_compressed (len % 32768) body counted)
    else recv_plain len body counted
pred1_decompress frame i = overrun

-- `Pred1RecvResetReq` and `Pred1RecvResetAck`.
pub pred1_recv_reset_req : Pred1Info → Pred1Info
pred1_recv_reset_req i =
    let s = i.xmit_stats in
    record i { output = pred1_init; xmit_stats = record s { errors = u64 (s.errors + 1) } }

pub pred1_recv_reset_ack : Pred1Info → Pred1Info
pred1_recv_reset_ack i = record i { input = pred1_init }

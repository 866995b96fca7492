-- ===== src/Pred1/Delivery.antt =====
-- `Pred1Compress` of src/ccp_pred1.c against `Pred1Decompress`.
use mathlib.Core.Path.{subst}
use mpdx.Common.{
  ℕ, ◌+◌, ◌-◌, ◌*◌, ◌/◌, ◌%◌, ◌≤◌, ◌<◌, Bool, true, false, some, List, ◌∷◌, ◌++◌, ◌≡◌, refl, sym,
  ap, ◌∙◌, arith, length, ltb, leb, if◌then◌else◌, u8, be16, length-append, take-append,
  drop-append, eq→==, le→ltb, le→leb,
}
use mpdx.Crc.{crc16, init_fcs, good_fcs, fcs_bytes, crc16-fcs_bytes, crc16-lt}
use mpdx.Pred1.{Predictor, compress, decompress, sync_table}
use mpdx.Pred1.Frame.{
  Pred1Info, Received, packet, count_comp, count_uncomp, count_in, decomp_buf_size, if_good,
  frame_len, frame_of, pred1_compress, has_good_fcs, accepted, refused, decompressed,
  recv_compressed, recv_plain, pred1_decompress,
}
use mpdx.Pred1.RoundTrip.{decompress-compress, compress-sync_table}

-- The check sequence that `Pred1Compress` writes.
abbrev sent_fcs : List ℕ → ℕ
sent_fcs plain = crc16 (crc16 init_fcs (frame_len (length plain))) plain

has_good_fcs-sent :
    (plain : List ℕ)
    → length plain < 4096
    → has_good_fcs (length plain) plain (fcs_bytes (sent_fcs plain)) ≡ true
unfolding has_good_fcs
has_good_fcs-sent plain h =
    let high : length plain / 256 % 128 ≡ length plain / 256 % 256 = omega arith in
    rw high (
      eq→== _ good_fcs (
        crc16-fcs_bytes _ (
          crc16-lt (crc16 init_fcs (be16 (length plain))) plain
            (crc16-lt init_fcs (be16 (length plain)) (omega arith)))))

decompressed-sent :
    (len : ℕ) (plain fcs : List ℕ) (q : Predictor) (i : Pred1Info)
    → len ≡ length plain
    → has_good_fcs (length plain) plain fcs ≡ true
    → decompressed len fcs (some (plain, q)) i ≡ accepted plain (record i { input = q })
unfolding decompressed
decompressed-sent len plain fcs q i h k =
    ap
      (λ b.
        if b
        then if_good (has_good_fcs len plain fcs) plain (record i { input = q })
        else refused i)
      (eq→== len (length plain) h)
    ∙ ap (λ n. if_good (has_good_fcs n plain fcs) plain (record i { input = q })) h
    ∙ ap (λ b. if_good b plain (record i { input = q })) k

-- A delivered packet, with the predictor that it leaves.
abbrev Delivers : List ℕ → Predictor → Received → Type 0
Delivers plain q received = (j : Pred1Info) × (received ≡ packet plain j) × (j.input ≡ q)

accepted-Delivers :
    (plain : List ℕ) (i : Pred1Info) (r : Received)
    → r ≡ accepted plain i
    → Delivers plain i.input r
unfolding accepted
accepted-Delivers plain i r e = (_, e, refl)

recv_compressed-sent :
    (plain packed : List ℕ) (i : Pred1Info) (q : Predictor)
    → length plain < 4096
    → decompress packed decomp_buf_size i.input ≡ some (plain, q)
    → recv_compressed (length plain) (packed ++ fcs_bytes (sent_fcs plain)) i
      ≡ accepted plain (record (count_comp i) { input = q })
unfolding recv_compressed
recv_compressed-sent plain packed i q h k =
    let fcs = fcs_bytes (sent_fcs plain) in
    let size : length (packed ++ fcs) - 2 ≡ length packed =
      omega (arith, length-append packed fcs) in
    rw (take-append packed fcs _ size, drop-append packed fcs _ size, k)
      (decompressed-sent (length plain) plain fcs q (count_comp i) refl (has_good_fcs-sent plain h))

recv_plain-sent :
    (plain : List ℕ) (i : Pred1Info)
    → length plain < 4096
    → recv_plain (length plain) (plain ++ fcs_bytes (sent_fcs plain)) i
      ≡ accepted plain (record (count_uncomp i) { input = sync_table plain i.input })
unfolding recv_plain
recv_plain-sent plain i h =
    let fcs = fcs_bytes (sent_fcs plain) in
    rw
      (
        le→ltb decomp_buf_size (length plain) (omega arith),
        le→ltb (length (plain ++ fcs)) (length plain + 2) (omega (arith, length-append plain fcs)),
        take-append plain fcs (length plain) refl,
        drop-append plain fcs (length plain) refl,
        has_good_fcs-sent plain h,
      )
      refl

received_compressed :
    (n : ℕ) (body : List ℕ) (i : Pred1Info)
    → n < 4096
    → 2 ≤ length body
    → pred1_decompress ((n / 256 % 128 + 128) ∷ u8 n ∷ body) i
      ≡ recv_compressed n body (count_in (length body + 2) i)
unfolding pred1_decompress
received_compressed n body i h k =
    let value : (n / 256 % 128 + 128) * 256 + n % 256 ≡ n + 32768 = omega arith in
    let low : (n + 32768) % 32768 ≡ n = omega arith in
    rw (value, le→leb 32768 (n + 32768) (omega arith), le→ltb (length body) 2 k, low) refl

received_plain :
    (n : ℕ) (body : List ℕ) (i : Pred1Info)
    → n < 4096
    → pred1_decompress (frame_len n ++ body) i ≡ recv_plain n body (count_in (length body + 2) i)
unfolding pred1_decompress
received_plain n body i h =
    let value : n / 256 % 128 * 256 + n % 256 ≡ n = omega arith in
    let small : leb 32768 n ≡ false = ground arith in rw (value, small) refl

-- The frame that carries `packed`, or the packet itself where `packed` is not shorter.
frame_of-Delivers :
    (plain packed : List ℕ) (i : Pred1Info) (q : Predictor)
    → length plain < 4096
    → decompress packed decomp_buf_size i.input ≡ some (plain, q)
    → sync_table plain i.input ≡ q
    → (b : Bool) → ltb (length packed) (length plain) ≡ b
    → Delivers plain q (pred1_decompress (frame_of plain packed) i)
unfolding frame_of
frame_of-Delivers plain packed i q h k l true e =
    let body = packed ++ fcs_bytes (sent_fcs plain) in
    rw e (
      accepted-Delivers plain (record (count_comp (count_in (length body + 2) i)) { input = q }) _
        (received_compressed (length plain) body i h
            (omega (arith, length-append packed (fcs_bytes (sent_fcs plain))))
          ∙ recv_compressed-sent plain packed (count_in (length body + 2) i) q h k))
frame_of-Delivers plain packed i q h k l false e =
    let body = plain ++ fcs_bytes (sent_fcs plain) in
    let counted = count_in (length body + 2) i in
    rw e (
      subst (λ p. Delivers plain p (pred1_decompress (frame_len (length plain) ++ body) i)) l
        (accepted-Delivers plain
          (record (count_uncomp counted) { input = sync_table plain i.input }) _
          (received_plain (length plain) body i h ∙ recv_plain-sent plain counted h)))

-- When the receiver's predictor is the sender's, a packet of less than 4096 bytes arrives as it was
-- sent, and the predictors are the same again.
pub pred1_delivers :
    (plain : List ℕ) (sender receiver : Pred1Info)
    → length plain < 4096
    → receiver.input ≡ sender.output
    → let (frame, sender') = pred1_compress plain sender in
      (receiver' : Pred1Info) × (pred1_decompress frame receiver ≡ packet plain receiver')
      × (receiver'.input ≡ sender'.output)
unfolding pred1_compress
pred1_delivers plain sender receiver h e =
    frame_of-Delivers plain (compress plain sender.output).0 receiver
      (compress plain sender.output).1 h
      (ap (decompress (compress plain sender.output).0 decomp_buf_size) e
        ∙ decompress-compress plain decomp_buf_size sender.output h)
      (ap (sync_table plain) e ∙ sym (compress-sync_table plain sender.output)) _ refl

-- ===== src/Pred1/Examples.antt =====
-- A short packet through Predictor type 1.
use mpdx.Common.{ℕ, ◌+◌, ◌≤◌, List, [], ◌∷◌, ◌≡◌, refl, some, arith, length}
use mpdx.Pred1.{Predictor, pred1_init, decompress, unpack_all}
use mpdx.Pred1.Frame.{Pred1Stats, Pred1Info, packet, pred1_compress, pred1_decompress}
use mpdx.Pred1.Bounds.{decompress_fits}
use mpdx.Pred1.Delivery.{pred1_delivers}

abbrev plain : List ℕ
plain = 7 ∷ 7 ∷ 7 ∷ 7 ∷ 7 ∷ 7 ∷ 7 ∷ 7 ∷ 7 ∷ 7 ∷ 1 ∷ []

abbrev no_stats : Pred1Stats
no_stats = record {
  frames_plain = 0;
  frames_comp = 0;
  frames_uncomp = 0;
  in_octets = 0;
  out_octets = 0;
  errors = 0;
}

abbrev start : Pred1Info
start = record {
  input = pred1_init;
  output = pred1_init;
  recv_stats = no_stats;
  xmit_stats = no_stats;
}

pred1_delivers_example :
    let (frame, sender') = pred1_compress plain start in
    (receiver' : Pred1Info) × (pred1_decompress frame start ≡ packet plain receiver')
    × (receiver'.input ≡ sender'.output)
pred1_delivers_example = pred1_delivers plain start start (omega arith) refl

decompress_fits_example :
    ((r : List ℕ × Predictor) → decompress plain 4 pred1_init ≡ some r → length r.0 ≤ 4)
    × (unpack_all (length plain + 3) plain 4 pred1_init ≡ decompress plain 4 pred1_init)
decompress_fits_example = decompress_fits plain 4 3 pred1_init

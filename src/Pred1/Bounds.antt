-- ===== src/Pred1/Bounds.antt =====
-- How much `Compress` and `Decompress` of src/ccp_pred1.c write, and the fuel of their loops.
use mathlib.Core.Option.{some-injective}
use mathlib.Core.Path.{subst}
use mpdx.Common.{
  ℕ, zero, suc, ◌+◌, ◌*◌, ◌/◌, ◌%◌, ◌≤◌, Bool, true, false, Option, none, some, List, [], ◌∷◌, ◌≡◌,
  refl, ap, inl, inr, arith, length, take, drop, length-drop, length-append, ◌==◌, Bool-cases,
}
use mpdx.Pred1.{
  Predictor, guess, advance, store, learn, Packed, flagged, pack, pack_all, compress, Unpacked,
  behind, unpack, in_front, next_group, unpack_all, decompress,
}
use mpdx.Crc.{crc16, init_fcs, fcs_bytes}
use mpdx.Pred1.Frame.{frame_len, max_blowup, frame_of, pred1_compress, Pred1Info}
use mpdx.Pred1.RoundTrip.{pack-rest}

flagged-out : (b : Bool) (x : ℕ) (g : Packed) → length (flagged b x g).out ≤ suc (length g.out)
flagged-out true x g = omega arith
flagged-out false x g = omega arith

pack-out :
    (slots : ℕ) (source : List ℕ) (p : Predictor)
    → length (pack slots source p).out ≤ length (take slots source)
unfolding pack
pack-out zero source p = omega arith
pack-out (suc slots) [] p = omega arith
pack-out (suc slots) (x ∷ source) p = omega (
  arith,
  flagged-out (guess p == x) x (pack slots source (learn x p)),
  pack-out slots source (learn x p),
)

take-drop : (n : ℕ) (xs : List ℕ) → length (take n xs) + length (drop n xs) ≡ length xs
take-drop zero xs = omega arith
take-drop (suc n) [] = omega arith
take-drop (suc n) (x ∷ xs) = omega (arith, take-drop n xs)

pack_all-le :
    (fuel : ℕ) (source : List ℕ) (p : Predictor)
    → 8 * length (pack_all fuel source p).0 ≤ 9 * length source + 7
unfolding pack_all
pack_all-le zero source p = omega arith
pack_all-le (suc fuel) [] p = omega arith
pack_all-le (suc fuel) (x ∷ source) p =
    let xs = x ∷ source in
    let g = pack 8 xs p in
    omega (
      arith,
      pack_all-le fuel g.rest g.state,
      pack-out 8 xs p,
      take-drop 8 xs,
      length-drop 8 xs,
      ap length (pack-rest 8 xs p),
      length-append g.out (pack_all fuel g.rest g.state).0,
    )

-- The bytes that `Compress` writes behind the two of the length, and the whole frame of
-- `Pred1Compress`, fit the mbuf of `PRED1_MAX_BLOWUP` bytes.
pub compress_fits :
    (plain : List ℕ) (i : Pred1Info)
    → (length (compress plain i.output).0 + 4 ≤ max_blowup (length plain + 2))
      × (length (pred1_compress plain i).0 ≤ max_blowup (length plain + 2))
unfolding pred1_compress frame_of compress
compress_fits plain i =
    let fcs = crc16 (crc16 init_fcs (frame_len (length plain))) plain in
    let packed = (compress plain i.output).0 in
    let small = pack_all-le (length plain) plain i.output in
    (
      omega (arith, small),
      ground
          (arith, small, length-append packed (fcs_bytes fcs), length-append plain (fcs_bytes fcs)),
    )

-- What a group of `Decompress` has written and the room that is left.
abbrev Fits : ℕ → ℕ → Unpacked → Type 0
Fits n room g = (length g.out + g.room ≡ room) × (length g.rest ≤ n)

behind-Fits :
    (x n room : ℕ) (o : Option Unpacked) (g : Unpacked)
    → ((h : Unpacked) → o ≡ some h → Fits n room h)
    → behind x o ≡ some g
    → Fits n (suc room) g
behind-Fits x n room none g ih e = absurd (ground arith)
behind-Fits x n room (some h) g ih e =
    subst (Fits n (suc room)) (some-injective _ _ e) (omega (arith, (ih h refl).0), (ih h refl).1)

unpack-Fits :
    (slots flags : ℕ) (source : List ℕ) (room : ℕ) (p : Predictor) (g : Unpacked)
    → unpack slots flags source room p ≡ some g
    → Fits (length source) room g
unfolding unpack
unpack-Fits zero flags source room p g e =
    subst (Fits (length source) room) (some-injective _ _ e) (omega arith, omega arith)
unpack-Fits (suc slots) flags source zero p g e = absurd (ground arith)
unpack-Fits (suc slots) flags [] (suc room) p g e = elim (Bool-cases (flags % 2 == 1)) [
  | inl b ↦
      behind-Fits (guess p) 0 room (unpack slots (flags / 2) [] room (advance (guess p) p)) g
        (unpack-Fits slots (flags / 2) [] room (advance (guess p) p)) (simp b at e)
  | inr b ↦ subst (Fits 0 (suc room)) (some-injective _ _ (simp b at e)) (omega arith, omega arith)
]
unpack-Fits (suc slots) flags (x ∷ source) (suc room) p g e = elim (Bool-cases (flags % 2 == 1)) [
  | inl b ↦
      behind-Fits (guess p) (suc (length source)) room
        (unpack slots (flags / 2) (x ∷ source) room (advance (guess p) p)) g
        (unpack-Fits slots (flags / 2) (x ∷ source) room (advance (guess p) p)) (simp b at e)
  | inr b ↦
      behind-Fits x (suc (length source)) room
        (unpack slots (flags / 2) source room (advance x (store x p))) g
        (λ h k. fewer h (unpack-Fits slots (flags / 2) source room (advance x (store x p)) h k))
        (simp b at e)
]
  where
    fewer : (h : Unpacked) → Fits (length source) room h → Fits (suc (length source)) room h
    fewer h f = (f.0, omega (arith, f.1))

next_group-same :
    (o : Option Unpacked) (f g : Unpacked → Option (List ℕ × Predictor))
    → ((h : Unpacked) → o ≡ some h → f h ≡ g h)
    → next_group o f ≡ next_group o g
next_group-same none f g same = refl
next_group-same (some h) f g same = ap (in_front h.out) (same h refl)

unpack_all-fuel :
    (m n : ℕ) (source : List ℕ) (room : ℕ) (p : Predictor)
    → length source ≤ m
    → length source ≤ n
    → unpack_all m source room p ≡ unpack_all n source room p
unfolding unpack_all
unpack_all-fuel m n [] room p h k = unpacked m n
  where
    unpacked : (m n : ℕ) → unpack_all m [] room p ≡ unpack_all n [] room p
    unpacked zero zero = refl
    unpacked zero (suc n) = refl
    unpacked (suc m) zero = refl
    unpacked (suc m) (suc n) = refl
unpack_all-fuel zero n (flags ∷ source) room p h k = absurd (omega arith)
unpack_all-fuel (suc m) zero (flags ∷ source) room p h k = absurd (omega arith)
unpack_all-fuel (suc m) (suc n) (flags ∷ source) room p h k =
    next_group-same (unpack 8 flags source room p) (λ g. unpack_all m g.rest g.room g.state)
      (λ g. unpack_all n g.rest g.room g.state)
      (λ g e.
        (let fits = unpack-Fits 8 flags source room p g e in
          unpack_all-fuel m n g.rest g.room g.state (omega (arith, fits.1))
            (omega (arith, fits.1))))

in_front-le :
    (out : List ℕ) (room : ℕ) (o : Option (List ℕ × Predictor)) (r : List ℕ × Predictor)
    → ((s : List ℕ × Predictor) → o ≡ some s → length s.0 ≤ room)
    → in_front out o ≡ some r
    → length r.0 ≤ length out + room
in_front-le out room none r ih e = absurd (ground arith)
in_front-le out room (some s) r ih e =
    subst (λ (t : List ℕ × Predictor). length t.0 ≤ length out + room) (some-injective _ _ e)
      (omega (arith, ih s refl, length-append out s.0))

next_group-le :
    (room : ℕ) (o : Option Unpacked) (more : Unpacked → Option (List ℕ × Predictor))
    (r : List ℕ × Predictor)
    → ((g : Unpacked)
        → o ≡ some g
        → (length g.out + g.room ≡ room)
          × ((s : List ℕ × Predictor) → more g ≡ some s → length s.0 ≤ g.room))
    → next_group o more ≡ some r
    → length r.0 ≤ room
next_group-le room none more r ih e = absurd (ground arith)
next_group-le room (some g) more r ih e =
    omega (arith, (ih g refl).0, in_front-le g.out g.room (more g) r (ih g refl).1 e)

unpack_all-le :
    (fuel : ℕ) (source : List ℕ) (room : ℕ) (p : Predictor) (r : List ℕ × Predictor)
    → unpack_all fuel source room p ≡ some r
    → length r.0 ≤ room
unfolding unpack_all
unpack_all-le zero [] room p r e =
    subst (λ (t : List ℕ × Predictor). length t.0 ≤ room) (some-injective _ _ e) (omega arith)
unpack_all-le (suc fuel) [] room p r e =
    subst (λ (t : List ℕ × Predictor). length t.0 ≤ room) (some-injective _ _ e) (omega arith)
unpack_all-le zero (flags ∷ source) room p r e = absurd (ground arith)
unpack_all-le (suc fuel) (flags ∷ source) room p r e =
    next_group-le room (unpack 8 flags source room p) (λ g. unpack_all fuel g.rest g.room g.state) r
      (λ g k. ((unpack-Fits 8 flags source room p g k).0, unpack_all-le fuel g.rest g.room g.state))
      e

-- Whatever bytes arrive, `Decompress` puts out no more than the room given. The fuel of its loop,
-- the number of bytes, is enough: more changes nothing.
pub decompress_fits :
    (source : List ℕ) (room more : ℕ) (p : Predictor)
    → ((r : List ℕ × Predictor) → decompress source room p ≡ some r → length r.0 ≤ room)
      × (unpack_all (length source + more) source room p ≡ decompress source room p)
unfolding decompress
decompress_fits source room more p = (
  unpack_all-le (length source) source room p,
  unpack_all-fuel (length source + more) (length source) source room p (omega arith) (omega arith),
)

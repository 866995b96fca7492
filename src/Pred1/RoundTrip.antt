-- ===== src/Pred1/RoundTrip.antt =====
-- `Compress` of src/ccp_pred1.c against `Decompress` and `SyncTable`.
use mpdx.Common.{
  ℕ, zero, suc, ◌+◌, ◌-◌, ◌*◌, ◌/◌, ◌%◌, ◌≤◌, ◌<◌, Bool, true, false, Option, some, List, [], ◌∷◌,
  ◌++◌, ◌≡◌, refl, sym, ap, ◌∙◌, ◌⊎◌, inl, inr, arith, length, take, drop, length-drop,
  length-append, leb, take-append-drop, ◌==◌, Bool-cases,
}
use mathlib.Core.Path.{subst, ap₂}
use mpdx.Pred1.{
  Predictor, guess, advance, store, learn, Packed, flagged, pack, pack_all, compress, Unpacked,
  behind, unpack, in_front, next_group, unpack_all, decompress, sync_table,
}

flagged-rest : (b : Bool) (x : ℕ) (g : Packed) → (flagged b x g).rest ≡ g.rest
flagged-rest true x g = refl
flagged-rest false x g = refl

flagged-state : (b : Bool) (x : ℕ) (g : Packed) → (flagged b x g).state ≡ g.state
flagged-state true x g = refl
flagged-state false x g = refl

pub pack-rest :
    (slots : ℕ) (source : List ℕ) (p : Predictor) → (pack slots source p).rest ≡ drop slots source
unfolding pack
pack-rest zero source p = refl
pack-rest (suc slots) [] p = refl
pack-rest (suc slots) (x ∷ source) p =
    flagged-rest (guess p == x) x (pack slots source (learn x p))
    ∙ pack-rest slots source (learn x p)

pack-state :
    (slots : ℕ) (source : List ℕ) (p : Predictor)
    → (pack slots source p).state ≡ sync_table (take slots source) p
unfolding pack sync_table
pack-state zero source p = refl
pack-state (suc slots) [] p = refl
pack-state (suc slots) (x ∷ source) p =
    flagged-state (guess p == x) x (pack slots source (learn x p))
    ∙ pack-state slots source (learn x p)

sync_table-append :
    (xs ys : List ℕ) (p : Predictor) → sync_table (xs ++ ys) p ≡ sync_table ys (sync_table xs p)
unfolding sync_table
sync_table-append [] ys p = refl
sync_table-append (x ∷ xs) ys p = sync_table-append xs ys (learn x p)

-- The room that is left when the slots, or the source, are used up.
abbrev room_after : ℕ → List ℕ → ℕ → ℕ
room_after (suc slots) (x ∷ source) (suc room) = room_after slots source room
room_after slots source room = room

room_after-lt :
    (slots : ℕ) (source : List ℕ) (room : ℕ)
    → length source < room
    → length (drop slots source) < room_after slots source room
room_after-lt zero source room h = h
room_after-lt (suc slots) [] room h = h
room_after-lt (suc slots) (x ∷ source) zero h = absurd (omega arith)
room_after-lt (suc slots) (x ∷ source) (suc room) h = room_after-lt slots source room (omega arith)

-- What the inner loop of `Decompress` should make of what that of `Compress` put out.
abbrev restored : ℕ → List ℕ → ℕ → List ℕ → Predictor → Option Unpacked
restored slots source room tail q = some (record {
  out = take slots source;
  rest = tail;
  room = room_after slots source room;
  state = q;
})

unpack-hit :
    (slots flags : ℕ) (source : List ℕ) (room : ℕ) (p : Predictor)
    → unpack (suc slots) (1 + 2 * flags) source (suc room) p
      ≡ behind (guess p) (unpack slots flags source room (advance (guess p) p))
unfolding unpack
unpack-hit slots flags [] room p =
    let odd : (1 + 2 * flags) % 2 ≡ 1 = omega arith in
    let half : (1 + 2 * flags) / 2 ≡ flags = omega arith in rw (odd, half) refl
unpack-hit slots flags (x ∷ source) room p =
    let odd : (1 + 2 * flags) % 2 ≡ 1 = omega arith in
    let half : (1 + 2 * flags) / 2 ≡ flags = omega arith in rw (odd, half) refl

unpack-miss :
    (slots flags x : ℕ) (source : List ℕ) (room : ℕ) (p : Predictor)
    → unpack (suc slots) (2 * flags) (x ∷ source) (suc room) p
      ≡ behind x (unpack slots flags source room (advance x (store x p)))
unfolding unpack
unpack-miss slots flags x source room p =
    let even : (2 * flags) % 2 ≡ 0 = omega arith in
    let half : (2 * flags) / 2 ≡ flags = omega arith in rw (even, half) refl

unpack-flagged :
    (b : Bool) (slots x room : ℕ) (source tail : List ℕ) (p : Predictor) (g : Packed)
    → (guess p == x) ≡ b
    → unpack slots g.flags (g.out ++ tail) room (learn x p)
      ≡ restored slots source room tail g.state
    → unpack (suc slots) (flagged b x g).flags ((flagged b x g).out ++ tail) (suc room) p
      ≡ restored (suc slots) (x ∷ source) (suc room) tail (flagged b x g).state
unfolding learn
unpack-flagged true slots x room source tail p g e h =
    let same : guess p ≡ x = ground arith in
    let moved : learn x p ≡ advance x p = rw e refl in
    unpack-hit slots g.flags (g.out ++ tail) room p
    ∙ ap (λ y. behind y (unpack slots g.flags (g.out ++ tail) room (advance y p))) same
    ∙ ap (λ q. behind x (unpack slots g.flags (g.out ++ tail) room q)) (sym moved)
    ∙ ap (behind x) h
unpack-flagged false slots x room source tail p g e h =
    let moved : learn x p ≡ advance x (store x p) = rw e refl in
    unpack-miss slots g.flags x (g.out ++ tail) room p
    ∙ ap (λ q. behind x (unpack slots g.flags (g.out ++ tail) room q)) (sym moved)
    ∙ ap (behind x) h

unpack-pack :
    (slots : ℕ) (source tail : List ℕ) (room : ℕ) (p : Predictor)
    → length source < room
    → (slots ≤ length source) ⊎ (tail ≡ [])
    → let g = pack slots source p in
      unpack slots g.flags (g.out ++ tail) room p ≡ restored slots source room tail g.state
unfolding pack
unpack-pack zero source tail room p h k = unfold unpack in refl
unpack-pack (suc slots) [] tail (suc room) p h (inl k) = absurd (omega arith)
unpack-pack (suc slots) [] tail (suc room) p h (inr k) = rw k (unfold unpack in refl)
unpack-pack (suc slots) (x ∷ source) tail (suc room) p h k =
    unpack-flagged (guess p == x) slots x room source tail p (pack slots source (learn x p)) refl
      (unpack-pack slots source tail room (learn x p) (omega arith) (fewer k))
  where
    fewer : (suc slots ≤ suc (length source)) ⊎ (tail ≡ []) → (slots ≤ length source) ⊎ (tail ≡ [])
    fewer (inl l) = inl (omega arith)
    fewer (inr l) = inr l
unpack-pack (suc slots) source tail zero p h k = absurd (omega arith)

pack_all-empty :
    (fuel : ℕ) (source : List ℕ) (p : Predictor)
    → length source ≡ 0
    → (pack_all fuel source p).0 ≡ []
unfolding pack_all
pack_all-empty zero source p h = refl
pack_all-empty (suc fuel) [] p h = refl
pack_all-empty (suc fuel) (x ∷ source) p h = absurd (omega arith)

-- What follows a group of 8 in the output.
abbrev later : ℕ → List ℕ → Predictor → List ℕ
later fuel xs p = (pack_all fuel (pack 8 xs p).rest (pack 8 xs p).state).0

full_or_last : (fuel : ℕ) (xs : List ℕ) (p : Predictor) → (8 ≤ length xs) ⊎ (later fuel xs p ≡ [])
full_or_last fuel xs p = elim (Bool-cases (leb 8 (length xs))) [
  | inl e ↦ inl (ground arith)
  | inr e ↦ inr (
      pack_all-empty fuel (pack 8 xs p).rest (pack 8 xs p).state
        (ap length (pack-rest 8 xs p) ∙ length-drop 8 xs ∙ ground arith))
]

join :
    (xs : List ℕ) (p : Predictor)
    → in_front (take 8 xs) (some (drop 8 xs, sync_table (drop 8 xs) (pack 8 xs p).state))
      ≡ some (xs, sync_table xs p)
join xs p =
    ap (λ q. in_front (take 8 xs) (some (drop 8 xs, sync_table (drop 8 xs) q))) (pack-state 8 xs p)
    ∙ ap (λ q. some (take 8 xs ++ drop 8 xs, q)) (sym (sync_table-append (take 8 xs) (drop 8 xs) p))
    ∙ ap (λ ys. some (ys, sync_table ys p)) (take-append-drop 8 xs)

unpack_all-group :
    (fuel more : ℕ) (xs : List ℕ) (room : ℕ) (p : Predictor)
    → length xs < room
    → unpack_all more (later fuel xs p) (room_after 8 xs room) (pack 8 xs p).state
      ≡ some (drop 8 xs, sync_table (drop 8 xs) (pack 8 xs p).state)
    → unpack_all (suc more) ((pack 8 xs p).flags ∷ (pack 8 xs p).out ++ later fuel xs p) room p
      ≡ some (xs, sync_table xs p)
unfolding unpack_all
unpack_all-group fuel more xs room p h k =
    let more_groups : Unpacked → Option (List ℕ × Predictor) =
      λ g. unpack_all more g.rest g.room g.state in
    ap (λ o. next_group o more_groups)
      (unpack-pack 8 xs (later fuel xs p) room p h (full_or_last fuel xs p))
    ∙ ap (in_front (take 8 xs)) k
    ∙ join xs p

unpack_all-pack_all :
    (fuel more : ℕ) (source : List ℕ) (room : ℕ) (p : Predictor)
    → length source ≤ fuel
    → length source < room
    → length (pack_all fuel source p).0 ≤ more
    → unpack_all more (pack_all fuel source p).0 room p ≡ some (source, sync_table source p)
unfolding pack_all unpack_all sync_table
unpack_all-pack_all zero more [] room p h l k = refl
unpack_all-pack_all zero more (x ∷ source) room p h l k = absurd (omega arith)
unpack_all-pack_all (suc fuel) more [] room p h l k = refl
unpack_all-pack_all (suc fuel) zero (x ∷ source) room p h l k = absurd (omega arith)
unpack_all-pack_all (suc fuel) (suc more) (x ∷ source) room p h l k =
    let xs = x ∷ source in
    let g = pack 8 xs p in
    let size : length g.rest ≡ length xs - 8 = ap length (pack-rest 8 xs p) ∙ length-drop 8 xs in
    unpack_all-group fuel more xs room p l (
      subst
        (λ ys.
          unpack_all more (later fuel xs p) (room_after 8 xs room) g.state
          ≡ some (ys, sync_table ys g.state))
        (pack-rest 8 xs p)
        (unpack_all-pack_all fuel more g.rest (room_after 8 xs room) g.state (omega arith)
          (subst (λ ys. length ys < room_after 8 xs room) (sym (pack-rest 8 xs p))
            (room_after-lt 8 xs room l))
          (omega (arith, length-append g.out (later fuel xs p)))))

pack_all-state :
    (fuel : ℕ) (source : List ℕ) (p : Predictor)
    → length source ≤ fuel
    → (pack_all fuel source p).1 ≡ sync_table source p
unfolding pack_all
pack_all-state zero [] p h = unfold sync_table in refl
pack_all-state zero (x ∷ source) p h = absurd (omega arith)
pack_all-state (suc fuel) [] p h = unfold sync_table in refl
pack_all-state (suc fuel) (x ∷ source) p h =
    let xs = x ∷ source in
    let g = pack 8 xs p in
    let size : length g.rest ≡ length xs - 8 = ap length (pack-rest 8 xs p) ∙ length-drop 8 xs in
    pack_all-state fuel g.rest g.state (omega arith)
    ∙ ap₂ sync_table (pack-rest 8 xs p) (pack-state 8 xs p)
    ∙ sym (sync_table-append (take 8 xs) (drop 8 xs) p)
    ∙ ap (λ ys. sync_table ys p) (take-append-drop 8 xs)

-- The predictor after `Compress` is the one that `SyncTable` makes of the packet.
pub compress-sync_table :
    (source : List ℕ) (p : Predictor) → (compress source p).1 ≡ sync_table source p
unfolding compress
compress-sync_table source p = pack_all-state (length source) source p (omega arith)

-- `Decompress` turns what `Compress` puts out back into the packet when both start from the same
-- predictor and the packet is shorter than the room given, and both end with the same predictor.
pub decompress-compress :
    (source : List ℕ) (room : ℕ) (p : Predictor)
    → length source < room
    → decompress (compress source p).0 room p ≡ some (source, (compress source p).1)
unfolding compress decompress
decompress-compress source room p h =
    let out = (pack_all (length source) source p).0 in
    unpack_all-pack_all (length source) (length out) source room p (omega arith) h (omega arith)
    ∙ ap (λ q. some (source, q)) (sym (compress-sync_table source p))

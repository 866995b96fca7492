-- ===== src/Pred1.antt =====
-- src/ccp_pred1.c: Predictor type 1 of RFC 1978. A table guesses the next byte from a hash of the
-- bytes before it; both ends keep the same table.
pub mod Examples
pub mod Frame
pub mod Delivery
pub mod Bounds
pub mod RoundTrip
use Prim.Native.Nat.{bit_xor}
use mpdx.Common.{
  ℕ, zero, suc, ◌+◌, ◌-◌, ◌*◌, ◌/◌, ◌%◌, Bool, true, false, Option, none, some, List, [], ◌∷◌, ◌++◌,
  length, ◌==◌, if◌then◌else◌, u16,
}

-- One direction of `struct pred1info`: `oHash` and `OutputGuessTable`, or `iHash` and
-- `InputGuessTable`, which has a byte for each hash.
pub record Predictor : Type 0 where
  pub hash : ℕ
  pub table : ℕ → ℕ

-- `Pred1Init`, one direction.
abbrev pub pred1_init : Predictor
pred1_init = record { hash = 0; table = λ _. 0 }

pub guess : Predictor → ℕ
guess p = p.table p.hash

-- `OHASH` and `IHASH`.
pub advance : ℕ → Predictor → Predictor
advance x p = record p { hash = u16 (bit_xor (p.hash * 16) x) }

pub store : ℕ → Predictor → Predictor
store x p = record p { table = λ i. if i == p.hash then x else p.table i }

-- A byte that was guessed moves the hash; another is stored first.
unfoldable pub learn : ℕ → Predictor → Predictor
unfolding guess advance store
learn x p = if guess p == x then advance x p else advance x (store x p)

-- What the inner loop of `Compress` has done: the flags, the bytes put out, the source and the
-- predictor afterwards.
pub record Packed : Type 0 where
  pub flags : ℕ
  pub out : List ℕ
  pub rest : List ℕ
  pub state : Predictor

-- A byte that was guessed sets its flag; another is put out. The flag stands before those after it.
abbrev pub flagged : Bool → ℕ → Packed → Packed
flagged true x g = record g { flags = 1 + 2 * g.flags }
flagged false x g = record g { flags = 2 * g.flags; out = x ∷ g.out }

-- The inner loop of `Compress`, with some of its 8 slots left.
unfoldable pub pack : ℕ → List ℕ → Predictor → Packed
unfolding learn
pack zero source p = record { flags = 0; out = []; rest = source; state = p }
pack (suc slots) [] p = record { flags = 0; out = []; rest = []; state = p }
pack (suc slots) (x ∷ source) p = flagged (guess p == x) x (pack slots source (learn x p))

-- The outer loop of `Compress`, on fuel: each round takes a byte of the source at least.
unfoldable pub pack_all : ℕ → List ℕ → Predictor → List ℕ × Predictor
unfolding pack
pack_all zero source p = ([], p)
pack_all (suc fuel) [] p = ([], p)
pack_all (suc fuel) (x ∷ source) p =
    let g = pack 8 (x ∷ source) p in
    let (out, q) = pack_all fuel g.rest g.state in (g.flags ∷ g.out ++ out, q)

-- `Compress`.
unfoldable pub compress : List ℕ → Predictor → List ℕ × Predictor
unfolding pack_all
compress source p = pack_all (length source) source p

-- What the inner loop of `Decompress` has done: the bytes put out, the source, the room in the
-- destination and the predictor afterwards.
pub record Unpacked : Type 0 where
  pub out : List ℕ
  pub rest : List ℕ
  pub room : ℕ
  pub state : Predictor

-- The byte in front of what the later slots put out; -1 stays -1.
abbrev pub behind : ℕ → Option Unpacked → Option Unpacked
behind x none = none
behind x (some g) = some (record g { out = x ∷ g.out })

-- The inner loop of `Decompress`, with some of its 8 slots left and the flags shifted that far. A
-- miss with no source left ends it.
unfoldable pub unpack : ℕ → ℕ → List ℕ → ℕ → Predictor → Option Unpacked
unfolding guess advance store
unpack zero flags source room p = some (record { out = []; rest = source; room = room; state = p })
unpack (suc slots) flags source zero p = none
unpack (suc slots) flags [] (suc room) p =
    let hit = unpack slots (flags / 2) [] room (advance (guess p) p) in
    if flags % 2 == 1
    then behind (guess p) hit
    else some (record { out = []; rest = []; room = suc room; state = p })
unpack (suc slots) flags (x ∷ source) (suc room) p =
    let hit = unpack slots (flags / 2) (x ∷ source) room (advance (guess p) p) in
    let miss = unpack slots (flags / 2) source room (advance x (store x p)) in
    if flags % 2 == 1 then behind (guess p) hit else behind x miss

abbrev pub in_front : List ℕ → Option (List ℕ × Predictor) → Option (List ℕ × Predictor)
in_front out none = none
in_front out (some (more, p)) = some (out ++ more, p)

abbrev pub next_group :
    Option Unpacked → (Unpacked → Option (List ℕ × Predictor)) → Option (List ℕ × Predictor)
next_group none more = none
next_group (some g) more = in_front g.out (more g)

-- The outer loop of `Decompress`, on fuel: each round takes the flags from the source.
unfoldable pub unpack_all : ℕ → List ℕ → ℕ → Predictor → Option (List ℕ × Predictor)
unfolding unpack
unpack_all fuel [] room p = some ([], p)
unpack_all zero (flags ∷ source) room p = none
unpack_all (suc fuel) (flags ∷ source) room p =
    next_group (unpack 8 flags source room p) (λ g. unpack_all fuel g.rest g.room g.state)

-- `Decompress`; `none` is -1.
unfoldable pub decompress : List ℕ → ℕ → Predictor → Option (List ℕ × Predictor)
unfolding unpack_all
decompress source room p = unpack_all (length source) source room p

-- `SyncTable`, on the predictor; the bytes are copied as they are.
unfoldable pub sync_table : List ℕ → Predictor → Predictor
unfolding learn
sync_table [] p = p
sync_table (x ∷ source) p = sync_table source (learn x p)

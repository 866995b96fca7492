-- ===== src/Fsm/Options/Extract.antt =====
-- `FsmExtractOptions` of src/fsm.c on any bytes at all, and the room in the reply buffers.
use mpdx.Common.{
  ℕ, zero, suc, ◌+◌, ◌-◌, ◌≤◌, false, ◌||◌, List, [], ◌∷◌, ◌++◌, ◌≡◌, refl, ap, ◌∙◌, arith, length,
  take, drop, length-append, length-take, take-append-drop, ltb, Bool-cases, inl, inr,
}
use mathlib.Core.List.{append_assoc}
use mpdx.Fsm.Types.{FsmOption, Buffers}
use mpdx.Fsm.Options.{
  extract_options, option_bytes, buffer_size, add_option, fsm_ack, fsm_nak, fsm_rej,
}
use mpdx.Fsm.Options.RoundTrip.{IsExact, AllExact, encode_options}

-- What is known of an extraction of `bytes` with room for `max` options.
pub record IsExtraction (max : ℕ) (bytes : List ℕ) (result : List FsmOption × List ℕ) : Type 0 where
  pub lossless : encode_options result.0 ++ result.1 ≡ bytes
  pub exact : AllExact result.0
  pub bounded : length result.0 ≤ max

stops : (max : ℕ) (bytes : List ℕ) → IsExtraction max bytes ([], bytes)
unfolding encode_options
stops max bytes = record { lossless = refl; exact = tt; bounded = omega arith }

refused_len :
    (len : ℕ) (rest : List ℕ)
    → (ltb len 2 || ltb (length rest + 2) len) ≡ false
    → (2 ≤ len) × (len ≤ length rest + 2)
refused_len len rest h = ground arith

continues :
    (max type len : ℕ) (rest : List ℕ) (r : List FsmOption × List ℕ)
    → (2 ≤ len) × (len ≤ length rest + 2)
    → IsExtraction max (drop (len - 2) rest) r
    → IsExtraction
        (suc max)
        (type ∷ len ∷ rest)
        (record { type = type; len = len; bytes = take (len - 2) rest } ∷ r.0, r.1)
unfolding encode_options
continues max type len rest r fits h = record {
  lossless =
      ap (λ t. type ∷ len ∷ t)
        (append_assoc (take (len - 2) rest) (encode_options r.0) r.1
          ∙ ap (λ t. take (len - 2) rest ++ t) h.lossless
          ∙ take-append-drop (len - 2) rest);
  exact = (omega (arith, length-take {0} (len - 2) rest), h.exact);
  bounded = omega (arith, h.bounded);
}

-- The options taken and the bytes left are, put together, the bytes given; each option's length byte
-- counts its bytes, so none reaches past the packet; and there are at most `max`.
pub extract-IsExtraction :
    (max : ℕ) (bytes : List ℕ) → IsExtraction max bytes (extract_options max bytes)
unfolding extract_options
extract-IsExtraction zero bytes = stops 0 bytes
extract-IsExtraction (suc max) [] = stops (suc max) []
extract-IsExtraction (suc max) (type ∷ []) = stops (suc max) (type ∷ [])
extract-IsExtraction (suc max) (type ∷ len ∷ rest) =
    elim (Bool-cases (ltb len 2 || ltb (length rest + 2) len)) [
      | inl e ↦ rw e (stops (suc max) (type ∷ len ∷ rest))
      | inr e ↦ rw e (
          continues max type len rest (extract_options max (drop (len - 2) rest))
            (refused_len len rest e) (extract-IsExtraction max (drop (len - 2) rest)))
    ]

-- The buffers hold at most their size.
pub record IsRoomy (b : Buffers) : Type 0 where
  pub acks_fit : length b.acks ≤ buffer_size
  pub naks_fit : length b.naks ≤ buffer_size
  pub rejs_fit : length b.rejs ≤ buffer_size

add_option-le :
    (o : FsmOption) (buf : List ℕ)
    → IsExact o
    → length buf ≤ buffer_size
    → length (add_option o buf) ≤ buffer_size
unfolding fsm_ack
add_option-le o buf e h = ground (arith, length-append {0} buf (option_bytes o))

-- With buffers that hold at most their size, an acknowledged, refused or rejected option with a
-- right length byte does not overrun its buffer, and leaves the buffer after it in the order of
-- acknowledged, refused, rejected alone.
pub add-IsRoomy :
    (o : FsmOption) (b : Buffers)
    → IsExact o
    → IsRoomy b
    → IsRoomy (fsm_ack o b)
      × IsRoomy (fsm_nak o b)
      × IsRoomy (fsm_rej o b)
      × ((fsm_ack o b).naks ≡ b.naks)
      × ((fsm_nak o b).rejs ≡ b.rejs)
      × ((fsm_rej o b).acks ≡ b.acks)
unfolding fsm_ack fsm_nak fsm_rej
add-IsRoomy o b e h = (
  record {
    acks_fit = add_option-le o b.acks e h.acks_fit;
    naks_fit = h.naks_fit;
    rejs_fit = h.rejs_fit;
  },
  record {
    acks_fit = h.acks_fit;
    naks_fit = add_option-le o b.naks e h.naks_fit;
    rejs_fit = h.rejs_fit;
  },
  record {
    acks_fit = h.acks_fit;
    naks_fit = h.naks_fit;
    rejs_fit = add_option-le o b.rejs e h.rejs_fit;
  },
  refl,
  refl,
  refl,
)

-- ===== src/Fsm/Options/RoundTrip.antt =====
-- `FsmConfValue` of src/fsm.c against `FsmExtractOptions`.
use mpdx.Common.{
  ℕ, zero, suc, ◌+◌, ◌-◌, ◌≤◌, false, ◌||◌, List, [], ◌∷◌, ◌++◌, ◌≡◌, refl, ap, ◌∙◌, arith, length,
  length-append, take-append, drop-append, ltb, u8,
}
use mpdx.Fsm.Types.{FsmOption}
use mpdx.Fsm.Options.{ConfData, conf_bytes, conf_value, extract_options, option_bytes}

-- An option whose length byte is right.
abbrev pub IsExact : FsmOption → Type 0
IsExact o = o.len ≡ length o.bytes + 2

abbrev pub AllExact : List FsmOption → Type 0
AllExact [] = Unit {0}
AllExact (o ∷ os) = IsExact o × AllExact os

unfoldable pub encode_options : List FsmOption → List ℕ
encode_options [] = []
encode_options (o ∷ os) = option_bytes o ++ encode_options os

-- A request as the layers write it, option after option.
unfoldable pub write_options : List (ℕ × ConfData) → List ℕ
write_options [] = []
write_options ((type, v) ∷ items) = conf_value type v ++ write_options items

unfoldable pub as_options : List (ℕ × ConfData) → List FsmOption
as_options [] = []
as_options ((type, v) ∷ items) =
    record { type = u8 type; len = u8 (length (conf_bytes v) + 2); bytes = conf_bytes v }
    ∷ as_options items

-- Values that fit the length byte.
abbrev pub AllFit : List (ℕ × ConfData) → Type 0
AllFit [] = Unit {0}
AllFit ((type, v) ∷ items) = (length (conf_bytes v) ≤ 253) × AllFit items

accepts :
    (len : ℕ) (rest : List ℕ)
    → 2 ≤ len
    → len ≤ length rest + 2
    → (ltb len 2 || ltb (length rest + 2) len) ≡ false
accepts len rest h k = ground arith

pub extract-encode :
    (max : ℕ) (os : List FsmOption)
    → AllExact os
    → length os ≤ max
    → extract_options max (encode_options os) ≡ (os, [])
unfolding extract_options encode_options
extract-encode zero [] h k = refl
extract-encode (suc max) [] h k = refl
extract-encode zero (o ∷ os) h k = absurd (omega arith)
extract-encode (suc max) (o ∷ os) (e, h) k =
    let rest = o.bytes ++ encode_options os in
    let size : o.len - 2 ≡ length o.bytes = omega arith in
    rw
      (
        accepts o.len rest (omega arith)
            (omega (arith, length-append {0} o.bytes (encode_options os))),
        take-append o.bytes (encode_options os) (o.len - 2) size,
        drop-append o.bytes (encode_options os) (o.len - 2) size,
        extract-encode max os h (omega arith),
      )
      refl

write-encode :
    (items : List (ℕ × ConfData)) → write_options items ≡ encode_options (as_options items)
unfolding write_options encode_options as_options conf_value
write-encode [] = refl
write-encode ((type, v) ∷ items) =
    ap (λ t. u8 type ∷ u8 (length (conf_bytes v) + 2) ∷ conf_bytes v ++ t) (write-encode items)

as_options-AllExact : (items : List (ℕ × ConfData)) → AllFit items → AllExact (as_options items)
unfolding as_options
as_options-AllExact [] h = tt
as_options-AllExact ((type, v) ∷ items) (h, k) = (omega arith, as_options-AllExact items k)

length-as_options : (items : List (ℕ × ConfData)) → length (as_options items) ≡ length items
unfolding as_options
length-as_options [] = refl
length-as_options (i ∷ items) = ap suc (length-as_options items)

-- Options written by `FsmConfValue`, each with at most 253 bytes of data and no more than `max` in
-- number, are read back by `FsmExtractOptions` one by one with nothing left over.
pub extract-write :
    (max : ℕ) (items : List (ℕ × ConfData))
    → AllFit items
    → length items ≤ max
    → extract_options max (write_options items) ≡ (as_options items, [])
extract-write max items h k =
    ap (extract_options max) (write-encode items)
    ∙ extract-encode max (as_options items) (as_options-AllExact items h)
        (omega (arith, length-as_options items))

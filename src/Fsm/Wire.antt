-- ===== src/Fsm/Wire.antt =====
-- Control packets on the wire: `FsmOutput` of src/fsm.c against `FsmInput`, and unknown codes.
use mpdx.Common.{
  ℕ, ◌+◌, ◌-◌, ◌*◌, ◌/◌, ◌%◌, ◌≤◌, ◌<◌, Bool, true, false, ◌||◌, Option, none, some, List, ◌∷◌,
  ◌++◌, ◌≡◌, refl, ◌⊎◌, inl, inr, ap, ◌∙◌, arith, length, length-append, take-append, ltb, u8,
  get_elem?,
}
use mpdx.Fsm.Types.{Code, frame, FsmType, Machine}
use mpdx.Fsm.Core.{code_number, packet, fsm_output}
use mpdx.Fsm.Input.{
  Packet, fsm_codes, is_known, read_packet, handle, reject_code, dispatch_known, input_packet,
  dispatch, fsm_input,
}

accepts :
    (body padding : List ℕ)
    → (ltb (length body + 4) 4 || ltb (length (body ++ padding) + 4) (length body + 4)) ≡ false
accepts body padding = ground (arith, length-append {0} body padding)

-- A packet that was written with a code and an identifier of one byte and a body of less than 65532
-- bytes, followed by any padding, reads back as its code, identifier and body.
pub read-packet :
    (code id : ℕ) (body padding : List ℕ)
    → code < 256
    → id < 256
    → length body + 4 < 65536
    → read_packet (packet code id body ++ padding)
      ≡ some (record { code = code; id = id; body = body })
unfolding read_packet packet
read-packet code id body padding hc hi h =
    let size : (length body + 4) / 256 % 256 * 256 + (length body + 4) % 256 ≡ length body + 4 =
      omega arith in
    let low_code : code % 256 ≡ code = omega arith in
    let low_id : id % 256 ≡ id = omega arith in
    rw
      (
        size,
        accepts body padding,
        take-append body padding (length body + 4 - 4) (omega arith),
        low_code,
        low_id,
      )
      refl

-- The code that a number stands for in the table, and the number of that code.
code_number-fsm_codes : (c : Code) → get_elem? fsm_codes (code_number c) ≡ some c
unfolding code_number
code_number-fsm_codes c = ground arith

code_number-lt : (c : Code) → code_number c < 256
unfolding code_number
code_number-lt c = ground arith

past_codes : (n : ℕ) → 16 ≤ n → get_elem? fsm_codes n ≡ none
past_codes n h = ground arith

module _ {C : Type 0} (ty : FsmType C) where
  -- A packet whose code the protocol accepts reaches the handler of the code: what a peer writes with
  -- `FsmOutput`, with an identifier of one byte and a body of less than 65532 bytes, followed by any
  -- padding, is handled with the same identifier and body.
  pub input-packet :
      (c : Code) (id : ℕ) (body padding : List ℕ) (m : Machine C)
      → id < 256
      → length body + 4 < 65536
      → is_known ty.known_codes (code_number c) ≡ true
      → fsm_input ty (packet (code_number c) id body ++ padding) m ≡ handle ty c id body m
  unfolding fsm_input dispatch
  input-packet c id body padding m hi h k =
      let p : Packet = record { code = code_number c; id = id; body = body } in
      ap (λ q. input_packet ty q m)
        (read-packet (code_number c) id body padding (code_number-lt c) hi h)
      ∙ ap (λ b. dispatch_known ty b (get_elem? fsm_codes (code_number c)) p m) k
      ∙ ap (λ o. dispatch_known ty true o p m) (code_number-fsm_codes c)

  without :
      (code : ℕ)
      → (is_known ty.known_codes code ≡ false) ⊎ (16 ≤ code)
      → (is_known ty.known_codes code ≡ false) ⊎ (get_elem? fsm_codes code ≡ none)
  without code (inl h) = inl h
  without code (inr h) = inr (past_codes code h)

  rejected :
      (body : List ℕ) (m : Machine C)
      → reject_code ty body m ≡ record m {
        rejid = u8 (m.rejid + 1);
        actions = frame ty.link_layer ty.proto (packet 7 m.rejid body) ∷ m.actions;
      }
  unfolding reject_code fsm_output code_number
  rejected body m = refl

  dispatch_unknown :
      (known : Bool) (o : Option Code) (p : Packet) (m : Machine C)
      → (known ≡ false) ⊎ (o ≡ none)
      → dispatch_known ty known o p m ≡ reject_code ty p.body m
  dispatch_unknown false o p m h = refl
  dispatch_unknown true none p m h = refl
  dispatch_unknown true (some c) p m h = absurd (ground arith)

  -- A packet of less than 65536 bytes whose code is beyond the table, or which the protocol does not
  -- accept, is answered by one Code-Reject that carries its body under the next reject identifier;
  -- nothing else changes.
  pub input_unknown :
      (code id : ℕ) (body padding : List ℕ) (m : Machine C)
      → code < 256
      → id < 256
      → length body + 4 < 65536
      → (is_known ty.known_codes code ≡ false) ⊎ (16 ≤ code)
      → fsm_input ty (packet code id body ++ padding) m ≡ record m {
        rejid = u8 (m.rejid + 1);
        actions = frame ty.link_layer ty.proto (packet 7 m.rejid body) ∷ m.actions;
      }
  unfolding fsm_input dispatch
  input_unknown code id body padding m hc hi h u =
      let p : Packet = record { code = code; id = id; body = body } in
      ap (λ q. input_packet ty q m) (read-packet code id body padding hc hi h)
      ∙ dispatch_unknown (is_known ty.known_codes code) (get_elem? fsm_codes code) p m
          (without code u)
      ∙ rejected body m

-- ===== src/Fsm/Input.antt =====
-- src/fsm.c: `FsmInput`, which checks a packet's header and hands it to the handler of its code.
use mpdx.Common.{
  ℕ, ◌+◌, ◌-◌, ◌*◌, ◌/◌, ◌%◌, ◌^◌, Bool, Option, none, some, List, [], ◌∷◌, ◌||◌, length, take,
  get_elem?, ltb, ◌==◌, if◌then◌else◌, u8,
}
use mpdx.Fsm.Types.{
  Code, vendor, config_req, config_ack, config_nak, config_rej, term_req, term_ack, code_rej,
  proto_rej, echo_req, echo_rep, disc_req, ident, time_rem, reset_req, reset_ack, FsmType, Op,
}
use mpdx.Fsm.Core.{code_number, fsm_output}
use mpdx.Fsm.Receive.{
  recv_config_req, recv_config_ack, recv_config_nak, recv_config_rej, recv_term_req, recv_term_ack,
}
use mpdx.Fsm.Link.{
  recv_echo_req, recv_echo_rep, recv_disc_req, recv_ident, recv_time_remain, recv_vendor,
  recv_reset_req, recv_reset_ack, recv_code_rej, recv_proto_rej,
}

-- The rows of the table `FsmCodes`.
abbrev pub fsm_codes : List Code
fsm_codes =
    vendor ∷ config_req ∷ config_ack ∷ config_nak ∷ config_rej ∷ term_req ∷ term_ack ∷ code_rej
    ∷ proto_rej ∷ echo_req ∷ echo_rep ∷ disc_req ∷ ident ∷ time_rem ∷ reset_req ∷ reset_ack ∷ []

-- `struct fsmheader` and the payload without padding.
pub record Packet : Type 0 where
  pub code : ℕ
  pub id : ℕ
  pub body : List ℕ

-- Runts and packets whose length field is senseless are discarded.
unfoldable pub read_packet : List ℕ → Option Packet
read_packet (code ∷ id ∷ hi ∷ lo ∷ rest) =
    let size = hi * 256 + lo in
    if ltb size 4 || ltb (length rest + 4) size
    then none
    else some (record { code = code; id = id; body = take (size - 4) rest })
read_packet _ = none

-- `(1 << code) & known_codes`.
abbrev pub is_known : ℕ → ℕ → Bool
is_known known code = known / 2 ^ code % 2 == 1

module _ {C : Type 0} (ty : FsmType C) where
  -- The handlers of `FsmCodes`.
  unfoldable pub handle : Code → ℕ → List ℕ → Op C
  handle vendor id body = recv_vendor ty body
  handle config_req id body = recv_config_req ty id body
  handle config_ack id body = recv_config_ack ty id body
  handle config_nak id body = recv_config_nak ty id body
  handle config_rej id body = recv_config_rej ty id body
  handle term_req id body = recv_term_req ty
  handle term_ack id body = recv_term_ack ty
  handle code_rej id body = recv_code_rej ty body
  handle proto_rej id body = recv_proto_rej ty body
  handle echo_req id body = recv_echo_req ty id body
  handle echo_rep id body = recv_echo_rep ty body
  handle disc_req id body = recv_disc_req ty body
  handle ident id body = recv_ident ty body
  handle time_rem id body = recv_time_remain ty body
  handle reset_req id body = recv_reset_req ty id body
  handle reset_ack id body = recv_reset_ack ty id body

  -- An unknown code is answered by a Code-Reject with the payload.
  unfoldable pub reject_code : List ℕ → Op C
  reject_code body m =
      let sent = fsm_output ty (code_number code_rej) m.rejid body m in
      record sent { rejid = u8 (m.rejid + 1) }

  abbrev pub dispatch_known : Bool → Option Code → Packet → Op C
  dispatch_known Bool.true (some c) p = handle c p.id p.body
  dispatch_known _ _ p = reject_code p.body

  unfoldable pub dispatch : Packet → Op C
  dispatch p = dispatch_known (is_known ty.known_codes p.code) (get_elem? fsm_codes p.code) p

  abbrev pub input_packet : Option Packet → Op C
  input_packet none m = m
  input_packet (some p) m = dispatch p m

  -- `FsmInput`.
  unfoldable pub fsm_input : List ℕ → Op C
  fsm_input bytes = input_packet (read_packet bytes)

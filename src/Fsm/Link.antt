-- ===== src/Fsm/Link.antt =====
-- src/fsm.c: the packets of an opened link: echoes, identification, time remaining, rejects, resets
-- and the keep-alive timer.
use mpdx.Common.{
  ℕ, ◌+◌, ◌/◌, ◌%◌, Bool, false, not, ◌&&◌, ◌||◌, Option, none, some, List, [], ◌∷◌, ◌++◌, length,
  take, drop, ◌==◌, ltb, leb, if◌then◌else◌, u8, u16, be32, from_be, mul_ge16,
}
use mpdx.Fsm.Types.{
  State, ack_rcvd, opened, req_sent, echo_req, echo_rep, ident, time_rem, recd_badmagic,
  recd_coderej, recd_protrej, echo_timedout, FsmType, Machine, Op, ◌>>◌,
}
use mpdx.Fsm.Core.{code_number, is_opened, stop_echo_timer, new_state, fsm_output}
use mpdx.Fsm.Events.{fsm_failure}

-- `PROT_LINK_LAYER`.
abbrev pub is_link_layer_proto : ℕ → Bool
is_link_layer_proto proto = (proto % 65536 / 16384) == 3

abbrev pub with_bytes : {C : Type 0} → Option (List ℕ → C → C) → List ℕ → Op C
with_bytes none body m = m
with_bytes (some h) body m = record m { layer = h body m.layer }

abbrev pub with_id : {C : Type 0} → Option (ℕ → List ℕ → C → C) → ℕ → List ℕ → Op C
with_id none id body m = m
with_id (some h) id body m = record m { layer = h id body m.layer }

-- `mbread` into a variable whose bytes were `old`: a short body leaves the last of them.
unfoldable pub read_over : List ℕ → List ℕ → List ℕ
read_over old body = take (length old) body ++ drop (length body) old

-- The codes whose rejection is fatal where the layer has no `RecvCodeRej`.
unfoldable pub is_fatal_code : ℕ → Bool
is_fatal_code code = ltb 0 code && leb code 10 || code == 14 || code == 15

module _ {C : Type 0} (ty : FsmType C) where
  -- `FsmSendEchoReq`.
  unfoldable pub send_echo_req : List ℕ → Op C
  send_echo_req payload m =
      if is_opened m.state
      then (let sent =
            fsm_output ty (code_number echo_req) m.echoid (be32 (ty.want_magic m.layer) ++ payload)
              m in
          record sent { echoid = u8 (m.echoid + 1) })
      else m

  -- The magic number that goes out before the machine is opened is zero.
  abbrev self_magic : Machine C → ℕ
  self_magic m = if is_opened m.state then ty.want_magic m.layer else 0

  -- `FsmSendIdent`, whose text goes out with its NUL.
  unfoldable pub send_ident : List ℕ → Op C
  send_ident text m =
      let sent =
        fsm_output ty (code_number ident) m.echoid (be32 (self_magic m) ++ text ++ (0 ∷ [])) m in
      record sent { echoid = u8 (m.echoid + 1) }

  -- `FsmSendTimeRemaining`.
  unfoldable pub send_time_remaining : ℕ → Op C
  send_time_remaining remain m =
      let sent =
        fsm_output ty (code_number time_rem) m.echoid (be32 (self_magic m) ++ be32 remain) m in
      record sent { echoid = u8 (m.echoid + 1) }

  abbrev expected_magic : C → ℕ
  expected_magic c = if is_link_layer_proto ty.proto then ty.peer_magic c else 0

  -- Whether the four bytes read over what the stack holds are a wrong magic number.
  pub is_bad_magic : List ℕ → Machine C → Bool
  unfolding read_over
  is_bad_magic body m =
      let magic = from_be 0 (read_over (ty.stack m.layer) body) in
      m.conf.check_magic && not (magic == 0) && not (magic == expected_magic m.layer)

  -- `FsmCheckMagic`; the packet that it returns is `drop 4 body`.
  unfoldable pub check_magic : List ℕ → Op C
  check_magic body m = if is_bad_magic body m then fsm_failure ty recd_badmagic m else m

  -- `FsmRecvEchoReq`: the reply carries our magic number and the rest of the request.
  unfoldable pub recv_echo_req : ℕ → List ℕ → Op C
  unfolding check_magic
  recv_echo_req id body m =
      let checked = check_magic body m in
      if is_opened checked.state
      then fsm_output ty (code_number echo_rep) id
          (be32 (ty.want_magic checked.layer) ++ drop 4 body) checked
      else checked

  -- `FsmRecvEchoRep`.
  unfoldable pub recv_echo_rep : List ℕ → Op C
  unfolding check_magic
  recv_echo_rep body = check_magic body

  -- `FsmRecvDiscReq`, `FsmRecvIdent`, `FsmRecvTimeRemain`, `FsmRecvVendor`.
  unfoldable pub recv_disc_req : List ℕ → Op C
  unfolding check_magic
  recv_disc_req body = do check_magic body; with_bytes ty.on_disc_req (drop 4 body)

  unfoldable pub recv_ident : List ℕ → Op C
  unfolding check_magic
  recv_ident body = do check_magic body; with_bytes ty.on_ident (drop 4 body)

  unfoldable pub recv_time_remain : List ℕ → Op C
  unfolding check_magic
  recv_time_remain body = do check_magic body; with_bytes ty.on_time_remain (drop 4 body)

  unfoldable pub recv_vendor : List ℕ → Op C
  unfolding check_magic
  recv_vendor body = do check_magic body; with_bytes ty.on_vendor (drop 4 body)

  -- `FsmRecvResetReq`, `FsmRecvResetAck`.
  unfoldable pub recv_reset_req : ℕ → List ℕ → Op C
  recv_reset_req id body = with_id ty.on_reset_req id body

  unfoldable pub recv_reset_ack : ℕ → List ℕ → Op C
  recv_reset_ack id body = with_id ty.on_reset_ack id body

  pub rxj_plus_in : State → Op C
  rxj_plus_in ack_rcvd = new_state ty req_sent
  rxj_plus_in _ = λ m. m

  -- `FsmRecvRxjPlus`.
  unfoldable pub recv_rxj_plus : Op C
  unfolding rxj_plus_in
  recv_rxj_plus m = rxj_plus_in m.state m

  -- Whether a Code-Reject is fatal, and the layer after it was asked.
  unfoldable pub code_rej_verdict : List ℕ → C → Bool × C
  code_rej_verdict body c =
      let code = from_be 0 (read_over (0 ∷ []) body) in
      elim ty.on_code_rej [ none ↦ (is_fatal_code code, c) | some h ↦ h code (drop 1 body) c ]

  -- `FsmRecvCodeRej`.
  unfoldable pub recv_code_rej : List ℕ → Op C
  unfolding recv_rxj_plus
  recv_code_rej body m =
      let (fatal, layer) = code_rej_verdict body m.layer in
      let asked = record m { layer = layer } in
      if fatal then fsm_failure ty recd_coderej asked else recv_rxj_plus asked

  -- Whether a Protocol-Reject is fatal: only an opened layer is asked.
  unfoldable pub proto_rej_verdict : State → List ℕ → C → Bool × C
  proto_rej_verdict opened body c =
      let proto = from_be 0 (read_over (0 ∷ 0 ∷ []) body) in
      elim ty.on_proto_rej [ none ↦ (false, c) | some h ↦ h proto (drop 2 body) c ]
  proto_rej_verdict _ body c = (false, c)

  -- `FsmRecvProtoRej`.
  unfoldable pub recv_proto_rej : List ℕ → Op C
  unfolding recv_rxj_plus
  recv_proto_rej body m =
      let (fatal, layer) = proto_rej_verdict m.state body m.layer in
      let asked = record m { layer = layer } in
      if fatal then fsm_failure ty recd_protrej asked else recv_rxj_plus asked

  -- The switch over `quietCount`, a `short`, after it was updated.
  pub keep_alive : Op C
  unfolding send_echo_req
  keep_alive m =
      if m.quiet_count == 0
      then m
      else if m.quiet_count == 1
      then send_echo_req [] m
      else if mul_ge16 m.quiet_count m.conf.echo_int m.conf.echo_max
      then fsm_failure ty echo_timedout (stop_echo_timer m)
      else send_echo_req [] m

  -- `FsmEchoTimeout`; `frames` is the number of frames received that the PPP node reports.
  unfoldable pub echo_timeout : ℕ → Op C
  unfolding keep_alive
  echo_timeout frames m =
      let quiet = if ltb m.idle_frames frames then 0 else u16 (m.quiet_count + 1) in
      if ty.has_bundle m.layer
      then keep_alive (record m { quiet_count = quiet; idle_frames = frames })
      else m

-- ===== src/Fsm/Carry/Step.antt =====
-- The packets of an opened link and whole runs of the machine, on a layer that keeps something in step
-- with the state.
use mpdx.Common.{
  ℕ, ◌+◌, Bool, true, false, Option, none, some, List, [], ◌∷◌, refl, ◌==◌, if◌then◌else◌,
  get_elem?, drop, ltb, u16, mul_ge16, from_be,
}
use mpdx.Timer.{Registered, once}
use mpdx.Fsm.Types.{
  State, req_sent, ack_rcvd, opened, recd_badmagic, recd_coderej, recd_protrej, echo_timedout, Code,
  vendor, config_req, config_ack, config_nak, config_rej, term_req, term_ack, code_rej, proto_rej,
  echo_req, echo_rep, disc_req, ident, time_rem, reset_req, reset_ack, FsmType, Machine,
}
use mpdx.Fsm.Core.{fsm_output, is_opened, stop_echo_timer}
use mpdx.Fsm.Link.{
  with_bytes, with_id, read_over, is_fatal_code, send_echo_req, send_ident, send_time_remaining,
  is_bad_magic, check_magic, recv_echo_req, recv_echo_rep, recv_disc_req, recv_ident,
  recv_time_remain, recv_vendor, recv_reset_req, recv_reset_ack, rxj_plus_in, recv_rxj_plus,
  code_rej_verdict, recv_code_rej, proto_rej_verdict, recv_proto_rej, keep_alive, echo_timeout,
}
use mpdx.Fsm.Input.{
  Packet, is_known, fsm_codes, read_packet, handle, reject_code, dispatch_known, input_packet,
  dispatch, fsm_input,
}
use mpdx.Fsm.Step.{
  Event, opens, closes, ups, downs, expires, fails, echoes, idents, times, arrives, expire, step,
}
use mpdx.Fsm.Carry.{may_move, KeptOn, KeptOn2, KeptVerdict, Carries, At, InStep}
use mpdx.Fsm.Carry.Core.{At-new_state}
use mpdx.Fsm.Carry.Events.{
  InStep-At, At-InStep, InStep-if, InStep-fsm_open, InStep-fsm_up, InStep-fsm_down,
  InStep-fsm_close, InStep-fsm_failure, InStep-fsm_timeout,
}
use mpdx.Fsm.Carry.Receive.{
  InStep-recv_config_req, InStep-recv_config_ack, InStep-recv_config_nak, InStep-recv_config_rej,
  InStep-recv_term_req, InStep-recv_term_ack,
}

module _ {C : Type 0} (ty : FsmType C) {P : State → C → Type 0} (k : Carries ty P) where
  InStep-with_bytes :
      (h : Option (List ℕ → C → C)) (body : List ℕ) (m : Machine C)
      → KeptOn P h
      → InStep P m
      → InStep P (with_bytes h body m)
  InStep-with_bytes none body m q i = i
  InStep-with_bytes (some h) body m q i = record { kept = q body m.state m.layer i.kept }

  InStep-with_id :
      (h : Option (ℕ → List ℕ → C → C)) (id : ℕ) (body : List ℕ) (m : Machine C)
      → KeptOn2 P h
      → InStep P m
      → InStep P (with_id h id body m)
  InStep-with_id none id body m q i = i
  InStep-with_id (some h) id body m q i = record { kept = q id body m.state m.layer i.kept }

  InStep-check_magic :
      (body : List ℕ) (m : Machine C) → InStep P m → InStep P (check_magic ty body m)
  unfolding check_magic
  InStep-check_magic body m i =
      InStep-if (is_bad_magic ty body m) (InStep-fsm_failure ty k recd_badmagic m i) i

  InStep-recv_echo_req :
      (id : ℕ) (body : List ℕ) (m : Machine C) → InStep P m → InStep P (recv_echo_req ty id body m)
  unfolding recv_echo_req fsm_output
  InStep-recv_echo_req id body m i =
      let c = InStep-check_magic body m i in
      InStep-if (is_opened (check_magic ty body m).state) (record { kept = c.kept }) c

  InStep-send_echo_req :
      (payload : List ℕ) (m : Machine C) → InStep P m → InStep P (send_echo_req ty payload m)
  unfolding send_echo_req fsm_output
  InStep-send_echo_req payload m i = InStep-if (is_opened m.state) (record { kept = i.kept }) i

  InStep-rxj_plus_in : (s : State) (m : Machine C) → At P s m → InStep P (rxj_plus_in ty s m)
  unfolding recv_rxj_plus may_move
  InStep-rxj_plus_in ack_rcvd m a = InStep-At (At-new_state ty k req_sent a refl)
  InStep-rxj_plus_in _ m a = InStep-At a

  InStep-recv_rxj_plus : (m : Machine C) → InStep P m → InStep P (recv_rxj_plus ty m)
  unfolding recv_rxj_plus
  InStep-recv_rxj_plus m i = InStep-rxj_plus_in m.state m (At-InStep i)

  InStep-rejected :
      (fatal : Bool) (m n : Machine C)
      → InStep P m
      → InStep P n
      → InStep P (if fatal then m else recv_rxj_plus ty n)
  InStep-rejected fatal m n i j = InStep-if fatal i (InStep-recv_rxj_plus n j)

  kept_code_rej : (body : List ℕ) (s : State) (c : C) → P s c → P s (code_rej_verdict ty body c).1
  unfolding code_rej_verdict
  kept_code_rej body s c p = asked ty.on_code_rej k.code_rej
    where
      asked :
          (h : Option (ℕ → List ℕ → C → Bool × C))
          → KeptVerdict P h
          → let code = from_be 0 (read_over (0 ∷ []) body) in
            let r : Bool × C = elim h [
              | none ↦ (is_fatal_code code, c)
              | some f ↦ f code (drop 1 body) c
            ] in
            P s r.1
      asked none q = p
      asked (some f) q = q _ _ s c p

  InStep-recv_code_rej :
      (body : List ℕ) (m : Machine C) → InStep P m → InStep P (recv_code_rej ty body m)
  unfolding recv_code_rej
  InStep-recv_code_rej body m i =
      let n : Machine C = record m { layer = (code_rej_verdict ty body m.layer).1 } in
      let j : InStep P n = record { kept = kept_code_rej body m.state m.layer i.kept } in
      InStep-rejected (code_rej_verdict ty body m.layer).0 _ n
        (InStep-fsm_failure ty k recd_coderej n j) j

  kept_proto_rej :
      (s : State) (body : List ℕ) (c : C) → P s c → P s (proto_rej_verdict ty s body c).1
  unfolding proto_rej_verdict
  kept_proto_rej opened body c p = asked ty.on_proto_rej k.proto_rej
    where
      asked :
          (h : Option (ℕ → List ℕ → C → Bool × C))
          → KeptVerdict P h
          → let proto = from_be 0 (read_over (0 ∷ 0 ∷ []) body) in
            let r : Bool × C = elim h [ none ↦ (false, c) | some f ↦ f proto (drop 2 body) c ] in
            P opened r.1
      asked none q = p
      asked (some f) q = q _ _ opened c p
  kept_proto_rej _ body c p = p

  InStep-recv_proto_rej :
      (body : List ℕ) (m : Machine C) → InStep P m → InStep P (recv_proto_rej ty body m)
  unfolding recv_proto_rej
  InStep-recv_proto_rej body m i =
      let n : Machine C = record m { layer = (proto_rej_verdict ty m.state body m.layer).1 } in
      let j : InStep P n = record { kept = kept_proto_rej m.state body m.layer i.kept } in
      InStep-rejected (proto_rej_verdict ty m.state body m.layer).0 _ n
        (InStep-fsm_failure ty k recd_protrej n j) j

  InStep-keep_alive : (m : Machine C) → InStep P m → InStep P (keep_alive ty m)
  unfolding echo_timeout
  InStep-keep_alive m i = InStep-if (m.quiet_count == 0) i (
      InStep-if (m.quiet_count == 1) (InStep-send_echo_req [] m i) (
        InStep-if (mul_ge16 m.quiet_count m.conf.echo_int m.conf.echo_max)
          (InStep-fsm_failure ty k echo_timedout (stop_echo_timer m)
            (unfold stop_echo_timer in record { kept = i.kept }))
          (InStep-send_echo_req [] m i)))

  InStep-echo_timeout :
      (frames : ℕ) (m : Machine C) → InStep P m → InStep P (echo_timeout ty frames m)
  unfolding echo_timeout
  InStep-echo_timeout frames m i =
      let quiet = if ltb m.idle_frames frames then 0 else u16 (m.quiet_count + 1) in
      let n : Machine C = record m { quiet_count = quiet; idle_frames = frames } in
      InStep-if (ty.has_bundle m.layer) (InStep-keep_alive n (record { kept = i.kept })) i

  InStep-checked :
      (h : Option (List ℕ → C → C)) (body : List ℕ) (m : Machine C)
      → KeptOn P h
      → InStep P m
      → InStep P (with_bytes h (drop 4 body) (check_magic ty body m))
  InStep-checked h body m q i = InStep-with_bytes h (drop 4 body) _ q (InStep-check_magic body m i)

  InStep-handle :
      (c : Code) (id : ℕ) (body : List ℕ) (m : Machine C)
      → InStep P m
      → InStep P (handle ty c id body m)
  unfolding handle recv_vendor recv_disc_req recv_ident recv_time_remain recv_reset_req
      recv_reset_ack recv_echo_rep
  InStep-handle vendor id body m i = InStep-checked ty.on_vendor body m k.vendor i
  InStep-handle config_req id body m i = InStep-recv_config_req ty k id body m i
  InStep-handle config_ack id body m i = InStep-recv_config_ack ty k id body m i
  InStep-handle config_nak id body m i = InStep-recv_config_nak ty k id body m i
  InStep-handle config_rej id body m i = InStep-recv_config_rej ty k id body m i
  InStep-handle term_req id body m i = InStep-recv_term_req ty k m i
  InStep-handle term_ack id body m i = InStep-recv_term_ack ty k m i
  InStep-handle code_rej id body m i = InStep-recv_code_rej body m i
  InStep-handle proto_rej id body m i = InStep-recv_proto_rej body m i
  InStep-handle echo_req id body m i = InStep-recv_echo_req id body m i
  InStep-handle echo_rep id body m i = InStep-check_magic body m i
  InStep-handle disc_req id body m i = InStep-checked ty.on_disc_req body m k.disc_req i
  InStep-handle ident id body m i = InStep-checked ty.on_ident body m k.ident i
  InStep-handle time_rem id body m i = InStep-checked ty.on_time_remain body m k.time_remain i
  InStep-handle reset_req id body m i = InStep-with_id ty.on_reset_req id body m k.reset_req i
  InStep-handle reset_ack id body m i = InStep-with_id ty.on_reset_ack id body m k.reset_ack i

  InStep-dispatch_known :
      (known : Bool) (c : Option Code) (p : Packet) (m : Machine C)
      → InStep P m
      → InStep P (dispatch_known ty known c p m)
  unfolding reject_code fsm_output
  InStep-dispatch_known true (some c) p m i = InStep-handle c p.id p.body m i
  InStep-dispatch_known true none p m i = record { kept = i.kept }
  InStep-dispatch_known false _ p m i = record { kept = i.kept }

  InStep-input_packet :
      (p : Option Packet) (m : Machine C) → InStep P m → InStep P (input_packet ty p m)
  unfolding dispatch
  InStep-input_packet none m i = i
  InStep-input_packet (some p) m i =
      InStep-dispatch_known (is_known ty.known_codes p.code) (get_elem? fsm_codes p.code) p m i

  InStep-expire : (r : Registered) (m : Machine C) → InStep P m → InStep P (expire ty r m)
  InStep-expire (once n) m i = InStep-fsm_timeout ty k m i
  InStep-expire _ m i = i

  -- Every event keeps the layer in step with the machine.
  pub InStep-step : (e : Event) (m : Machine C) → InStep P m → InStep P (step ty e m)
  unfolding step send_ident send_time_remaining fsm_output fsm_input
  InStep-step opens m i = InStep-fsm_open ty k m i
  InStep-step closes m i = InStep-fsm_close ty k m i
  InStep-step ups m i = InStep-fsm_up ty k m i
  InStep-step downs m i = InStep-fsm_down ty k m i
  InStep-step expires m i = InStep-expire m.timer.event m i
  InStep-step (fails why) m i = InStep-fsm_failure ty k why m i
  InStep-step (echoes frames) m i = InStep-echo_timeout frames m i
  InStep-step (idents text) m i = record { kept = i.kept }
  InStep-step (times remaining) m i = record { kept = i.kept }
  InStep-step (arrives bytes) m i = InStep-input_packet (read_packet bytes) m i

-- ===== src/Lcp/Acked.antt =====
-- A Configure-Request that LCP refuses nothing of, in the machine of src/fsm.c.
use mpdx.Common.{
  ℕ, ◌+◌, ◌≤◌, Bool, true, false, List, [], ◌∷◌, ◌++◌, ◌≡◌, refl, sym, ap, ◌∙◌, arith, length,
  length-append,
}
use mathlib.Core.List.{append-nil}
use mpdx.Fsm.Types.{State, req_sent, ack_sent, req, FsmOption, Buffers, frame, FsmType, Machine}
use mpdx.Fsm.Options.{buffer_size, option_bytes}
use mpdx.Fsm.Options.RoundTrip.{AllExact, encode_options, extract-encode}
use mpdx.Fsm.Core.{packet, code_number, new_state, decode_buffer, fsm_output, send_config_ack}
use mpdx.Fsm.Receive.{
  fully_acked, settle_in, restart_in, judge_request, answer_request, process_request, config_req_in,
  recv_config_req,
}
use mpdx.Lcp.Types.{LinkInfo, Lcp}
use mpdx.Lcp.Reply.{reply}
use mpdx.Lcp.Decode.{decode_option, decode_options, lcp_decode_config}
use mpdx.Lcp.Layer.{lcp_type}
use mpdx.Lcp.Agree.{Agrees}
use mpdx.Lcp.Agree.Moves.{Agrees-Steady}
use mpdx.Lcp.Agree.Options.{supported-has_case, known-Steady, forget-Agrees}
use mpdx.Lcp.Answer.{known-answers, acked_after}

module _ (l : LinkInfo) where
  options-acks :
      (os : List FsmOption) (s : State) (b : Buffers) (lcp : Lcp)
      → AllExact os
      → length b.acks + length (encode_options os) ≤ buffer_size
      → Agrees s lcp
      → let final = (decode_options l os req b lcp).0 in
        fully_acked final ≡ true
        → (final.acks ≡ b.acks ++ encode_options os) × (fully_acked b ≡ true)
  unfolding decode_options decode_option encode_options
  options-acks [] s b lcp x h a e = (sym (append-nil b.acks), e)
  options-acks (o ∷ os) s b lcp (x, xs) h a e =
      let known = supported-has_case o.type in
      let size = length-append {0} (option_bytes o) (encode_options os) in
      let answered = known-answers l _ o lcp known (omega (arith, size)) a.nakable in
      let (answer, after) = decode_option l req o lcp in
      acked_after answer o b (decode_options l (o ∷ os) req b lcp).0 (encode_options os) answered x
        h
        (λ room.
          options-acks os s (reply answer o b) after xs room
            (Agrees-Steady (known-Steady l _ req o lcp known a.nakable) a) e)

  decode-acks :
      (os : List FsmOption) (s : State) (lcp : Lcp)
      → AllExact os
      → length (encode_options os) ≤ buffer_size
      → Agrees s lcp
      → let final =
          (lcp_decode_config l os req (record { acks = []; naks = []; rejs = [] }) lcp).0 in
        fully_acked final ≡ true → final.acks ≡ encode_options os
  unfolding lcp_decode_config
  decode-acks os s lcp x h a e =
      (options-acks os s (record { acks = []; naks = []; rejs = [] }) _ x (omega (arith, h))
        (forget-Agrees l req s lcp a) e).0

-- The states in which an acknowledged request starts nothing but `ack_sent`.
abbrev pub is_negotiating : State → Bool
is_negotiating req_sent = true
is_negotiating ack_sent = true
is_negotiating _ = false

module _ {C : Type 0} (ty : FsmType C) where
  actions-new_state : (s : State) (m : Machine C) → (new_state ty s m).actions ≡ m.actions
  unfolding new_state
  actions-new_state s m = ground arith

  actions-settle_in :
      (s : State) (m : Machine C)
      → is_negotiating s ≡ true
      → (settle_in ty s true m).actions ≡ m.actions
  unfolding recv_config_req
  actions-settle_in req_sent m h = actions-new_state ack_sent m
  actions-settle_in ack_sent m h = refl
  actions-settle_in _ m h = absurd (ground arith)

  restart_in-negotiating :
      (s : State) (m : Machine C) → is_negotiating s ≡ true → restart_in ty s m ≡ m
  unfolding recv_config_req
  restart_in-negotiating req_sent m h = refl
  restart_in-negotiating ack_sent m h = refl
  restart_in-negotiating _ m h = absurd (ground arith)

  actions-answer_request :
      (id : ℕ) (m : Machine C)
      → is_negotiating m.state ≡ true
      → fully_acked m.buffers ≡ true
      → (answer_request ty id m).actions
        ≡ frame ty.link_layer ty.proto (packet 2 id m.buffers.acks) ∷ m.actions
  unfolding recv_config_req send_config_ack decode_buffer fsm_output code_number
  actions-answer_request id m h e = rw e (actions-settle_in m.state _ h)

  actions-process_request :
      (id : ℕ) (body : List ℕ) (m : Machine C)
      → is_negotiating m.state ≡ true
      → let d = (decode_buffer ty body req m).buffers in
        fully_acked d ≡ true
        → (process_request ty id body m).actions
          ≡ frame ty.link_layer ty.proto (packet 2 id d.acks) ∷ m.actions
  unfolding recv_config_req judge_request decode_buffer
  actions-process_request id body m h e =
      rw (restart_in-negotiating m.state (decode_buffer ty body req m) h)
        (actions-answer_request id (decode_buffer ty body req m) h e)

  config_req_in-negotiating :
      (s : State) (id : ℕ) (body : List ℕ) (m : Machine C)
      → is_negotiating s ≡ true
      → config_req_in ty s id body m ≡ process_request ty id body m
  unfolding recv_config_req
  config_req_in-negotiating req_sent id body m h = refl
  config_req_in-negotiating ack_sent id body m h = refl
  config_req_in-negotiating _ id body m h = absurd (ground arith)

module _ (l : LinkInfo) where
  request-acks :
      (os : List FsmOption) (m : Machine Lcp)
      → Agrees m.state m.layer
      → AllExact os
      → length os ≤ 100
      → length (encode_options os) ≤ buffer_size
      → let d = (decode_buffer (lcp_type l) (encode_options os) req m).buffers in
        fully_acked d ≡ true → d.acks ≡ encode_options os
  unfolding decode_buffer lcp_type
  request-acks os m a x n h =
      rw (extract-encode 100 os x n) (decode-acks l os m.state m.layer x h a)

  -- A link that negotiates, in the state `req_sent` or `ack_sent`, answers a Configure-Request that
  -- it refuses no option of by one frame, the Configure-Ack with the request's identifier and its very
  -- bytes: where the request has at most 100 options and 256 bytes, every length byte is right, and the
  -- link's phase and lists agree with its state.
  pub request_acked :
      (id : ℕ) (os : List FsmOption) (m : Machine Lcp)
      → Agrees m.state m.layer
      → is_negotiating m.state ≡ true
      → AllExact os
      → length os ≤ 100
      → length (encode_options os) ≤ buffer_size
      → fully_acked (decode_buffer (lcp_type l) (encode_options os) req m).buffers ≡ true
      → let body = encode_options os in
        (recv_config_req (lcp_type l) id body m).actions
        ≡ frame true 49185 (packet 2 id body) ∷ m.actions
  unfolding recv_config_req lcp_type
  request_acked id os m a s x n h e =
      let body = encode_options os in
      let same = request-acks os m a x n h e in
      ap (λ n. n.actions) (config_req_in-negotiating (lcp_type l) m.state id body m s)
      ∙ actions-process_request (lcp_type l) id body m s e
      ∙ ap (λ acks. frame true 49185 (packet 2 id acks) ∷ m.actions) same

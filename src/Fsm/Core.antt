-- ===== src/Fsm/Core.antt =====
-- src/fsm.c: initialisation, `FsmNewState`, the frames that the machine sends, the restart
-- counters and the layer actions.
use mpdx.Common.{
  ℕ, ◌+◌, ◌*◌, Bool, true, false, not, ◌&&◌, Option, none, some, List, [], ◌∷◌, ◌++◌, length, ◌==◌,
  if◌then◌else◌, u8, be16, pred16, pos16,
}
use mpdx.Timer.{Timer, zeroed, timer_init, timer_start, timer_start_recurring, timer_stop}
use mpdx.Fsm.Types.{
  State, initial, starting, closed, stopped, opened, Mode, nop, req, Code, vendor, config_req,
  config_ack, config_nak, config_rej, term_req, term_ack, code_rej, proto_rej, echo_req, echo_rep,
  disc_req, ident, time_rem, reset_req, reset_ack, Buffers, Action, layer_up, layer_down,
  layer_start, layer_finish, frame, FsmType, Machine, Op, ◌>>◌, on_layer,
}
use mpdx.Fsm.Options.{extract_options}

-- The number of a code on the wire.
unfoldable pub code_number : Code → ℕ
code_number vendor = 0
code_number config_req = 1
code_number config_ack = 2
code_number config_nak = 3
code_number config_rej = 4
code_number term_req = 5
code_number term_ack = 6
code_number code_rej = 7
code_number proto_rej = 8
code_number echo_req = 9
code_number echo_rep = 10
code_number disc_req = 11
code_number ident = 12
code_number time_rem = 13
code_number reset_req = 14
code_number reset_ack = 15

unfoldable pub fsm_init : {C : Type 0} → C → Machine C
fsm_init arg = record {
  conf = record {
    maxconfig = 10;
    maxterminate = 2;
    maxfailure = 5;
    echo_int = 0;
    echo_max = 0;
    check_magic = false;
    passive = false;
  };
  state = initial;
  reqid = 1;
  rejid = 1;
  echoid = 1;
  restart = 0;
  failure = 0;
  config = 0;
  quiet_count = 0;
  timer = zeroed;
  echo_timer = zeroed;
  idle_frames = 0;
  buffers = record { acks = []; naks = []; rejs = [] };
  layer = arg;
  actions = [];
  aborted = false;
}

-- `FsmInst`: a copy of a template, with another link or bundle behind it.
pub fsm_inst : {C : Type 0} → Machine C → C → Machine C
fsm_inst template arg = record template { layer = arg }

-- Ticks in a second.
abbrev pub seconds : ℕ
seconds = 1000

-- `new <= ST_STOPPED || new == ST_OPENED`: the states in which the restart timer does not run.
abbrev pub is_quiet : State → Bool
is_quiet initial = true
is_quiet starting = true
is_quiet closed = true
is_quiet stopped = true
is_quiet opened = true
is_quiet _ = false

abbrev pub is_opened : State → Bool
is_opened opened = true
is_opened _ = false

abbrev pub set_timer : {C : Type 0} → Option Timer → Op C
set_timer none m = record m { aborted = true }
set_timer (some t) m = record m { timer = t }

abbrev pub set_echo_timer : {C : Type 0} → Option Timer → Op C
set_echo_timer none m = record m { aborted = true }
set_echo_timer (some t) m = record m { echo_timer = t }

-- `TimerStart(&fp->timer)` and the stops of both timers.
unfoldable pub start_timer : {C : Type 0} → Op C
unfolding timer_start
start_timer m = set_timer (timer_start m.timer) m

unfoldable pub stop_timer : {C : Type 0} → Op C
unfolding timer_stop
stop_timer m = record m { timer = timer_stop m.timer }

unfoldable pub stop_echo_timer : {C : Type 0} → Op C
unfolding timer_stop
stop_echo_timer m = record m { echo_timer = timer_stop m.echo_timer }

-- The keep-alive timer is set up when the machine opens, if echoes are configured.
start_echo : {C : Type 0} → Op C
unfolding timer_init timer_start_recurring
start_echo m =
    set_echo_timer (timer_start_recurring (timer_init (pos16 m.conf.echo_int * seconds)))
      (record m { quiet_count = 0; idle_frames = 0 })

-- One record of the action done, then the layer's handler.
unfoldable pub fsm_layer : {C : Type 0} → Action → Option (C → C) → Op C
fsm_layer a handler m = on_layer handler (record m { actions = a ∷ m.actions })

-- The bytes of a control packet: `struct fsmheader` and the payload.
unfoldable pub packet : ℕ → ℕ → List ℕ → List ℕ
packet code id payload = u8 code ∷ u8 id ∷ be16 (length payload + 4) ++ payload

abbrev pub tell_new_state : {C : Type 0} → Option (State → State → C → C) → State → State → C → C
tell_new_state none old new c = c
tell_new_state (some h) old new c = h old new c

module _ {C : Type 0} (ty : FsmType C) where
  -- `FsmNewState`: the handler sees the old state, then the timers follow the change.
  unfoldable pub new_state : State → Op C
  unfolding stop_timer stop_echo_timer start_echo
  new_state new m =
      let old = m.state in
      let told = record m { layer = tell_new_state ty.on_new_state old new m.layer } in
      let moved = record told { state = new } in
      let quiet = if is_quiet new then stop_timer moved else moved in
      let silent = if is_opened old then stop_echo_timer quiet else quiet in
      if is_opened new && not (m.conf.echo_int == 0) then start_echo silent else silent

  -- `FsmOutputMbuf` and `FsmOutput`.
  unfoldable pub fsm_output : ℕ → ℕ → List ℕ → Op C
  unfolding packet
  fsm_output code id payload m = record m {
    actions = frame ty.link_layer ty.proto (packet code id payload) ∷ m.actions;
  }

  unfoldable pub fsm_layer_up : Op C
  unfolding fsm_layer
  fsm_layer_up = fsm_layer layer_up ty.on_layer_up

  unfoldable pub fsm_layer_down : Op C
  unfolding fsm_layer
  fsm_layer_down = fsm_layer layer_down ty.on_layer_down

  unfoldable pub fsm_layer_start : Op C
  unfolding fsm_layer
  fsm_layer_start = fsm_layer layer_start ty.on_layer_start

  unfoldable pub fsm_layer_finish : Op C
  unfolding fsm_layer
  fsm_layer_finish = fsm_layer layer_finish ty.on_layer_finish

  -- `FsmInitRestartCounter`, `FsmInitMaxFailure`, `FsmInitMaxConfig`.
  unfoldable pub init_restart_counter : ℕ → Op C
  unfolding stop_timer timer_init
  init_restart_counter value m =
      let retry = ty.retry_timeout m.layer in
      let halted = stop_timer m in
      record halted { timer = timer_init (retry * seconds); restart = value }

  unfoldable pub init_max_failure : ℕ → Op C
  init_max_failure value m = record m { failure = value }

  unfoldable pub init_max_config : ℕ → Op C
  init_max_config value m = record m { config = value }

  -- The three calls that often stand together, with the values of the configuration.
  unfoldable pub init_counters : Op C
  unfolding init_restart_counter init_max_failure init_max_config
  init_counters m =
      (init_restart_counter m.conf.maxconfig
          >> init_max_failure m.conf.maxfailure
          >> init_max_config m.conf.maxconfig)
        m

  abbrev clear_buffers : Mode → Buffers → Buffers
  clear_buffers req b = record { acks = []; naks = []; rejs = [] }
  clear_buffers _ b = b

  -- `FsmDecodeBuffer`: at most `FSM_MAX_OPTS` options go to the layer.
  unfoldable pub decode_buffer : List ℕ → Mode → Op C
  decode_buffer bytes mode m =
      let opts = (extract_options 100 bytes).0 in
      let (buffers, layer) = ty.decode_config opts mode (clear_buffers mode m.buffers) m.layer in
      record m { buffers = buffers; layer = layer }

  -- `FsmSendConfigReq`.
  unfoldable pub send_config_req : Op C
  unfolding decode_buffer fsm_output start_timer
  send_config_req m =
      let (request, layer) = ty.build_config_req m.layer in
      let decoded = decode_buffer request nop (record m { layer = layer }) in
      let sent = fsm_output (code_number config_req) m.reqid request decoded in
      let numbered = record sent { reqid = u8 (m.reqid + 1) } in
      let timed = start_timer numbered in
      record timed { restart = pred16 timed.restart; config = pred16 timed.config }

  -- `FsmSendTerminateReq`.
  unfoldable pub send_terminate_req : Op C
  unfolding fsm_output start_timer
  send_terminate_req m =
      let sent = fsm_output (code_number term_req) m.reqid [] m in
      let numbered = record sent { reqid = u8 (m.reqid + 1) } in
      let timed = start_timer (on_layer ty.on_send_terminate_req numbered) in
      record timed { restart = pred16 timed.restart }

  -- `FsmSendTerminateAck`.
  unfoldable pub send_terminate_ack : Op C
  unfolding fsm_output
  send_terminate_ack m =
      let sent = fsm_output (code_number term_ack) m.reqid [] m in
      on_layer ty.on_send_terminate_ack (record sent { reqid = u8 (m.reqid + 1) })

  -- `FsmSendConfigAck`, `FsmSendConfigRej`, `FsmSendConfigNak`: `id` is the request's.
  unfoldable pub send_config_ack : ℕ → List ℕ → Op C
  unfolding decode_buffer fsm_output
  send_config_ack id options =
      decode_buffer options nop >> fsm_output (code_number config_ack) id options

  unfoldable pub send_config_rej : ℕ → List ℕ → Op C
  unfolding decode_buffer fsm_output
  send_config_rej id options m =
      let sent = (decode_buffer options nop >> fsm_output (code_number config_rej) id options) m in
      record sent { failure = pred16 sent.failure }

  unfoldable pub send_config_nak : ℕ → List ℕ → Op C
  unfolding decode_buffer fsm_output
  send_config_nak id options m =
      let sent = (decode_buffer options nop >> fsm_output (code_number config_nak) id options) m in
      record sent { failure = pred16 sent.failure }

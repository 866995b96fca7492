-- ===== src/Fsm/Examples.antt =====
-- Runs of the machine over a small layer, which accepts options of type 1 and rejects all others.
use mpdx.Common.{
  ℕ, suc, ◌+◌, true, false, not, none, some, List, [], ◌∷◌, ◌++◌, ◌≡◌, refl, arith, ◌==◌,
  if◌then◌else◌,
}
use mpdx.Timer.{once, is_once}
use mpdx.Fsm.Types.{
  State, opened, req_sent, ack_rcvd, ack_sent, stopping, closing, Mode, req, config_req,
  negot_failure, FsmConf, FsmOption, Buffers, FsmType, Machine,
}
use mpdx.Fsm.Options.{ConfData, conf_bytes, raw, net16, net32, extract_options, fsm_ack, fsm_rej}
use mpdx.Fsm.Options.RoundTrip.{write_options, as_options, extract-write}
use mpdx.Fsm.Options.Extract.{IsExtraction, extract-IsExtraction}
use mpdx.Fsm.Core.{
  start_timer, fsm_layer_start, fsm_layer_up, fsm_layer_down, new_state, send_config_req,
  send_config_ack, init_counters, is_quiet, packet, decode_buffer, code_number,
}
use mpdx.Fsm.Events.{fsm_open, fsm_close, fsm_up, fsm_down, fsm_timeout, fsm_failure}
use mpdx.Fsm.Receive.{
  recv_config_req, recv_config_ack, recv_config_nak, recv_config_rej, recv_term_req, recv_term_ack,
}
use mpdx.Fsm.Link.{is_fatal_code, read_over, recv_code_rej, code_rej_verdict}
use mpdx.Fsm.Input.{dispatch, read_packet, handle, fsm_input}
use mpdx.Fsm.Rfc.{next, open_, close, up, down, to_minus}
use mpdx.Fsm.Step.{Event, opens, ups, expires, arrives, step, run}
use mpdx.Fsm.View.{view, count_ups, count_downs}
use mpdx.Fsm.View.Balance.{opened_weight}
use mpdx.Fsm.View.Moves.{Moves, step-Moves}
use mpdx.Fsm.View.Request.{verdict}
use mpdx.Fsm.Table.{
  admin_table, timeout_table, config_req_table, config_reply_table, shutdown_table,
}
use mpdx.Fsm.Safety.{fresh, run_timer, step_balance, exhausted_double_down}
use mpdx.Fsm.Opening.{opens_either_order}
use mpdx.Fsm.Retries.{expirations, retries_end}
use mpdx.Fsm.Wire.{input-packet}

judge : List FsmOption → Buffers → Buffers
judge [] b = b
judge (o ∷ os) b = judge os (if o.type == 1 then fsm_ack o b else fsm_rej o b)

abbrev judge_in : Mode → List FsmOption → Buffers → Buffers
judge_in req os b = judge os b
judge_in _ os b = b

abbrev layer_type : FsmType ℕ
layer_type = record {
  proto = 0x8021;
  known_codes = 0xfe;
  link_layer = false;
  on_new_state = none;
  on_layer_up = some suc;
  on_layer_down = none;
  on_layer_start = none;
  on_layer_finish = none;
  build_config_req = λ c. (1 ∷ 4 ∷ 0 ∷ 7 ∷ [], c);
  decode_config = λ os mode b c. (judge_in mode os b, c);
  configure = none;
  un_configure = none;
  on_send_terminate_req = none;
  on_send_terminate_ack = none;
  on_code_rej = none;
  on_proto_rej = none;
  on_failure = none;
  on_reset_req = none;
  on_reset_ack = none;
  on_ident = none;
  on_disc_req = none;
  on_time_remain = none;
  on_vendor = none;
  record_peer_disc = λ c. c;
  want_magic = λ _. 0;
  peer_magic = λ _. 0;
  retry_timeout = λ _. 2;
  has_bundle = λ _. true;
  stack = λ _. 0 ∷ 0 ∷ 0 ∷ 0 ∷ [];
}

abbrev settings : FsmConf
settings = record {
  maxconfig = 10;
  maxterminate = 2;
  maxfailure = 5;
  echo_int = 0;
  echo_max = 0;
  check_magic = false;
  passive = false;
}

-- A machine in a state, with its timer pending, three retransmissions, and some refusals left.
abbrev machine : State → ℕ → Machine ℕ
machine s refusals = record (fresh settings 0) {
  state = s;
  restart = 3;
  failure = refusals;
  config = 4;
  timer = record { has_func = true; load = 2000; event = once 2000 };
}

abbrev good_request : List ℕ
good_request = 1 ∷ 4 ∷ 9 ∷ 9 ∷ []

abbrev bad_request : List ℕ
bad_request = 2 ∷ 4 ∷ 9 ∷ 9 ∷ []

admin_table_example :
    let m = machine opened 5 in
    ((fsm_open layer_type m).state ≡ next open_ opened)
    × ((fsm_close layer_type m).state ≡ next close opened)
    × ((fsm_up layer_type m).state ≡ next up opened)
    × ((fsm_down layer_type m).state ≡ next down opened)
admin_table_example = admin_table layer_type (machine opened 5)

config_req_table_example :
    (recv_config_req layer_type 7 good_request (machine req_sent 5)).state ≡ ack_sent
unfolding verdict judge decode_buffer extract_options fsm_ack
config_req_table_example =
    config_req_table layer_type (machine req_sent 5) 7 good_request (λ _. refl)

config_reply_table_example :
    ((recv_config_ack layer_type 0 good_request (machine ack_sent 5)).state ≡ opened)
    × ((recv_config_nak layer_type 0 good_request (machine ack_sent 5)).state ≡ ack_sent)
    × ((recv_config_rej layer_type 0 good_request (machine ack_sent 5)).state ≡ ack_sent)
unfolding fresh
config_reply_table_example = config_reply_table layer_type (machine ack_sent 5) 0 good_request

shutdown_table_example :
    ((recv_term_req layer_type (machine opened 5)).state ≡ stopping)
    × ((recv_term_ack layer_type (machine opened 5)).state ≡ req_sent)
    × ((fsm_failure layer_type negot_failure (machine opened 5)).state ≡ stopping)
    × ((recv_code_rej layer_type (1 ∷ []) (machine opened 5)).state ≡ stopping)
unfolding code_rej_verdict fresh is_fatal_code read_over
shutdown_table_example = shutdown_table layer_type (machine opened 5) negot_failure (1 ∷ [])

timeout_table_example : (fsm_timeout layer_type (machine ack_rcvd 5)).state ≡ req_sent
timeout_table_example = timeout_table layer_type (machine ack_rcvd 5)

step-Moves_example :
    Moves (view (machine ack_rcvd 5)) (view (step layer_type expires (machine ack_rcvd 5)))
step-Moves_example = step-Moves layer_type expires (machine ack_rcvd 5)

-- Opened by the layer above, up, and a peer that accepts and asks.
abbrev opening : List Event
opening = opens ∷ ups ∷ arrives (packet 1 9 good_request) ∷ arrives (packet 2 1 good_request) ∷ []

run_timer_example :
    let m = run layer_type opening (fresh settings 0) in
    (is_once m.timer.event ≡ not (is_quiet m.state)) × (m.aborted ≡ false)
run_timer_example = run_timer layer_type opening settings 0 refl

-- That run does open the machine.
opening_opens : (run layer_type opening (fresh settings 0)).state ≡ opened
unfolding run fresh packet judge step fsm_input read_packet dispatch handle recv_config_ack
    recv_config_req fsm_up fsm_open fsm_layer_start new_state send_config_req init_counters
    extract_options fsm_ack send_config_ack fsm_layer_up code_number decode_buffer
opening_opens = refl

step_balance_example :
    let n = step layer_type expires (machine ack_rcvd 5) in
    count_ups n.actions ≡ count_downs n.actions + opened_weight n.state
unfolding fresh count_ups count_downs
step_balance_example =
    step_balance layer_type expires (machine ack_rcvd 5) (λ e. refl) (omega arith)

exhausted_double_down_example :
    let n = recv_config_req layer_type 7 bad_request (machine opened 0) in
    (count_downs n.actions ≡ count_downs (machine opened 0).actions + 2) × (n.state ≡ stopping)
unfolding verdict fresh judge decode_buffer extract_options fsm_rej send_config_req fsm_layer_down
exhausted_double_down_example =
    exhausted_double_down layer_type 7 bad_request (machine opened 0) refl refl refl

retries_end_example : (expirations layer_type 4 (machine closing 5)).state ≡ next to_minus closing
retries_end_example = retries_end layer_type 3 (machine closing 5) refl refl refl refl (omega arith)

opens_either_order_example :
    let m = machine req_sent 5 in
    let first = recv_config_req layer_type 7 good_request (recv_config_ack layer_type 0 [] m) in
    let second = recv_config_ack layer_type 0 [] (recv_config_req layer_type 7 good_request m) in
    ((first.state ≡ opened) × (count_ups first.actions ≡ count_ups m.actions + 1))
    × ((second.state ≡ opened) × (count_ups second.actions ≡ count_ups m.actions + 1))
unfolding verdict judge decode_buffer extract_options fsm_ack fresh recv_config_ack new_state
    init_counters start_timer
opens_either_order_example =
    opens_either_order layer_type 0 [] 7 good_request (machine req_sent 5) refl refl refl refl

input-packet_example :
    fsm_input layer_type (packet 1 7 good_request ++ []) (machine req_sent 5)
    ≡ handle layer_type config_req 7 good_request (machine req_sent 5)
unfolding code_number
input-packet_example =
    input-packet layer_type config_req 7 good_request [] (machine req_sent 5) (omega arith)
      (omega arith) refl

abbrev items : List (ℕ × ConfData)
items = (1, net16 1500) ∷ (5, net32 0xdeadbeef) ∷ (7, raw []) ∷ []

extract-write_example : extract_options 100 (write_options items) ≡ (as_options items, [])
unfolding conf_bytes
extract-write_example =
    extract-write 100 items (omega arith, (omega arith, (omega arith, tt))) (omega arith)

extract-IsExtraction_example :
    IsExtraction 100 (1 ∷ 4 ∷ 9 ∷ 9 ∷ 3 ∷ 1 ∷ []) (extract_options 100 (1 ∷ 4 ∷ 9 ∷ 9 ∷ 3 ∷ 1 ∷ []))
extract-IsExtraction_example = extract-IsExtraction 100 (1 ∷ 4 ∷ 9 ∷ 9 ∷ 3 ∷ 1 ∷ [])

abbrev empty_buffers : Buffers
empty_buffers = record { acks = []; naks = []; rejs = [] }

abbrev option : FsmOption
option = record { type = 1; len = 4; bytes = 9 ∷ 9 ∷ [] }

-- ===== src/Fsm/View.antt =====
-- The abstract machine: `struct fsm` without the layer behind it. It keeps the state, the counters,
-- whether an expiry of the restart timer is pending, and how often the layer was told up and down.
pub mod Core
pub mod Events
pub mod Table
pub mod Receive
pub mod Request
pub mod Link
pub mod Moves
pub mod Timing
pub mod Balance
use mpdx.Common.{
  ℕ, suc, ◌+◌, ◌%◌, Bool, true, false, if◌then◌else◌, List, [], ◌∷◌, u8, pred16, is_pos16, ◌==◌,
}
use mpdx.Timer.{is_once}
use mpdx.Fsm.Types.{
  State, initial, starting, closed, stopped, closing, stopping, req_sent, ack_rcvd, ack_sent,
  opened, FsmConf, Action, layer_up, layer_down, Machine,
}
use mpdx.Fsm.Core.{is_quiet}
use mpdx.Fsm.Receive.{last_id}

pub record View : Type 0 where
  pub conf : FsmConf
  pub state : State
  pub reqid : ℕ
  pub restart : ℕ
  pub failure : ℕ
  pub config : ℕ
  pub armed : Bool
  pub ready : Bool
  pub aborted : Bool
  pub ups : ℕ
  pub downs : ℕ

abbrev pub up_weight : Action → ℕ
up_weight layer_up = 1
up_weight _ = 0

abbrev pub down_weight : Action → ℕ
down_weight layer_down = 1
down_weight _ = 0

-- How often an action was done.
unfoldable pub count_ups : List Action → ℕ
count_ups [] = 0
count_ups (a ∷ rest) = count_ups rest + up_weight a

unfoldable pub count_downs : List Action → ℕ
count_downs [] = 0
count_downs (a ∷ rest) = count_downs rest + down_weight a

unfoldable pub view : {C : Type 0} → Machine C → View
unfolding count_ups count_downs
view m = record {
  conf = m.conf;
  state = m.state;
  reqid = m.reqid;
  restart = m.restart;
  failure = m.failure;
  config = m.config;
  armed = is_once m.timer.event;
  ready = m.timer.has_func;
  aborted = m.aborted;
  ups = count_ups m.actions;
  downs = count_downs m.actions;
}

unfoldable pub enter : State → View → View
enter s v = record v { state = s; armed = if is_quiet s then false else v.armed }

unfoldable pub arm : View → View
arm v = record v {
  armed = if v.ready then true else v.armed;
  aborted = if v.ready then v.aborted else true;
}

unfoldable pub told_up : View → View
told_up v = record v { ups = v.ups + 1 }

unfoldable pub told_down : View → View
told_down v = record v { downs = v.downs + 1 }

unfoldable pub set_restart : ℕ → View → View
set_restart n v = record v { restart = n; armed = false; ready = true }

unfoldable pub set_counters : View → View
unfolding set_restart
set_counters v = record (set_restart v.conf.maxconfig v) {
  failure = v.conf.maxfailure;
  config = v.conf.maxconfig;
}

unfoldable pub use_id : View → View
use_id v = record v { reqid = u8 (v.reqid + 1) }

unfoldable pub sent_request : View → View
unfolding arm use_id
sent_request v =
    let a = arm (use_id v) in record a { restart = pred16 a.restart; config = pred16 a.config }

unfoldable pub sent_terminate : View → View
unfolding arm use_id
sent_terminate v = let a = arm (use_id v) in record a { restart = pred16 a.restart }

unfoldable pub sent_refusal : View → View
sent_refusal v = record v { failure = pred16 v.failure }

-- The restart counter is set for Terminate-Requests, and one is sent.
unfoldable pub terminated : View → View
unfolding set_restart sent_terminate
terminated v = sent_terminate (set_restart v.conf.maxterminate v)

abbrev pub opened_by : State → View → View
opened_by initial v = enter starting v
opened_by closed v = sent_request (set_counters (enter req_sent v))
opened_by closing v = enter stopping v
opened_by _ v = v

abbrev pub upped_by : State → View → View
upped_by initial v = enter closed v
upped_by starting v = sent_request (set_counters (enter req_sent v))
upped_by _ v = v

abbrev pub downed_by : State → View → View
downed_by initial v = v
downed_by starting v = v
downed_by closed v = enter initial v
downed_by closing v = enter initial v
downed_by opened v = told_down (enter starting v)
downed_by _ v = enter starting v

abbrev pub closed_by : State → View → View
closed_by starting v = enter initial v
closed_by stopped v = enter closed v
closed_by stopping v = enter closing v
closed_by opened v = told_down (terminated (enter closing v))
closed_by req_sent v = terminated (enter closing v)
closed_by ack_rcvd v = terminated (enter closing v)
closed_by ack_sent v = terminated (enter closing v)
closed_by _ v = v

abbrev pub failed_by : State → View → View
failed_by closing v = enter closed v
failed_by stopping v = enter stopped v
failed_by req_sent v = enter stopped v
failed_by ack_rcvd v = enter stopped v
failed_by ack_sent v = enter stopped v
failed_by opened v = told_down (terminated (enter stopping v))
failed_by _ v = v

abbrev pub retried_by : State → View → View
retried_by closing v = sent_terminate v
retried_by stopping v = sent_terminate v
retried_by req_sent v = sent_request v
retried_by ack_sent v = sent_request v
retried_by ack_rcvd v = sent_request (enter req_sent v)
retried_by _ v = v

abbrev pub given_up_by : State → View → View
given_up_by closing v = enter closed v
given_up_by stopping v = enter stopped v
given_up_by req_sent v = enter stopped v
given_up_by ack_rcvd v = enter stopped v
given_up_by ack_sent v = enter stopped v
given_up_by _ v = v

-- Configure-Ack with the right identifier.
abbrev pub acked_by : State → View → View
acked_by closed v = use_id v
acked_by stopped v = use_id v
acked_by req_sent v = arm (set_counters (enter ack_rcvd v))
acked_by ack_rcvd v = sent_request (enter req_sent v)
acked_by ack_sent v = told_up (set_counters (enter opened v))
acked_by opened v = sent_request (told_down (enter req_sent v))
acked_by _ v = v

abbrev pub refused_in : State → View → View
refused_in req_sent v = sent_request (set_restart v.conf.maxconfig v)
refused_in ack_sent v = sent_request (set_restart v.conf.maxconfig v)
refused_in ack_rcvd v = sent_request (enter req_sent v)
refused_in opened v = sent_request (told_down (enter req_sent v))
refused_in _ v = v

abbrev pub refused_or_failed : State → View → View
refused_or_failed s v = if is_pos16 v.config then refused_in s v else failed_by s v

-- Configure-Nak and Configure-Reject with the right identifier.
abbrev pub refused_by : State → View → View
refused_by closed v = use_id v
refused_by stopped v = use_id v
refused_by req_sent v = refused_or_failed req_sent v
refused_by ack_rcvd v = refused_or_failed ack_rcvd v
refused_by ack_sent v = refused_or_failed ack_sent v
refused_by opened v = refused_or_failed opened v
refused_by _ v = v

-- Terminate-Request and Terminate-Ack.
abbrev pub term_req_by : State → View → View
term_req_by initial v = v
term_req_by starting v = v
term_req_by ack_rcvd v = use_id (enter req_sent v)
term_req_by ack_sent v = use_id (enter req_sent v)
term_req_by opened v = arm (set_restart 0 (told_down (use_id (enter stopping v))))
term_req_by _ v = use_id v

abbrev pub term_ack_by : State → View → View
term_ack_by closing v = enter closed v
term_ack_by stopping v = enter stopped v
term_ack_by ack_rcvd v = enter req_sent v
term_ack_by opened v = sent_request (told_down (enter req_sent v))
term_ack_by _ v = v

abbrev pub rejected_by : State → View → View
rejected_by ack_rcvd v = enter req_sent v
rejected_by _ v = v

-- Configure-Request: the restart that comes before the verdict, and what follows it.
abbrev pub restarted_by : State → View → View
restarted_by stopped v = sent_request (set_counters v)
restarted_by opened v = sent_request (told_down v)
restarted_by _ v = v

abbrev pub settled_by : State → Bool → View → View
settled_by stopped true v = enter ack_sent v
settled_by stopped false v = enter req_sent v
settled_by opened true v = enter ack_sent v
settled_by opened false v = enter req_sent v
settled_by req_sent true v = enter ack_sent v
settled_by ack_rcvd true v = told_up (enter opened v)
settled_by ack_sent false v = enter req_sent v
settled_by _ _ v = v

abbrev pub answered_by : State → Bool → View → View
answered_by s true v = settled_by s true v
answered_by s false v =
    if is_pos16 v.failure then settled_by s false (sent_refusal v) else failed_by s v

abbrev requested : State → Bool → View → View
requested s acked v = answered_by s acked (restarted_by s v)

abbrev pub requested_by : State → Bool → View → View
requested_by closed acked v = use_id v
requested_by stopped acked v = requested stopped acked v
requested_by req_sent acked v = requested req_sent acked v
requested_by ack_rcvd acked v = requested ack_rcvd acked v
requested_by ack_sent acked v = requested ack_sent acked v
requested_by opened acked v = requested opened acked v
requested_by _ acked v = v

-- A proof that opens this opens every elementary change of the abstract machine.
unfoldable pub moves : View → View
unfolding enter arm told_up told_down set_counters use_id sent_request sent_terminate sent_refusal
    terminated
moves v = v

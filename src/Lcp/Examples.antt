-- ===== src/Lcp/Examples.antt =====
-- A link with MS-CHAP and its machine, and the properties of src/lcp.c at them.
use mpdx.Common.{
  ◌+◌, true, false, none, some, List, [], ◌∷◌, ◌++◌, ◌≡◌, ◌≢◌, refl, arith, ◌==◌, ◌||◌, get_elem?,
}
use mpdx.Fsm.Types.{req, nak, rej, req_sent, FsmOption, Buffers, Machine, frame}
use mpdx.Fsm.Options.RoundTrip.{encode_options}
use mpdx.Fsm.Core.{packet, decode_buffer}
use mpdx.Fsm.Receive.{fully_acked, recv_config_req}
use mpdx.Fsm.Step.{opens, ups}
use mpdx.Fsm.Options.{find_opt_info, extract_options, fsm_ack}
use mpdx.Lcp.Types.{establish, LinkInfo, Lcp}
use mpdx.Lcp.Request.{
  chap_ms_v1, acceptable_protos, by_strength, lcp_init, lcp_configure, request_options,
}
use mpdx.Lcp.Reply.{first_proto}
use mpdx.Lcp.Cases.{decode_auth, decode_mru}
use mpdx.Lcp.Decode.{lcp_decode_config, option_type, decode_type}
use mpdx.Lcp.Layer.{lcp_type, lcp_machine, LinkEvent, machine, link_run}
use mpdx.Lcp.Agree.{may_be_in, Agrees}
use mpdx.Lcp.Agree.Run.{link_run-phase}
use mpdx.Lcp.Acked.{request_acked}
use mpdx.Lcp.Requested.{has_option}
use mpdx.Lcp.Rejected.{is_taken, rejected-not_requested}
use mpdx.Lcp.Choice.{
  enabled_protos, without_first, proto_or, alg_or, configure_auth, md5_option, nak_drops_enabled,
}

-- MS-CHAP v2 and v1 enabled, and magic numbers.
abbrev link : LinkInfo
link = record {
  options = record { enable = λ k. k == 2 || k == 3 || k == 9; accept = λ k. k == 6 };
  phys_mtu = 1500;
  phys_mru = 1500;
  phys_type_mru = 1500;
  type_mru = 1500;
  has_type = true;
  accmap = 0;
  mrru = 1600;
  originates = true;
  is_sync = true;
  self_discrim = record { class = 0; bytes = [] };
  is_repeated = false;
  has_ident = false;
  knows_remaining = false;
  retry_timeout = 2;
  has_bundle = false;
  open_timer_started = false;
  magics = λ k. k + 77;
  joins_bundle = true;
  stack = 0 ∷ 0 ∷ 0 ∷ 0 ∷ [];
}

abbrev asking : List LinkEvent
asking = machine opens ∷ machine ups ∷ []

link_run-phase_example :
    let m = link_run link asking (lcp_machine link) in
    (may_be_in m.state m.layer.phase ≡ true) × (m.layer.aborted ≡ false)
link_run-phase_example = link_run-phase link asking (tt, (tt, tt))

configure_auth_example :
    let on = enabled_protos link.options by_strength in
    let n = lcp_configure link lcp_init in
    (n.want_auth ≡ proto_or (first_proto on) 0)
    × (n.want_alg ≡ alg_or (first_proto on) 0)
    × (n.want_protos ≡ without_first on)
configure_auth_example = configure_auth link lcp_init

nak_drops_enabled_example :
    let n = lcp_configure link lcp_init in
    (get_elem? n.want_protos 1 ≡ some (some chap_ms_v1))
    × (get_elem? (decode_auth link nak md5_option n).1.want_protos 1 ≡ some none)
nak_drops_enabled_example = nak_drops_enabled link lcp_init refl refl refl

abbrev mru_option : FsmOption
mru_option = record { type = 1; len = 4; bytes = 5 ∷ 220 ∷ [] }

abbrev no_replies : Buffers
no_replies = record { acks = []; naks = []; rejs = [] }

mru-is_taken : is_taken mru_option ≡ true
unfolding is_taken option_type find_opt_info
mru-is_taken = refl

mru-not_auth : mru_option.type ≢ 3
mru-not_auth e = omega arith

rejected-not_requested_example :
    let after =
      (lcp_decode_config link
        ([] ++ mru_option ∷ [])
        rej
        no_replies
        (lcp_configure link lcp_init)).1 in
    has_option 1 (request_options link after) ≡ false
rejected-not_requested_example =
    rejected-not_requested link [] mru_option [] no_replies (lcp_configure link lcp_init)
      mru-is_taken mru-not_auth

-- A configured link that negotiates.
abbrev asked : Machine Lcp
asked = record (lcp_machine link) {
  state = req_sent;
  layer = record (lcp_configure link lcp_init) { phase = establish };
}

asked-Agrees : Agrees asked.state asked.layer
unfolding lcp_machine may_be_in lcp_configure acceptable_protos lcp_init
asked-Agrees = record { phase = refl; alive = refl; nakable = tt }

mru-acked :
    fully_acked (decode_buffer (lcp_type link) (encode_options (mru_option ∷ [])) req asked).buffers
    ≡ true
unfolding decode_buffer lcp_type encode_options extract_options lcp_decode_config find_opt_info
    option_type decode_type decode_mru lcp_configure lcp_init fsm_ack
mru-acked = refl

request_acked_example :
    (recv_config_req (lcp_type link) 9 (encode_options (mru_option ∷ [])) asked).actions
    ≡ frame true 49185 (packet 2 9 (encode_options (mru_option ∷ []))) ∷ asked.actions
unfolding encode_options
request_acked_example =
    request_acked link 9 (mru_option ∷ []) asked asked-Agrees refl (refl, tt) (omega arith)
      (omega arith) mru-acked

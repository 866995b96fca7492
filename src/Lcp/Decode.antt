-- ===== src/Lcp/Decode.antt =====
-- src/lcp.c: `LcpDecodeConfig`, which judges the options of a request and adopts those of a Nak or a
-- Reject.
use mpdx.Common.{
  ℕ, ◌+◌, true, false, not, ◌==◌, ◌||◌, Option, none, some, List, [], ◌∷◌, ltb, if◌then◌else◌,
}
use mpdx.Fsm.Types.{Mode, req, FsmOption, Buffers}
use mpdx.Fsm.Options.{FsmOptInfo, find_opt_info}
use mpdx.Lcp.Types.{LinkInfo, Lcp}
use mpdx.Lcp.Request.{lcp_configure}
use mpdx.Lcp.Reply.{conf_opts, Reply, rej_it, no_reply, reply}
use mpdx.Lcp.Cases.{
  decode_accmap, decode_callback, decode_vendor, decode_mru, decode_auth, decode_mrru,
  decode_shortseq, decode_discrim, decode_magic, decode_protocomp, decode_acfcomp,
}

-- The `TY_` numbers that the switch of `LcpDecodeConfig` has a case for, and all others.
pub data OptionType : Type 0 where
  ty_vendor ty_mru ty_accmap ty_auth ty_magic ty_protocomp ty_acfcomp ty_callback ty_mrru
        ty_shortseq ty_discrim ty_other :
      OptionType

unfoldable pub option_type : ℕ → OptionType
option_type type =
    if type == 0
    then ty_vendor
    else if type == 1
    then ty_mru
    else if type == 2
    then ty_accmap
    else if type == 3
    then ty_auth
    else if type == 5
    then ty_magic
    else if type == 7
    then ty_protocomp
    else if type == 8
    then ty_acfcomp
    else if type == 13
    then ty_callback
    else if type == 17
    then ty_mrru
    else if type == 18
    then ty_shortseq
    else if type == 19
    then ty_discrim
    else ty_other

module _ (l : LinkInfo) where
  -- The switch over the type; any other fails its `assert`.
  unfoldable pub decode_type : OptionType → Mode → FsmOption → Lcp → Reply × Lcp
  unfolding decode_accmap decode_callback decode_vendor decode_mru decode_auth decode_mrru
      decode_shortseq decode_discrim decode_magic decode_protocomp decode_acfcomp
  decode_type ty_vendor mode o lcp = decode_vendor mode o lcp
  decode_type ty_mru mode o lcp = decode_mru l mode o lcp
  decode_type ty_accmap mode o lcp = decode_accmap mode o lcp
  decode_type ty_auth mode o lcp = decode_auth l mode o lcp
  decode_type ty_magic mode o lcp = decode_magic l mode o lcp
  decode_type ty_protocomp mode o lcp = decode_protocomp l mode o lcp
  decode_type ty_acfcomp mode o lcp = decode_acfcomp l mode o lcp
  decode_type ty_callback mode o lcp = decode_callback mode o lcp
  decode_type ty_mrru mode o lcp = decode_mrru l mode o lcp
  decode_type ty_shortseq mode o lcp = decode_shortseq l mode o lcp
  decode_type ty_discrim mode o lcp = decode_discrim l mode o lcp
  decode_type ty_other mode o lcp = (no_reply, record lcp { aborted = true })

  -- What an option that the table refuses gets.
  abbrev pub refuse_in : Mode → Lcp → Reply × Lcp
  refuse_in req lcp = (rej_it, lcp)
  refuse_in _ lcp = (no_reply, lcp)

  unfoldable pub decode_known : Option FsmOptInfo → Mode → FsmOption → Lcp → Reply × Lcp
  unfolding decode_type option_type
  decode_known none mode o lcp = refuse_in mode lcp
  decode_known (some i) mode o lcp =
      if not i.supported
      then refuse_in mode lcp
      else if ltb o.len (i.min_len + 2) || ltb (i.max_len + 2) o.len
      then refuse_in mode lcp
      else decode_type (option_type o.type) mode o lcp

  unfoldable pub decode_option : Mode → FsmOption → Lcp → Reply × Lcp
  unfolding decode_known
  decode_option mode o lcp = decode_known (find_opt_info conf_opts o.type) mode o lcp

  unfoldable pub decode_options : List FsmOption → Mode → Buffers → Lcp → Buffers × Lcp
  unfolding decode_option reply
  decode_options [] mode b lcp = (b, lcp)
  decode_options (o ∷ os) mode b lcp =
      let (answer, after) = decode_option mode o lcp in
      decode_options os mode (reply answer o b) after

  -- A request makes the layer forget the last one's values, or all of its own.
  unfoldable pub forget : Mode → Lcp → Lcp
  unfolding lcp_configure
  forget req lcp = if lcp.need_reset then lcp_configure l lcp else record lcp {
    peer_mru = l.phys_mtu;
    peer_accmap = 4294967295;
    peer_acfcomp = false;
    peer_protocomp = false;
    peer_magic = 0;
    peer_auth = 0;
    peer_alg = 0;
    peer_mrru = 0;
    peer_shortseq = false;
  }
  forget _ lcp = lcp

  -- `LcpDecodeConfig`.
  unfoldable pub lcp_decode_config : List FsmOption → Mode → Buffers → Lcp → Buffers × Lcp
  unfolding forget decode_options
  lcp_decode_config list mode b lcp = decode_options list mode b (forget mode lcp)

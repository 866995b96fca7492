-- ===== src/Ipcp/Decode.antt =====
-- src/ipcp.c: `IpcpDecodeConfig`.
use mpdx.Common.{
  ℕ, ◌-◌, Bool, not, ◌&&◌, ◌||◌, List, [], ◌∷◌, ◌++◌, leb, ◌==◌, if◌then◌else◌, set_bit, be16, be32,
  from_be,
}
use mpdx.Vars.{enabled, acceptable}
use mpdx.Ip.{ip4, ip_addr_in_range}
use mpdx.Fsm.Types.{Mode, req, nak, rej, nop, FsmOption, Buffers}
use mpdx.Fsm.Options.{fsm_ack, fsm_nak, fsm_rej}
use mpdx.Ipcp.Types.{VjComp, Servers, Ipcp, IpcpInfo, proto_vjcomp, pretend_ip, bit_of}

abbrev rejected_by_peer : FsmOption → Ipcp → Ipcp
rejected_by_peer o s = record s { peer_reject = set_bit (bit_of o.type) s.peer_reject }

-- `struct ipcpvjcomp` as an option's data.
abbrev pub vj_of : List ℕ → VjComp
vj_of (hi ∷ lo ∷ m ∷ c ∷ _) = record { proto = from_be 0 (hi ∷ lo ∷ []); maxchan = m; compcid = c }
vj_of _ = record { proto = 0; maxchan = 0; compcid = 0 }

abbrev pub vj_bytes : VjComp → List ℕ
vj_bytes v = be16 v.proto ++ v.maxchan ∷ v.compcid ∷ []

module _ (i : IpcpInfo) where
  -- `TY_IPADDR`. In a request: what is out of range is refused, or accepted with `pretend-ip`.
  unfoldable pub refuse_addr : ℕ → FsmOption → Buffers → Ipcp → Buffers × Ipcp
  refuse_addr ip o b s =
      if enabled i.options pretend_ip
      then (fsm_ack o b, record s { peer_addr = ip })
      else (fsm_nak (record o { bytes = be32 s.peer_addr }) b, s)

  unfoldable pub request_addr : ℕ → FsmOption → Buffers → Ipcp → Buffers × Ipcp
  unfolding refuse_addr ip_addr_in_range
  request_addr ip o b s =
      if not (ip_addr_in_range i.overlong s.peer_allow (ip4 ip)) || ip == 0
      then refuse_addr ip o b s
      else (fsm_ack o b, record s { peer_addr = ip })

  unfoldable pub nak_addr : ℕ → Ipcp → Ipcp
  unfolding ip_addr_in_range
  nak_addr ip s =
      if ip_addr_in_range i.overlong s.self_allow (ip4 ip) || enabled i.options pretend_ip
      then record s { want_addr = ip }
      else s

  unfoldable pub decode_addr : Mode → FsmOption → Buffers → Ipcp → Buffers × Ipcp
  unfolding request_addr nak_addr
  decode_addr req o b s = request_addr (from_be 0 o.bytes) o b s
  decode_addr nak o b s = (b, nak_addr (from_be 0 o.bytes) s)
  decode_addr rej o b s = (b, rejected_by_peer o s)
  decode_addr nop o b s = (b, s)

  -- `TY_COMPPROTO`.
  abbrev pub good_channels : ℕ → Bool
  good_channels m = leb m (i.max_channels - 1) && leb (i.min_channels - 1) m

  abbrev pub other_vj : FsmOption → FsmOption
  other_vj o = record o {
    bytes = vj_bytes (record { proto = proto_vjcomp; maxchan = i.max_channels - 1; compcid = 0 });
  }

  unfoldable pub request_vj : VjComp → FsmOption → Buffers → Ipcp → Buffers × Ipcp
  request_vj v o b s =
      if not (acceptable i.options 0) && not i.vjc_enable
      then (fsm_rej o b, s)
      else if v.proto == proto_vjcomp && good_channels v.maxchan
      then (fsm_ack o b, record s { peer_comp = v })
      else (fsm_nak (other_vj o) b, s)

  unfoldable pub nak_vj : VjComp → Ipcp → Ipcp
  nak_vj v s =
      if v.proto == proto_vjcomp && good_channels v.maxchan
      then record s { want_comp = record s.want_comp { maxchan = v.maxchan } }
      else s

  unfoldable pub decode_vj : Mode → FsmOption → Buffers → Ipcp → Buffers × Ipcp
  unfolding request_vj nak_vj
  decode_vj req o b s = request_vj (vj_of o.bytes) o b s
  decode_vj nak o b s = (b, nak_vj (vj_of o.bytes) s)
  decode_vj rej o b s =
      (b, record (rejected_by_peer o s) { want_comp = record s.want_comp { proto = 0 } })
  decode_vj nop o b s = (b, s)

  -- `doDnsNbns`, with the server for the peer and the place for ours.
  abbrev pub request_server : ℕ → FsmOption → Buffers → Ipcp → Buffers × Ipcp
  request_server ours o b s =
      if not (from_be 0 o.bytes == 0)
      then (fsm_ack o b, s)
      else if ours == 0
      then (fsm_rej o b, s)
      else (fsm_nak (record o { bytes = be32 ours }) b, s)

  unfoldable pub decode_server :
      ℕ → (ℕ → Servers → Servers) → Mode → FsmOption → Buffers → Ipcp → Buffers × Ipcp
  decode_server ours keep req o b s = request_server ours o b s
  decode_server ours keep nak o b s =
      (b, record s { want_servers = keep (from_be 0 o.bytes) s.want_servers })
  decode_server ours keep rej o b s = (b, rejected_by_peer o s)
  decode_server ours keep nop o b s = (b, s)

  abbrev pub or_own : ℕ → ℕ → ℕ
  or_own user own = if user == 0 then own else user

  abbrev pub refuse_in : Mode → FsmOption → Buffers → Ipcp → Buffers × Ipcp
  refuse_in req o b s = (fsm_rej o b, s)
  refuse_in _ o b s = (b, s)

  -- An option that `gIpcpConfOpts` supports, which has four bytes, by its type.
  unfoldable pub decode_sized : Mode → FsmOption → Buffers → Ipcp → Buffers × Ipcp
  unfolding decode_addr decode_vj decode_server
  decode_sized mode o b s =
      if o.type == 3
      then decode_addr mode o b s
      else if o.type == 2
      then decode_vj mode o b s
      else if o.type == 129
      then decode_server (or_own i.user_servers.dns i.servers.dns) (λ ip v. record v { dns = ip })
          mode o b s
      else if o.type == 130
      then decode_server (or_own i.user_servers.nbns i.servers.nbns)
          (λ ip v. record v { nbns = ip }) mode o b s
      else if o.type == 131
      then decode_server (or_own i.user_servers.dns2 i.servers.dns2)
          (λ ip v. record v { dns2 = ip }) mode o b s
      else if o.type == 132
      then decode_server (or_own i.user_servers.nbns2 i.servers.nbns2)
          (λ ip v. record v { nbns2 = ip }) mode o b s
      else refuse_in mode o b s

  unfoldable pub decode_option : Mode → FsmOption → Buffers → Ipcp → Buffers × Ipcp
  unfolding decode_sized
  decode_option mode o b s = if o.len == 6 then decode_sized mode o b s else refuse_in mode o b s

  -- `IpcpDecodeConfig`.
  unfoldable pub ipcp_decode_config : List FsmOption → Mode → Buffers → Ipcp → Buffers × Ipcp
  unfolding decode_option
  ipcp_decode_config [] mode b s = (b, s)
  ipcp_decode_config (o ∷ os) mode b s =
      let (replies, after) = decode_option mode o b s in ipcp_decode_config os mode replies after

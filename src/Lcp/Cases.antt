-- ===== src/Lcp/Cases.antt =====
-- src/lcp.c: the cases of the switch in `LcpDecodeConfig`, each for an option whose length was checked.
use mpdx.Common.{
  ℕ, ◌+◌, ◌-◌, true, false, not, ◌&&◌, ◌||◌, Option, none, some, ltb, leb, ◌==◌, if◌then◌else◌,
  take, drop, get_elem?, get_or, be16, be32, from_be,
}
use mpdx.Vars.{enabled, acceptable}
use mpdx.Fsm.Types.{Mode, req, nak, rej, nop, FsmOption}
use mpdx.Lcp.Types.{AuthProto, LinkInfo, Lcp}
use mpdx.Lcp.Request.{proto_chap, auth_protos, min_of}
use mpdx.Lcp.Reply.{
  Reply, ack_it, rej_it, no_reply, nak_it, peer_rej, peer_unrej, lcp_min_mru, rewrite_option,
  clear_at, first_proto, proto_pos, propose_proto, want_proto,
}

-- The number at the front of an option's data.
abbrev pub number : ℕ → FsmOption → ℕ
number n o = from_be 0 (take n o.bytes)

-- The Nak and Reject that only end a wish: `LCP_PEER_REJ` with no reply.
abbrev pub drop_wish : FsmOption → Lcp → Reply × Lcp
drop_wish o lcp = (no_reply, peer_rej o.type lcp)

unfoldable pub decode_accmap : Mode → FsmOption → Lcp → Reply × Lcp
decode_accmap req o lcp = (ack_it, record lcp { peer_accmap = number 4 o })
decode_accmap nak o lcp = (no_reply, record lcp { want_accmap = number 4 o })
decode_accmap rej o lcp = drop_wish o lcp
decode_accmap nop o lcp = (no_reply, lcp)

-- The callback and vendor options, which are never taken.
unfoldable pub decode_callback : Mode → FsmOption → Lcp → Reply × Lcp
decode_callback req o lcp = (rej_it, lcp)
decode_callback nop o lcp = (no_reply, lcp)
decode_callback _ o lcp = drop_wish o (record lcp { want_callback = false })

unfoldable pub decode_vendor : Mode → FsmOption → Lcp → Reply × Lcp
decode_vendor req o lcp = (rej_it, lcp)
decode_vendor nop o lcp = (no_reply, lcp)
decode_vendor _ o lcp = drop_wish o lcp

module _ (l : LinkInfo) where
  unfoldable pub decode_mru : Mode → FsmOption → Lcp → Reply × Lcp
  decode_mru req o lcp =
      if ltb (number 2 o) lcp_min_mru
      then (nak_it (rewrite_option (be16 lcp_min_mru) 2 o), lcp)
      else (ack_it, record lcp { peer_mru = min_of lcp.peer_mru (number 2 o) })
  decode_mru nak o lcp =
      if number 2 o == lcp.want_mru
      then drop_wish o lcp
      else if leb lcp_min_mru (number 2 o)
          && (leb (number 2 o) l.type_mru || ltb (number 2 o) lcp.want_mru)
      then (no_reply, record lcp { want_mru = number 2 o })
      else (no_reply, lcp)
  decode_mru rej o lcp = drop_wish o lcp
  decode_mru nop o lcp = (no_reply, lcp)

  -- A request to authenticate by a protocol of the table at `p`, or by none of them.
  unfoldable pub auth_requested : ℕ → FsmOption → Option AuthProto → Lcp → Reply × Lcp
  unfolding first_proto
  auth_requested proto o p lcp =
      if elim p [ none ↦ false | some q ↦ acceptable l.options q.conf ]
      then (
        ack_it,
        record lcp {
          peer_auth = proto;
          peer_alg = if proto == proto_chap then get_or o.bytes 2 0 else lcp.peer_alg;
        },
      )
      else propose_proto (first_proto lcp.peer_protos) lcp

  -- A Nak that proposes the protocol at `i` of the table.
  unfoldable pub auth_naked : ℕ → FsmOption → ℕ → Option AuthProto → Lcp → Lcp
  unfolding first_proto clear_at
  auth_naked proto o i none lcp = lcp
  auth_naked proto o i (some p) lcp =
      if enabled l.options p.conf
      then record lcp {
        want_auth = proto;
        want_alg = if proto == proto_chap then get_or o.bytes 2 0 else lcp.want_alg;
      }
      else (let protos = clear_at lcp.want_protos i in
          want_proto (first_proto protos) (record lcp { want_protos = protos }))

  unfoldable pub auth_at : Option ℕ → Option AuthProto
  auth_at none = none
  auth_at (some i) = get_elem? auth_protos i

  unfoldable pub decode_auth : Mode → FsmOption → Lcp → Reply × Lcp
  unfolding auth_requested auth_naked auth_at proto_pos
  decode_auth req o lcp =
      let proto = number 2 o in auth_requested proto o (auth_at (proto_pos proto o)) lcp
  decode_auth nak o lcp =
      let proto = number 2 o in
      let i : ℕ = elim (proto_pos proto o) [ none ↦ 0 | some i ↦ i ] in
      (no_reply, auth_naked proto o i (auth_at (proto_pos proto o)) lcp)
  decode_auth rej o lcp =
      drop_wish o
        (if l.originates && enabled l.options 13 then record lcp { want_auth = 0 } else lcp)
  decode_auth nop o lcp = (no_reply, lcp)

  -- A Nak on a bundle option lets the peer change its mind.
  unfoldable pub mrru_again : FsmOption → Lcp → Lcp
  mrru_again o lcp =
      if lcp.peer_reject o.type
      then (let back = peer_unrej o.type lcp in
          if enabled l.options 15 then record back { want_mrru = l.mrru } else back)
      else lcp

  unfoldable pub decode_mrru : Mode → FsmOption → Lcp → Reply × Lcp
  unfolding mrru_again
  decode_mrru req o lcp =
      if not (enabled l.options 15)
      then (rej_it, lcp)
      else if ltb (number 2 o) lcp_min_mru
      then (nak_it (rewrite_option (be16 lcp_min_mru) 2 o), lcp)
      else (ack_it, record lcp { peer_mrru = number 2 o })
  decode_mrru nak o lcp =
      let again = mrru_again o lcp in
      if ltb again.want_mrru (number 2 o) then (no_reply, again) else (
        no_reply,
        record again {
          want_mrru = if ltb (number 2 o) lcp_min_mru then lcp_min_mru else number 2 o;
        },
      )
  decode_mrru rej o lcp = drop_wish o (record lcp { want_mrru = 0 })
  decode_mrru nop o lcp = (no_reply, lcp)

  unfoldable pub decode_shortseq : Mode → FsmOption → Lcp → Reply × Lcp
  decode_shortseq req o lcp =
      if not (enabled l.options 15) || not (acceptable l.options 16)
      then (rej_it, lcp)
      else (ack_it, record lcp { peer_shortseq = true })
  decode_shortseq nak o lcp =
      if lcp.peer_reject o.type
      then (let back = peer_unrej o.type lcp in
          if enabled l.options 15
          then (no_reply, record back { want_shortseq = enabled l.options 16 })
          else (no_reply, back))
      else (no_reply, lcp)
  decode_shortseq rej o lcp = drop_wish o (record lcp { want_shortseq = false })
  decode_shortseq nop o lcp = (no_reply, lcp)

  -- The discriminator, whose length is checked once more.
  unfoldable pub decode_discrim : Mode → FsmOption → Lcp → Reply × Lcp
  decode_discrim mode o lcp =
      if ltb o.len 3 || ltb 50 o.len
      then elim mode [ req ↦ (rej_it, lcp) | _ ↦ (no_reply, lcp) ]
      else elim mode [
        | req ↦ (
          ack_it,
          record lcp {
            peer_discrim = record { class = get_or o.bytes 0 0; bytes = drop 1 o.bytes };
          },
        )
        | nak ↦ (no_reply, peer_unrej o.type lcp)
        | rej ↦ drop_wish o lcp
        | nop ↦ (no_reply, lcp)
      ]

  unfoldable pub decode_magic : Mode → FsmOption → Lcp → Reply × Lcp
  decode_magic req o lcp =
      if lcp.want_magic == 0
      then (rej_it, lcp)
      else if number 4 o == lcp.want_magic
      then (nak_it (rewrite_option (be32 (4294967295 - number 4 o)) 4 o), lcp)
      else (ack_it, record lcp { peer_magic = number 4 o })
  decode_magic nak o lcp =
      (no_reply, record lcp { want_magic = l.magics lcp.drawn; drawn = lcp.drawn + 1 })
  decode_magic rej o lcp = drop_wish o (record lcp { want_magic = 0 })
  decode_magic nop o lcp = (no_reply, lcp)

  unfoldable pub decode_protocomp : Mode → FsmOption → Lcp → Reply × Lcp
  decode_protocomp req o lcp =
      if acceptable l.options 7
      then (ack_it, record lcp { peer_protocomp = true })
      else (rej_it, lcp)
  decode_protocomp nop o lcp = (no_reply, lcp)
  decode_protocomp _ o lcp = drop_wish o (record lcp { want_protocomp = false })

  unfoldable pub decode_acfcomp : Mode → FsmOption → Lcp → Reply × Lcp
  decode_acfcomp req o lcp =
      if acceptable l.options 6 then (ack_it, record lcp { peer_acfcomp = true }) else (rej_it, lcp)
  decode_acfcomp nop o lcp = (no_reply, lcp)
  decode_acfcomp _ o lcp = drop_wish o (record lcp { want_acfcomp = false })

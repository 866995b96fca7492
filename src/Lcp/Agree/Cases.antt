-- ===== src/Lcp/Agree/Cases.antt =====
-- The cases of `LcpDecodeConfig` of src/lcp.c leave the phase alone and fail no `assert`.
use mpdx.Common.{
  ℕ, Bool, true, false, Option, none, some, List, [], ◌∷◌, ◌≡◌, refl, arith, if◌then◌else◌,
}
use mpdx.Vars.{enabled}
use mpdx.Fsm.Types.{Mode, req, nak, rej, nop, FsmOption}
use mpdx.Lcp.Types.{AuthProto, LinkInfo, Lcp}
use mpdx.Lcp.Reply.{
  Reply, auth_proto_nak, first_proto, propose, propose_proto, want_proto, peer_rej, peer_unrej,
  clear_at,
}
use mpdx.Lcp.Cases.{
  decode_accmap, decode_callback, decode_vendor, decode_mru, auth_requested, auth_naked,
  decode_auth, mrru_again, decode_mrru, decode_shortseq, decode_discrim, decode_magic,
  decode_protocomp, decode_acfcomp,
}
use mpdx.Lcp.Agree.{is_some, AllNakable, Steady}
use mpdx.Lcp.Agree.Moves.{Steady-if}

-- The layer after an option.
abbrev pub after : Reply × Lcp → Lcp
after r = r.1

pub after-if :
    (b : Bool) (r q : Reply × Lcp) {lcp : Lcp}
    → Steady lcp (after r)
    → Steady lcp (after q)
    → Steady lcp (after (if b then r else q))
after-if true r q h k = h
after-if false r q h k = k

module _ (l : LinkInfo) where
  pub accmap-Steady :
      (mode : Mode) (o : FsmOption) (lcp : Lcp) → Steady lcp (after (decode_accmap mode o lcp))
  unfolding decode_accmap peer_rej
  accmap-Steady mode o lcp = record {
    phase = ground arith;
    aborted = ground arith;
    protos = ground arith;
  }

  pub callback-Steady :
      (mode : Mode) (o : FsmOption) (lcp : Lcp) → Steady lcp (after (decode_callback mode o lcp))
  unfolding decode_callback peer_rej
  callback-Steady mode o lcp = record {
    phase = ground arith;
    aborted = ground arith;
    protos = ground arith;
  }

  pub vendor-Steady :
      (mode : Mode) (o : FsmOption) (lcp : Lcp) → Steady lcp (after (decode_vendor mode o lcp))
  unfolding decode_vendor peer_rej
  vendor-Steady mode o lcp = record {
    phase = ground arith;
    aborted = ground arith;
    protos = ground arith;
  }

  pub mru-Steady :
      (mode : Mode) (o : FsmOption) (lcp : Lcp) → Steady lcp (after (decode_mru l mode o lcp))
  unfolding decode_mru peer_rej
  mru-Steady mode o lcp = record {
    phase = ground arith;
    aborted = ground arith;
    protos = ground arith;
  }

  pub mrru-Steady :
      (mode : Mode) (o : FsmOption) (lcp : Lcp) → Steady lcp (after (decode_mrru l mode o lcp))
  unfolding decode_mrru mrru_again peer_rej peer_unrej
  mrru-Steady mode o lcp = record {
    phase = ground arith;
    aborted = ground arith;
    protos = ground arith;
  }

  pub shortseq-Steady :
      (mode : Mode) (o : FsmOption) (lcp : Lcp) → Steady lcp (after (decode_shortseq l mode o lcp))
  unfolding decode_shortseq peer_rej peer_unrej
  shortseq-Steady mode o lcp = record {
    phase = ground arith;
    aborted = ground arith;
    protos = ground arith;
  }

  pub discrim-Steady :
      (mode : Mode) (o : FsmOption) (lcp : Lcp) → Steady lcp (after (decode_discrim l mode o lcp))
  unfolding decode_discrim peer_rej peer_unrej
  discrim-Steady mode o lcp = record {
    phase = ground arith;
    aborted = ground arith;
    protos = ground arith;
  }

  pub magic-Steady :
      (mode : Mode) (o : FsmOption) (lcp : Lcp) → Steady lcp (after (decode_magic l mode o lcp))
  unfolding decode_magic peer_rej
  magic-Steady mode o lcp = record {
    phase = ground arith;
    aborted = ground arith;
    protos = ground arith;
  }

  pub protocomp-Steady :
      (mode : Mode) (o : FsmOption) (lcp : Lcp) → Steady lcp (after (decode_protocomp l mode o lcp))
  unfolding decode_protocomp peer_rej
  protocomp-Steady mode o lcp = record {
    phase = ground arith;
    aborted = ground arith;
    protos = ground arith;
  }

  pub acfcomp-Steady :
      (mode : Mode) (o : FsmOption) (lcp : Lcp) → Steady lcp (after (decode_acfcomp l mode o lcp))
  unfolding decode_acfcomp peer_rej
  acfcomp-Steady mode o lcp = record {
    phase = ground arith;
    aborted = ground arith;
    protos = ground arith;
  }

  pub proposed-Steady :
      (protos : List (Option AuthProto)) (lcp : Lcp)
      → AllNakable protos
      → Steady lcp (after (propose_proto (first_proto protos) lcp))
  unfolding first_proto
  proposed-Steady [] lcp h = record { phase = refl; aborted = refl; protos = refl }
  proposed-Steady (none ∷ ps) lcp h = proposed-Steady ps lcp h
  proposed-Steady (some p ∷ ps) lcp (h, _) = found (auth_proto_nak p.proto p.alg) h
    where
      found : (o : Option FsmOption) → is_some o ≡ true → Steady lcp (after (propose o lcp))
      found none e = absurd (ground arith)
      found (some o) e = record { phase = refl; aborted = refl; protos = refl }

  pub wanted-Steady : (p : Option AuthProto) (lcp : Lcp) → Steady lcp (want_proto p lcp)
  wanted-Steady none lcp = record { phase = refl; aborted = refl; protos = refl }
  wanted-Steady (some p) lcp = record { phase = refl; aborted = refl; protos = refl }

  pub naked-Steady :
      (proto : ℕ) (o : FsmOption) (i : ℕ) (p : Option AuthProto) (lcp : Lcp)
      → Steady lcp (auth_naked l proto o i p lcp)
  unfolding auth_naked
  naked-Steady proto o i none lcp = record { phase = refl; aborted = refl; protos = refl }
  naked-Steady proto o i (some p) lcp =
      let protos = clear_at lcp.want_protos i in
      let w = wanted-Steady (first_proto protos) (record lcp { want_protos = protos }) in
      Steady-if (enabled l.options p.conf) (record { phase = refl; aborted = refl; protos = refl })
        (record { phase = w.phase; aborted = w.aborted; protos = w.protos })

  pub requested-Steady :
      (proto : ℕ) (o : FsmOption) (p : Option AuthProto) (lcp : Lcp)
      → AllNakable lcp.peer_protos
      → Steady lcp (after (auth_requested l proto o p lcp))
  unfolding auth_requested
  requested-Steady proto o p lcp h =
      after-if _ _ _ (record { phase = refl; aborted = refl; protos = refl })
        (proposed-Steady lcp.peer_protos lcp h)

  pub auth-Steady :
      (mode : Mode) (o : FsmOption) (lcp : Lcp)
      → AllNakable lcp.peer_protos
      → Steady lcp (after (decode_auth l mode o lcp))
  unfolding decode_auth peer_rej
  auth-Steady req o lcp h = requested-Steady _ o _ lcp h
  auth-Steady nak o lcp h = naked-Steady _ o _ _ lcp
  auth-Steady rej o lcp h = record {
    phase = ground arith;
    aborted = ground arith;
    protos = ground arith;
  }
  auth-Steady nop o lcp h = record { phase = refl; aborted = refl; protos = refl }

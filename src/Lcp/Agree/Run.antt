-- ===== src/Lcp/Agree/Run.antt =====
-- LCP in its machine, over the events of a link.
use mpdx.Common.{ℕ, Bool, true, false, not, Option, none, some, sym, List, [], ◌∷◌, ◌≡◌, refl}
use mpdx.Fsm.Types.{State, opened, FsmFail, Machine}
use mpdx.Fsm.Carry.{Carries, InStep}
use mpdx.Fsm.Carry.Step.{InStep-step}
use mpdx.Lcp.Types.{
  Phase, authenticate, network, NetLayer, auth_stop, phys_open, ng_init, LinkInfo, Lcp,
}
use mpdx.Lcp.Phase.{
  call, lcp_layer_start, lcp_layer_finish, lcp_layer_down, lcp_failure, lcp_recv_ident,
}
use mpdx.Lcp.Request.{lcp_build_config_req}
use mpdx.Lcp.Layer.{
  fail_layer_if, lcp_recv_proto_rej, lcp_type, lcp_machine, LinkEvent, machine, authenticated,
  link_step, link_run,
}
use mpdx.Lcp.Agree.{may_be_in, Agrees}
use mpdx.Lcp.Agree.Moves.{
  Agrees-Steady, Steady-if, Steady-call_if, new_state-Agrees, auth_result-Agrees,
}
use mpdx.Lcp.Agree.Options.{configure-Agrees, decode-Agrees}

module _ (l : LinkInfo) where
  layer_down-Agrees : (s : State) (lcp : Lcp) → Agrees s lcp → Agrees s (lcp_layer_down lcp)
  unfolding lcp_layer_down
  layer_down-Agrees s lcp a = marked lcp.phase
    where
      idle : Lcp
      idle = call auth_stop lcp

      marked :
          (p : Phase)
          → Agrees s (elim p [
            | authenticate ↦ record idle { need_reset = true }
            | network ↦ record idle { need_reset = true }
            | _ ↦ idle
          ])
      marked authenticate = record { phase = a.phase; alive = a.alive; nakable = a.nakable }
      marked network = record { phase = a.phase; alive = a.alive; nakable = a.nakable }
      marked _ = record { phase = a.phase; alive = a.alive; nakable = a.nakable }

  layer_start-Agrees : (s : State) (lcp : Lcp) → Agrees s lcp → Agrees s (lcp_layer_start l lcp)
  unfolding lcp_layer_start
  layer_start-Agrees s lcp a =
      Agrees-Steady (Steady-call_if (not l.open_timer_started) phys_open (call ng_init lcp))
        (record { phase = a.phase; alive = a.alive; nakable = a.nakable })

  layer_finish-Agrees : (s : State) (lcp : Lcp) → Agrees s lcp → Agrees s (lcp_layer_finish l lcp)
  unfolding lcp_layer_finish
  layer_finish-Agrees s lcp a =
      Agrees-Steady
        (Steady-if l.is_repeated (record { phase = refl; aborted = refl; protos = refl })
          (record { phase = refl; aborted = refl; protos = refl }))
        a

  failed_layer-Agrees :
      (b : Bool) (n : Option NetLayer) (s : State) (lcp : Lcp)
      → Agrees s lcp
      → Agrees s (fail_layer_if b n lcp)
  failed_layer-Agrees true (some n) s lcp a = record {
    phase = a.phase;
    alive = a.alive;
    nakable = a.nakable;
  }
  failed_layer-Agrees true none s lcp a = a
  failed_layer-Agrees false n s lcp a = a

  proto_rej-Agrees :
      (proto : ℕ) (body : List ℕ) (s : State) (lcp : Lcp)
      → Agrees s lcp
      → Agrees s (lcp_recv_proto_rej l proto body lcp).1
  unfolding lcp_recv_proto_rej
  proto_rej-Agrees proto body s lcp a = failed_layer-Agrees l.has_bundle _ s lcp a

  ident-Agrees :
      (body : List ℕ) (s : State) (lcp : Lcp) → Agrees s lcp → Agrees s (lcp_recv_ident body lcp)
  unfolding lcp_recv_ident
  ident-Agrees [] s lcp a = a
  ident-Agrees (b ∷ body) s lcp a = record { phase = a.phase; alive = a.alive; nakable = a.nakable }

  failure-Agrees :
      (why : FsmFail) (s : State) (lcp : Lcp) → Agrees s lcp → Agrees s (lcp_failure why lcp)
  unfolding lcp_failure
  failure-Agrees why s lcp a = record { phase = a.phase; alive = a.alive; nakable = a.nakable }

  build-Agrees : (s : State) (lcp : Lcp) → Agrees s lcp → Agrees s (lcp_build_config_req l lcp).1
  unfolding lcp_build_config_req
  build-Agrees s lcp a = a

  lcp-Carries : Carries (lcp_type l) Agrees
  unfolding lcp_type
  lcp-Carries = record {
    keeps_new_state = new_state-Agrees l;
    layer_up = tt;
    layer_down = layer_down-Agrees;
    layer_start = layer_start-Agrees;
    layer_finish = layer_finish-Agrees;
    build = build-Agrees;
    decode = decode-Agrees l;
    configure = configure-Agrees l;
    un_configure = tt;
    keeps_terminate_req = tt;
    keeps_terminate_ack = tt;
    code_rej = tt;
    proto_rej = proto_rej-Agrees;
    failure = failure-Agrees;
    reset_req = tt;
    reset_ack = tt;
    ident = ident-Agrees;
    disc_req = tt;
    time_remain = tt;
    vendor = tt;
    peer_disc = λ s c a. record { phase = a.phase; alive = a.alive; nakable = a.nakable };
  }

  lcp_machine-InStep : InStep Agrees (lcp_machine l)
  unfolding lcp_machine may_be_in
  lcp_machine-InStep = record { kept = record { phase = refl; alive = refl; nakable = tt } }

  -- The results of authentication come while the machine is opened: `LcpNewState` starts the
  -- authentication there, and `LcpLayerDown` stops it.
  abbrev pub MayHappen : LinkEvent → Machine Lcp → Type 0
  MayHappen (machine e) m = Unit {0}
  MayHappen (authenticated ok) m = m.state ≡ opened

  abbrev pub AllMayHappen : List LinkEvent → Machine Lcp → Type 0
  AllMayHappen [] m = Unit {0}
  AllMayHappen (e ∷ es) m = MayHappen e m × AllMayHappen es (link_step l e m)

  InStep-link_step :
      (e : LinkEvent) (m : Machine Lcp)
      → MayHappen e m
      → InStep Agrees m
      → InStep Agrees (link_step l e m)
  unfolding link_step
  InStep-link_step (machine e) m h i = InStep-step (lcp_type l) lcp-Carries e m i
  InStep-link_step (authenticated ok) m h i = record {
    kept = rw h (auth_result-Agrees l ok m.layer (rw (sym h) i.kept));
  }

  InStep-link_run :
      (es : List LinkEvent) (m : Machine Lcp)
      → AllMayHappen es m
      → InStep Agrees m
      → InStep Agrees (link_run l es m)
  unfolding link_run
  InStep-link_run [] m h i = i
  InStep-link_run (e ∷ es) m (h, hs) i = InStep-link_run es _ hs (InStep-link_step e m h i)

  -- After any events of a link from its initialisation, where results of authentication come to an
  -- opened machine only, the link is in a phase that belongs to the state of its machine, and no
  -- `assert` of src/lcp.c has failed.
  pub link_run-phase :
      (es : List LinkEvent)
      → AllMayHappen es (lcp_machine l)
      → let m = link_run l es (lcp_machine l) in
        (may_be_in m.state m.layer.phase ≡ true) × (m.layer.aborted ≡ false)
  link_run-phase es h =
      let i = InStep-link_run es (lcp_machine l) h lcp_machine-InStep in
      (i.kept.phase, i.kept.alive)

-- ===== src/Fsm/View/Link.antt =====
-- The handlers of Fsm/Link.antt against the abstract machine.
use mpdx.Common.{
  ℕ, ◌+◌, not, ◌&&◌, Option, none, some, Bool, true, false, List, [], ◌≡◌, refl, sym, ap, ◌∙◌,
  arith, if◌then◌else◌, ◌==◌, drop, mul_ge16, u16, ltb,
}
use mpdx.Fsm.Types.{
  State, ack_rcvd, FsmFail, recd_badmagic, recd_coderej, recd_protrej, echo_timedout, FsmType,
  Machine,
}
use mpdx.Fsm.Core.{fsm_output, stop_echo_timer, is_opened}
use mpdx.Fsm.Events.{fsm_failure}
use mpdx.Fsm.Link.{
  with_bytes, with_id, send_echo_req, is_bad_magic, check_magic, recv_echo_req, recv_disc_req,
  recv_ident, recv_time_remain, recv_vendor, recv_reset_req, recv_reset_ack, rxj_plus_in,
  recv_rxj_plus, code_rej_verdict, recv_code_rej, proto_rej_verdict, recv_proto_rej, keep_alive,
  echo_timeout,
}
use mpdx.Fsm.View.{View, view, failed_by, rejected_by}
use mpdx.Fsm.View.Core.{view-new_state, view-fsm_output}
use mpdx.Fsm.View.Events.{view-fsm_failure}

-- Failing or staying, by a test.
abbrev pub failed_if : Bool → State → View → View
failed_if true s v = failed_by s v
failed_if false s v = v

abbrev pub rejected_if_not : Bool → State → View → View
rejected_if_not true s v = failed_by s v
rejected_if_not false s v = rejected_by s v

view-with_bytes :
    {C : Type 0} (h : Option (List ℕ → C → C)) (body : List ℕ) (m : Machine C)
    → view (with_bytes h body m) ≡ view m
unfolding view
view-with_bytes none body m = refl
view-with_bytes (some h) body m = refl

view-with_id :
    {C : Type 0} (h : Option (ℕ → List ℕ → C → C)) (id : ℕ) (body : List ℕ) (m : Machine C)
    → view (with_id h id body m) ≡ view m
unfolding view
view-with_id none id body m = refl
view-with_id (some h) id body m = refl

-- The machine with a new count of silent intervals, and whether that count is too high.
abbrev after_silence : {C : Type 0} → ℕ → Machine C → Machine C
after_silence frames m = record m {
  quiet_count = if ltb m.idle_frames frames then 0 else u16 (m.quiet_count + 1);
  idle_frames = frames;
}

abbrev is_late : {C : Type 0} → Machine C → Bool
is_late m =
    not (m.quiet_count == 0)
    && (not (m.quiet_count == 1) && mul_ge16 m.quiet_count m.conf.echo_int m.conf.echo_max)

view-after_silence :
    {C : Type 0} (frames : ℕ) (m : Machine C) → view m ≡ view (after_silence frames m)
unfolding view
view-after_silence frames m = refl

module _ {C : Type 0} (ty : FsmType C) where
  view-fail_if :
      (b : Bool) (why : FsmFail) (m : Machine C)
      → view (if b then fsm_failure ty why m else m) ≡ failed_if b m.state (view m)
  view-fail_if true why m = view-fsm_failure ty why m
  view-fail_if false why m = refl

  pub view-check_magic :
      (body : List ℕ) (m : Machine C)
      → view (check_magic ty body m) ≡ failed_if (is_bad_magic ty body m) m.state (view m)
  unfolding check_magic
  view-check_magic body m = view-fail_if (is_bad_magic ty body m) recd_badmagic m

  view-output_if :
      (b : Bool) (code id : ℕ) (payload : List ℕ) (m : Machine C)
      → view (if b then fsm_output ty code id payload m else m) ≡ view m
  view-output_if true code id payload m = view-fsm_output ty code id payload m
  view-output_if false code id payload m = refl

  pub view-recv_echo_req :
      (id : ℕ) (body : List ℕ) (m : Machine C)
      → view (recv_echo_req ty id body m) ≡ failed_if (is_bad_magic ty body m) m.state (view m)
  unfolding recv_echo_req
  view-recv_echo_req id body m =
      view-output_if (is_opened (check_magic ty body m).state) _ id _ (check_magic ty body m)
      ∙ view-check_magic body m

  pub view-recv_disc_req :
      (body : List ℕ) (m : Machine C)
      → view (recv_disc_req ty body m) ≡ failed_if (is_bad_magic ty body m) m.state (view m)
  unfolding recv_disc_req
  view-recv_disc_req body m =
      view-with_bytes ty.on_disc_req (drop 4 body) _ ∙ view-check_magic body m

  pub view-recv_ident :
      (body : List ℕ) (m : Machine C)
      → view (recv_ident ty body m) ≡ failed_if (is_bad_magic ty body m) m.state (view m)
  unfolding recv_ident
  view-recv_ident body m = view-with_bytes ty.on_ident (drop 4 body) _ ∙ view-check_magic body m

  pub view-recv_time_remain :
      (body : List ℕ) (m : Machine C)
      → view (recv_time_remain ty body m) ≡ failed_if (is_bad_magic ty body m) m.state (view m)
  unfolding recv_time_remain
  view-recv_time_remain body m =
      view-with_bytes ty.on_time_remain (drop 4 body) _ ∙ view-check_magic body m

  pub view-recv_vendor :
      (body : List ℕ) (m : Machine C)
      → view (recv_vendor ty body m) ≡ failed_if (is_bad_magic ty body m) m.state (view m)
  unfolding recv_vendor
  view-recv_vendor body m = view-with_bytes ty.on_vendor (drop 4 body) _ ∙ view-check_magic body m

  pub view-recv_reset_req :
      (id : ℕ) (body : List ℕ) (m : Machine C) → view (recv_reset_req ty id body m) ≡ view m
  unfolding recv_reset_req
  view-recv_reset_req id body m = view-with_id ty.on_reset_req id body m

  pub view-recv_reset_ack :
      (id : ℕ) (body : List ℕ) (m : Machine C) → view (recv_reset_ack ty id body m) ≡ view m
  unfolding recv_reset_ack
  view-recv_reset_ack id body m = view-with_id ty.on_reset_ack id body m

  view-rxj_plus_in :
      (s : State) (m : Machine C) → view (rxj_plus_in ty s m) ≡ rejected_by s (view m)
  unfolding recv_rxj_plus
  view-rxj_plus_in ack_rcvd m = view-new_state ty _ m
  view-rxj_plus_in _ m = refl

  view-fail_or_tolerate :
      (b : Bool) (why : FsmFail) (m : Machine C)
      → view (if b then fsm_failure ty why m else recv_rxj_plus ty m)
        ≡ rejected_if_not b m.state (view m)
  unfolding recv_rxj_plus
  view-fail_or_tolerate true why m = view-fsm_failure ty why m
  view-fail_or_tolerate false why m = view-rxj_plus_in m.state m

  pub view-recv_code_rej :
      (body : List ℕ) (m : Machine C)
      → view (recv_code_rej ty body m)
        ≡ rejected_if_not (code_rej_verdict ty body m.layer).0 m.state (view m)
  unfolding recv_code_rej view
  view-recv_code_rej body m =
      view-fail_or_tolerate (code_rej_verdict ty body m.layer).0 recd_coderej
        (record m { layer = (code_rej_verdict ty body m.layer).1 })

  pub view-recv_proto_rej :
      (body : List ℕ) (m : Machine C)
      → view (recv_proto_rej ty body m)
        ≡ rejected_if_not (proto_rej_verdict ty m.state body m.layer).0 m.state (view m)
  unfolding recv_proto_rej view
  view-recv_proto_rej body m =
      view-fail_or_tolerate (proto_rej_verdict ty m.state body m.layer).0 recd_protrej
        (record m { layer = (proto_rej_verdict ty m.state body m.layer).1 })

  pub view-send_echo_req :
      (payload : List ℕ) (m : Machine C) → view (send_echo_req ty payload m) ≡ view m
  unfolding send_echo_req view fsm_output
  view-send_echo_req payload m = ground arith

  view-stop_echo_timer : (m : Machine C) → view (stop_echo_timer m) ≡ view m
  unfolding view stop_echo_timer
  view-stop_echo_timer m = refl

  view-give_up_echo :
      (b : Bool) (m : Machine C)
      → view (if b then fsm_failure ty echo_timedout (stop_echo_timer m) else send_echo_req ty [] m)
        ≡ failed_if b m.state (view m)
  unfolding stop_echo_timer view
  view-give_up_echo true m = view-fsm_failure ty echo_timedout _
  view-give_up_echo false m = view-send_echo_req [] m

  view-keep_alive :
      (m : Machine C) → view (keep_alive ty m) ≡ failed_if (is_late m) m.state (view m)
  unfolding echo_timeout
  view-keep_alive m =
      go (m.quiet_count == 0) (m.quiet_count == 1)
        (mul_ge16 m.quiet_count m.conf.echo_int m.conf.echo_max)
    where
      go :
          (nil one late : Bool)
          → view (
              if nil
              then m
              else if one
              then send_echo_req ty [] m
              else if late
              then fsm_failure ty echo_timedout (stop_echo_timer m)
              else send_echo_req ty [] m)
            ≡ failed_if (not nil && (not one && late)) m.state (view m)
      go true one late = refl
      go false true late = view-send_echo_req [] m
      go false false late = view-give_up_echo late m

  view-silence :
      (b : Bool) (old new : Machine C)
      → view old ≡ view new
      → old.state ≡ new.state
      → view (if b then keep_alive ty new else old)
        ≡ failed_if (b && is_late new) old.state (view old)
  view-silence false old new e f = refl
  view-silence true old new e f =
      view-keep_alive new
      ∙ ap (λ s. failed_if (is_late new) s (view new)) (sym f)
      ∙ ap (failed_if (is_late new) old.state) (sym e)

  -- Whether the keep-alive timer gives up after an interval with this many frames received.
  pub is_dead : ℕ → Machine C → Bool
  is_dead frames m = ty.has_bundle m.layer && is_late (after_silence frames m)

  pub view-echo_timeout :
      (frames : ℕ) (m : Machine C)
      → view (echo_timeout ty frames m) ≡ failed_if (is_dead frames m) m.state (view m)
  unfolding echo_timeout is_dead
  view-echo_timeout frames m =
      view-silence (ty.has_bundle m.layer) m (after_silence frames m) (view-after_silence frames m)
        refl

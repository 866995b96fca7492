-- ===== src/Lcp/Agree/Options.antt =====
-- The options that LCP decodes leave its phase alone and fail no `assert`: `LcpDecodeConfig` and
-- `LcpConfigure` of src/lcp.c.
use mpdx.Common.{
  ℕ, Bool, true, false, Option, none, some, List, [], ◌∷◌, ◌≡◌, refl, arith, if◌then◌else◌,
  Bool-cases, inl, inr,
}
use mpdx.Vars.{acceptable, Options}
use mpdx.Fsm.Types.{State, Mode, req, FsmOption, Buffers}
use mpdx.Fsm.Options.{FsmOptInfo, find_opt_info}
use mpdx.Lcp.Types.{AuthProto, LinkInfo, Lcp}
use mpdx.Lcp.Request.{by_strength, acceptable_protos, lcp_configure}
use mpdx.Lcp.Reply.{conf_opts, auth_proto_nak}
use mpdx.Lcp.Decode.{
  OptionType, ty_vendor, ty_mru, ty_accmap, ty_auth, ty_magic, ty_protocomp, ty_acfcomp,
  ty_callback, ty_mrru, ty_shortseq, ty_discrim, ty_other, option_type, decode_type, refuse_in,
  decode_known, decode_option, decode_options, forget, lcp_decode_config,
}
use mpdx.Lcp.Agree.{is_some, AllNakable, Agrees, Steady}
use mpdx.Lcp.Agree.Moves.{Agrees-Steady}
use mpdx.Lcp.Agree.Cases.{
  after, after-if, accmap-Steady, callback-Steady, vendor-Steady, mru-Steady, mrru-Steady,
  shortseq-Steady, discrim-Steady, magic-Steady, protocomp-Steady, acfcomp-Steady, auth-Steady,
}

-- The type is one that the switch has a case for.
unfoldable pub has_case : OptionType → Bool
has_case ty_other = false
has_case _ = true

unfoldable pub is_supported : Option FsmOptInfo → Bool
is_supported none = false
is_supported (some i) = i.supported

pub supported-has_case :
    (t : ℕ) → is_supported (find_opt_info conf_opts t) ≡ true → has_case (option_type t) ≡ true
unfolding is_supported find_opt_info has_case option_type
supported-has_case t h = ground arith

Agrees-if :
    (s : State) {c d : Lcp} (b : Bool) → Agrees s c → Agrees s d → Agrees s (if b then c else d)
Agrees-if s true h k = h
Agrees-if s false h k = k

abbrev Nakables : List AuthProto → Type 0
Nakables [] = Unit {0}
Nakables (p ∷ ps) = (is_some (auth_proto_nak p.proto p.alg) ≡ true) × Nakables ps

nakable_if :
    (b : Bool) (p : AuthProto) (ps : List (Option AuthProto))
    → is_some (auth_proto_nak p.proto p.alg) ≡ true
    → AllNakable ps
    → AllNakable ((if b then some p else none) ∷ ps)
nakable_if true p ps e h = (e, h)
nakable_if false p ps e h = h

acceptable-AllNakable :
    (o : Options) (ps : List AuthProto) → Nakables ps → AllNakable (acceptable_protos o ps)
unfolding acceptable_protos
acceptable-AllNakable o [] h = tt
acceptable-AllNakable o (p ∷ ps) (e, h) =
    nakable_if (acceptable o p.conf) p _ e (acceptable-AllNakable o ps h)

by_strength-Nakables : Nakables by_strength
unfolding auth_proto_nak
by_strength-Nakables = (refl, (refl, (refl, (refl, (refl, tt)))))

module _ (l : LinkInfo) where
  type-Steady :
      (t : OptionType) (mode : Mode) (o : FsmOption) (lcp : Lcp)
      → has_case t ≡ true
      → AllNakable lcp.peer_protos
      → Steady lcp (after (decode_type l t mode o lcp))
  unfolding decode_type has_case
  type-Steady ty_vendor mode o lcp e h = vendor-Steady l mode o lcp
  type-Steady ty_mru mode o lcp e h = mru-Steady l mode o lcp
  type-Steady ty_accmap mode o lcp e h = accmap-Steady l mode o lcp
  type-Steady ty_auth mode o lcp e h = auth-Steady l mode o lcp h
  type-Steady ty_magic mode o lcp e h = magic-Steady l mode o lcp
  type-Steady ty_protocomp mode o lcp e h = protocomp-Steady l mode o lcp
  type-Steady ty_acfcomp mode o lcp e h = acfcomp-Steady l mode o lcp
  type-Steady ty_callback mode o lcp e h = callback-Steady l mode o lcp
  type-Steady ty_mrru mode o lcp e h = mrru-Steady l mode o lcp
  type-Steady ty_shortseq mode o lcp e h = shortseq-Steady l mode o lcp
  type-Steady ty_discrim mode o lcp e h = discrim-Steady l mode o lcp
  type-Steady ty_other mode o lcp e h = absurd (ground arith)

  refused-Steady : (mode : Mode) (lcp : Lcp) → Steady lcp (after (refuse_in l mode lcp))
  refused-Steady req lcp = record { phase = refl; aborted = refl; protos = refl }
  refused-Steady _ lcp = record { phase = refl; aborted = refl; protos = refl }

  pub known-Steady :
      (i : Option FsmOptInfo) (mode : Mode) (o : FsmOption) (lcp : Lcp)
      → (is_supported i ≡ true → has_case (option_type o.type) ≡ true)
      → AllNakable lcp.peer_protos
      → Steady lcp (after (decode_known l i mode o lcp))
  unfolding decode_known is_supported
  known-Steady none mode o lcp e h = refused-Steady mode lcp
  known-Steady (some i) mode o lcp e h = elim (Bool-cases i.supported) [
    | inl s ↦ rw s (
        after-if _ _ _ (refused-Steady mode lcp)
          (type-Steady (option_type o.type) mode o lcp (e s) h))
    | inr s ↦ rw s (refused-Steady mode lcp)
  ]

  options-Agrees :
      (os : List FsmOption) (mode : Mode) (b : Buffers) (s : State) (lcp : Lcp)
      → Agrees s lcp
      → Agrees s (decode_options l os mode b lcp).1
  unfolding decode_options decode_option
  options-Agrees [] mode b s lcp a = a
  options-Agrees (o ∷ os) mode b s lcp a =
      options-Agrees os mode _ s _
        (Agrees-Steady (known-Steady _ mode o lcp (supported-has_case o.type) a.nakable) a)

  pub configure-Agrees : (s : State) (lcp : Lcp) → Agrees s lcp → Agrees s (lcp_configure l lcp)
  unfolding lcp_configure
  configure-Agrees s lcp a = record {
    phase = a.phase;
    alive = a.alive;
    nakable = acceptable-AllNakable l.options by_strength by_strength-Nakables;
  }

  pub forget-Agrees :
      (mode : Mode) (s : State) (lcp : Lcp) → Agrees s lcp → Agrees s (forget l mode lcp)
  unfolding forget
  forget-Agrees req s lcp a =
      Agrees-if s lcp.need_reset (configure-Agrees s lcp a)
        (record { phase = a.phase; alive = a.alive; nakable = a.nakable })
  forget-Agrees _ s lcp a = a

  pub decode-Agrees :
      (os : List FsmOption) (mode : Mode) (b : Buffers) (s : State) (lcp : Lcp)
      → Agrees s lcp
      → Agrees s (lcp_decode_config l os mode b lcp).1
  unfolding lcp_decode_config
  decode-Agrees os mode b s lcp a = options-Agrees os mode b s _ (forget-Agrees mode s lcp a)

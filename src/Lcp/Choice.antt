-- ===== src/Lcp/Choice.antt =====
-- The authentication protocol that LCP asks for: the loop of `LcpConfigure` of src/lcp.c, and the
-- `MODE_NAK` case of `TY_AUTHPROTO`.
use mpdx.Common.{
  ℕ, true, false, Option, none, some, List, [], ◌∷◌, ◌≡◌, refl, ap, ◌∙◌, if◌then◌else◌, ◌==◌,
  Bool-cases, inl, inr, get_elem?,
}
use mpdx.Vars.{Options, enabled}
use mpdx.Fsm.Types.{nak, FsmOption}
use mpdx.Lcp.Types.{AuthProto, LinkInfo, Lcp}
use mpdx.Lcp.Request.{chap_md5, chap_ms_v1, by_strength, choose_auth, lcp_configure}
use mpdx.Lcp.Reply.{first_proto, clear_at, want_proto, proto_pos}
use mpdx.Lcp.Cases.{auth_naked, auth_at, decode_auth}

-- The enabled protocols in their places.
unfoldable pub enabled_protos : Options → List AuthProto → List (Option AuthProto)
enabled_protos o [] = []
enabled_protos o (p ∷ ps) = (if enabled o p.conf then some p else none) ∷ enabled_protos o ps

-- The list without the first protocol in it.
unfoldable pub without_first : List (Option AuthProto) → List (Option AuthProto)
without_first [] = []
without_first (none ∷ ps) = none ∷ without_first ps
without_first (some p ∷ ps) = none ∷ ps

abbrev pub proto_or : Option AuthProto → ℕ → ℕ
proto_or none n = n
proto_or (some p) n = p.proto

abbrev pub alg_or : Option AuthProto → ℕ → ℕ
alg_or none n = n
alg_or (some p) n = p.alg

abbrev AllNonzero : List AuthProto → Type 0
AllNonzero [] = Unit {0}
AllNonzero (p ∷ ps) = ((p.proto == 0) ≡ false) × AllNonzero ps

chosen_already :
    (o : Options) (auth alg : ℕ) (ps : List AuthProto)
    → (auth == 0) ≡ false
    → choose_auth o auth alg ps ≡ (enabled_protos o ps, auth, alg)
unfolding choose_auth enabled_protos
chosen_already o auth alg [] h = refl
chosen_already o auth alg (p ∷ ps) h = elim (Bool-cases (enabled o p.conf)) [
  | inl e ↦ rw (e, h, chosen_already o auth alg ps h) refl
  | inr e ↦ rw (e, chosen_already o auth alg ps h) refl
]

choose-first :
    (o : Options) (ps : List AuthProto)
    → AllNonzero ps
    → let on = enabled_protos o ps in
      choose_auth o 0 0 ps
      ≡ (without_first on, proto_or (first_proto on) 0, alg_or (first_proto on) 0)
unfolding choose_auth enabled_protos without_first first_proto
choose-first o [] h = refl
choose-first o (p ∷ ps) (e, h) = elim (Bool-cases (enabled o p.conf)) [
  | inl on ↦ rw (on, chosen_already o p.proto p.alg ps e) refl
  | inr off ↦ rw (off, choose-first o ps h) refl
]

want_protos-wanted :
    (p : Option AuthProto) (lcp : Lcp) → (want_proto p lcp).want_protos ≡ lcp.want_protos
want_protos-wanted none lcp = refl
want_protos-wanted (some p) lcp = refl

want_protos-naked :
    (l : LinkInfo) (proto : ℕ) (o : FsmOption) (i : ℕ) (p : AuthProto) (lcp : Lcp)
    → enabled l.options p.conf ≡ false
    → (auth_naked l proto o i (some p) lcp).want_protos ≡ clear_at lcp.want_protos i
unfolding auth_naked
want_protos-naked l proto o i p lcp e =
    rw e (want_protos-wanted (first_proto (clear_at lcp.want_protos i)) _)

-- The option that proposes CHAP with MD5.
abbrev pub md5_option : FsmOption
md5_option = record { type = 3; len = 5; bytes = 194 ∷ 35 ∷ 5 ∷ [] }

module _ (l : LinkInfo) (lcp : Lcp) where
  -- `LcpConfigure` asks for the first enabled protocol in the order MS-CHAP v2, MS-CHAP v1, MD5, PAP,
  -- EAP, or for none where none is enabled, and keeps the other enabled ones to ask for later.
  pub configure_auth :
      let on = enabled_protos l.options by_strength in
      let n = lcp_configure l lcp in
      (n.want_auth ≡ proto_or (first_proto on) 0)
      × (n.want_alg ≡ alg_or (first_proto on) 0)
      × (n.want_protos ≡ without_first on)
  unfolding lcp_configure
  configure_auth =
      let e = choose-first l.options by_strength (refl, (refl, (refl, (refl, (refl, tt))))) in
      (ap (λ r. r.1) e, ap (λ r. r.2) e, ap (λ r. r.0) e)

  -- A Configure-Nak that proposes CHAP with MD5 to a link that has it disabled drops the enabled MS-CHAP v1
  -- from the protocols to ask for, where the link was configured with MS-CHAP v2 and v1 enabled.
  pub nak_drops_enabled :
      enabled l.options 3 ≡ true
      → enabled l.options 2 ≡ true
      → enabled l.options 1 ≡ false
      → let n = lcp_configure l lcp in
        (get_elem? n.want_protos 1 ≡ some (some chap_ms_v1))
        × (get_elem? (decode_auth l nak md5_option n).1.want_protos 1 ≡ some none)
  unfolding without_first enabled_protos decode_auth auth_at proto_pos clear_at
  nak_drops_enabled e3 e2 e1 =
      let n = lcp_configure l lcp in
      let (_, _, protos) = configure_auth in
      let naked = want_protos-naked l 49699 md5_option 1 chap_md5 n e1 in
      (
        ap (λ ps. get_elem? ps 1) protos ∙ rw (e3, e2) refl,
        ap (λ ps. get_elem? ps 1) naked ∙ rw (protos, e3) refl,
      )

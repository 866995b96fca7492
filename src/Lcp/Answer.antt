-- ===== src/Lcp/Answer.antt =====
-- The answer of LCP to a Configure-Request, `LcpDecodeConfig` of src/lcp.c in its request mode: every
-- option gets one of the three replies, and a request that nothing is refused of is acknowledged as it was.
use mpdx.Common.{
  ℕ, ◌+◌, ◌≤◌, Bool, true, false, Option, none, some, List, [], ◌∷◌, ◌++◌, ◌≡◌, refl, ◌∙◌, arith,
  if◌then◌else◌, length, length-append, leb, le→leb, ◌&&◌, Bool-cases, inl, inr,
}
use mathlib.Core.List.{append_assoc}
use mpdx.Fsm.Types.{req, FsmOption, Buffers}
use mpdx.Fsm.Options.{FsmOptInfo, buffer_size, option_bytes, add_option, fsm_ack, fsm_nak, fsm_rej}
use mpdx.Fsm.Options.RoundTrip.{IsExact}
use mpdx.Lcp.Types.{AuthProto, LinkInfo, Lcp}
use mpdx.Fsm.Receive.{fully_acked, is_empty}
use mpdx.Lcp.Agree.{is_some, AllNakable}
use mpdx.Lcp.Agree.Options.{has_case, is_supported}
use mpdx.Lcp.Reply.{
  auth_proto_nak, Reply, ack_it, rej_it, no_reply, nak_it, reply, first_proto, propose,
  propose_proto,
}
use mpdx.Lcp.Cases.{auth_requested, decode_auth}
use mpdx.Lcp.Decode.{
  OptionType, ty_vendor, ty_mru, ty_accmap, ty_auth, ty_magic, ty_protocomp, ty_acfcomp,
  ty_callback, ty_mrru, ty_shortseq, ty_discrim, ty_other, option_type, decode_type, decode_known,
}

-- The reply puts something into an empty buffer.
unfoldable pub answers : Reply → Bool
answers no_reply = false
answers (nak_it changed) = leb changed.len buffer_size
answers _ = true

nak-len :
    (proto alg : ℕ)
    → elim (auth_proto_nak proto alg) [ none ↦ true | some o ↦ leb o.len buffer_size ] ≡ true
unfolding auth_proto_nak
nak-len proto alg = ground arith

proposed-answers :
    (protos : List (Option AuthProto)) (lcp : Lcp)
    → AllNakable protos
    → answers (propose_proto (first_proto protos) lcp).0 ≡ true
unfolding first_proto answers
proposed-answers [] lcp h = refl
proposed-answers (none ∷ ps) lcp h = proposed-answers ps lcp h
proposed-answers (some p ∷ ps) lcp (h, _) =
    found (auth_proto_nak p.proto p.alg) h (nak-len p.proto p.alg)
  where
    found :
        (o : Option FsmOption)
        → is_some o ≡ true
        → elim o [ none ↦ true | some q ↦ leb q.len buffer_size ] ≡ true
        → answers (propose o lcp).0 ≡ true
    found none e f = absurd (ground arith)
    found (some o) e f = f

answers-if :
    (b : Bool) (r q : Reply × Lcp)
    → answers r.0 ≡ true
    → answers q.0 ≡ true
    → answers (if b then r else q).0 ≡ true
answers-if true r q h k = h
answers-if false r q h k = k

ack_it-answers : answers ack_it ≡ true
unfolding answers
ack_it-answers = refl

rej_it-answers : answers rej_it ≡ true
unfolding answers
rej_it-answers = refl

module _ (l : LinkInfo) where
  auth-answers :
      (o : FsmOption) (lcp : Lcp)
      → AllNakable lcp.peer_protos
      → answers (decode_auth l req o lcp).0 ≡ true
  unfolding decode_auth auth_requested
  auth-answers o lcp k = answers-if _ _ _ ack_it-answers (proposed-answers lcp.peer_protos lcp k)

  type-answers :
      (t : OptionType) (o : FsmOption) (lcp : Lcp)
      → has_case t ≡ true
      → o.len ≤ buffer_size
      → AllNakable lcp.peer_protos
      → answers (decode_type l t req o lcp).0 ≡ true
  unfolding answers has_case decode_type
  type-answers ty_vendor o lcp e h k = refl
  type-answers ty_mru o lcp e h k = ground arith
  type-answers ty_accmap o lcp e h k = refl
  type-answers ty_auth o lcp e h k = auth-answers o lcp k
  type-answers ty_magic o lcp e h k = ground arith
  type-answers ty_protocomp o lcp e h k = ground arith
  type-answers ty_acfcomp o lcp e h k = ground arith
  type-answers ty_callback o lcp e h k = refl
  type-answers ty_mrru o lcp e h k = ground arith
  type-answers ty_shortseq o lcp e h k = ground arith
  type-answers ty_discrim o lcp e h k = ground arith
  type-answers ty_other o lcp e h k = absurd (ground arith)

  pub known-answers :
      (i : Option FsmOptInfo) (o : FsmOption) (lcp : Lcp)
      → (is_supported i ≡ true → has_case (option_type o.type) ≡ true)
      → o.len ≤ buffer_size
      → AllNakable lcp.peer_protos
      → answers (decode_known l i req o lcp).0 ≡ true
  unfolding decode_known is_supported
  known-answers none o lcp e h k = rej_it-answers
  known-answers (some i) o lcp e h k = elim (Bool-cases i.supported) [
    | inl s ↦
        rw s (answers-if _ _ _ rej_it-answers (type-answers (option_type o.type) o lcp (e s) h k))
    | inr s ↦ rw s rej_it-answers
  ]

-- An option that fits a buffer is seen in it.
filled :
    (o : FsmOption) (buf : List ℕ)
    → leb o.len buffer_size ≡ true
    → is_empty (add_option o buf) ≡ false
unfolding fsm_ack
filled o [] h = ground arith
filled o (b ∷ buf) h = ground arith

kept_rejs :
    (naks rejs : List ℕ) → is_empty rejs ≡ false → (is_empty naks && is_empty rejs) ≡ true → ⊥
kept_rejs naks rejs h k = ground arith

kept_naks :
    (naks rejs : List ℕ) → is_empty naks ≡ false → (is_empty naks && is_empty rejs) ≡ true → ⊥
kept_naks naks rejs h k = ground arith

ack-acks :
    (o : FsmOption) (b : Buffers)
    → length b.acks + o.len ≤ buffer_size
    → (fsm_ack o b).acks ≡ b.acks ++ option_bytes o
unfolding fsm_ack
ack-acks o b h = ground arith

-- An acknowledged request: what the rest of it makes of the buffers, for one option more.
pub acked_after :
    (r : Reply) (o : FsmOption) (b final : Buffers) (tail : List ℕ)
    → answers r ≡ true
    → IsExact o
    → length b.acks + length (option_bytes o ++ tail) ≤ buffer_size
    → (length (reply r o b).acks + length tail ≤ buffer_size
        → (final.acks ≡ (reply r o b).acks ++ tail) × (fully_acked (reply r o b) ≡ true))
    → (final.acks ≡ b.acks ++ (option_bytes o ++ tail)) × (fully_acked b ≡ true)
unfolding reply answers
acked_after ack_it o b final tail e x h ih =
    let size = length-append {0} (option_bytes o) tail in
    let room = ack-acks o b (omega (arith, size)) in
    let (same, empty) =
      ih (rw room (omega (arith, size, length-append {0} b.acks (option_bytes o)))) in
    (same ∙ rw room (append_assoc b.acks (option_bytes o) tail), unfold fsm_ack in empty)
acked_after rej_it o b final tail e x h ih =
    let size = length-append {0} (option_bytes o) tail in
    let (same, empty) = ih (unfold fsm_rej in omega arith) in
    let fits = le→leb o.len buffer_size (omega (arith, size)) in
    absurd (kept_rejs b.naks (add_option o b.rejs) (filled o b.rejs fits) (unfold fsm_rej in empty))
acked_after no_reply o b final tail e x h ih = absurd (ground arith)
acked_after (nak_it c) o b final tail e x h ih =
    let size = length-append {0} (option_bytes o) tail in
    let (same, empty) = ih (unfold fsm_nak in omega arith) in
    absurd (kept_naks (add_option c b.naks) b.rejs (filled c b.naks e) (unfold fsm_nak in empty))

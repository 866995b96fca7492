-- ===== src/Lcp/Rejected.antt =====
-- The options that the peer has rejected, in the requests of LCP: `LcpDecodeConfig` in its reject mode and
-- `LcpBuildConfigReq` of src/lcp.c.
use mpdx.Common.{
  ℕ, ◌+◌, Bool, true, false, not, ◌&&◌, ◌||◌, Option, none, some, List, [], ◌∷◌, ◌++◌, ◌≡◌, ◌≢◌,
  arith, if◌then◌else◌, ltb,
}
use mpdx.Fsm.Types.{rej, FsmOption, Buffers}
use mpdx.Fsm.Options.{FsmOptInfo, find_opt_info}
use mpdx.Lcp.Types.{LinkInfo, Lcp}
use mpdx.Lcp.Request.{request_options}
use mpdx.Lcp.Reply.{Reply, conf_opts, peer_rej}
use mpdx.Lcp.Decode.{
  OptionType, ty_vendor, ty_mru, ty_accmap, ty_auth, ty_magic, ty_protocomp, ty_acfcomp,
  ty_callback, ty_mrru, ty_shortseq, ty_discrim, ty_other, option_type, decode_type, decode_known,
  decode_option, decode_options, lcp_decode_config,
}
use mpdx.Lcp.Requested.{has_option, request-without}

-- The options that the switch has a case for, of a size that the table and the case take.
unfoldable pub takes_size : OptionType → FsmOption → Bool
takes_size ty_discrim o = not (ltb o.len 3 || ltb 50 o.len)
takes_size ty_other o = false
takes_size _ o = true

unfoldable pub takes_row : Option FsmOptInfo → FsmOption → Bool
takes_row none o = false
takes_row (some i) o = i.supported && not (ltb o.len (i.min_len + 2) || ltb (i.max_len + 2) o.len)

unfoldable pub is_taken : FsmOption → Bool
unfolding takes_size takes_row
is_taken o = takes_size (option_type o.type) o && takes_row (find_opt_info conf_opts o.type) o

-- The options that an operation leaves rejected.
abbrev Keeps : Lcp → Lcp → Type 0
Keeps old new = (t : ℕ) → old.peer_reject t ≡ true → new.peer_reject t ≡ true

module _ (l : LinkInfo) where
  type-Keeps :
      (ty : OptionType) (o : FsmOption) (lcp : Lcp) → Keeps lcp (decode_type l ty rej o lcp).1
  unfolding decode_type peer_rej
  type-Keeps ty_vendor o lcp t h = ground arith
  type-Keeps ty_mru o lcp t h = ground arith
  type-Keeps ty_accmap o lcp t h = ground arith
  type-Keeps ty_auth o lcp t h = ground arith
  type-Keeps ty_magic o lcp t h = ground arith
  type-Keeps ty_protocomp o lcp t h = ground arith
  type-Keeps ty_acfcomp o lcp t h = ground arith
  type-Keeps ty_callback o lcp t h = ground arith
  type-Keeps ty_mrru o lcp t h = ground arith
  type-Keeps ty_shortseq o lcp t h = ground arith
  type-Keeps ty_discrim o lcp t h = ground arith
  type-Keeps ty_other o lcp t h = h

  known-Keeps :
      (i : Option FsmOptInfo) (o : FsmOption) (lcp : Lcp) → Keeps lcp (decode_known l i rej o lcp).1
  unfolding decode_known
  known-Keeps none o lcp t h = h
  known-Keeps (some i) o lcp t h = skip (not i.supported) _ _ h (
      skip (ltb o.len (i.min_len + 2) || ltb (i.max_len + 2) o.len) _ _ h
        (type-Keeps (option_type o.type) o lcp t h))
    where
      skip :
          (b : Bool) (r q : Reply × Lcp)
          → r.1.peer_reject t ≡ true
          → q.1.peer_reject t ≡ true
          → (if b then r else q).1.peer_reject t ≡ true
      skip true r q h k = h
      skip false r q h k = k

  type-rejects :
      (ty : OptionType) (o : FsmOption) (lcp : Lcp)
      → takes_size ty o ≡ true
      → (decode_type l ty rej o lcp).1.peer_reject o.type ≡ true
  unfolding decode_type peer_rej takes_size
  type-rejects ty_vendor o lcp h = ground arith
  type-rejects ty_mru o lcp h = ground arith
  type-rejects ty_accmap o lcp h = ground arith
  type-rejects ty_auth o lcp h = ground arith
  type-rejects ty_magic o lcp h = ground arith
  type-rejects ty_protocomp o lcp h = ground arith
  type-rejects ty_acfcomp o lcp h = ground arith
  type-rejects ty_callback o lcp h = ground arith
  type-rejects ty_mrru o lcp h = ground arith
  type-rejects ty_shortseq o lcp h = ground arith
  type-rejects ty_discrim o lcp h = ground arith
  type-rejects ty_other o lcp h = absurd (ground arith)

  known-rejects :
      (i : Option FsmOptInfo) (o : FsmOption) (lcp : Lcp)
      → takes_size (option_type o.type) o ≡ true
      → takes_row i o ≡ true
      → (decode_known l i rej o lcp).1.peer_reject o.type ≡ true
  unfolding decode_known takes_row
  known-rejects none o lcp e h = absurd (ground arith)
  known-rejects (some i) o lcp e h =
      let (supported, fits) = both i.supported _ h in
      rw (supported, fits) (type-rejects (option_type o.type) o lcp e)
    where
      both : (a b : Bool) → (a && not b) ≡ true → (a ≡ true) × (b ≡ false)
      both a b h = ground arith

  options-Keeps :
      (os : List FsmOption) (b : Buffers) (lcp : Lcp) → Keeps lcp (decode_options l os rej b lcp).1
  unfolding decode_options decode_option
  options-Keeps [] b lcp t h = h
  options-Keeps (o ∷ os) b lcp t h =
      options-Keeps os _ _ t (known-Keeps (find_opt_info conf_opts o.type) o lcp t h)

  options-rejects :
      (front : List FsmOption) (o : FsmOption) (back : List FsmOption) (b : Buffers) (lcp : Lcp)
      → is_taken o ≡ true
      → (decode_options l (front ++ o ∷ back) rej b lcp).1.peer_reject o.type ≡ true
  unfolding decode_options decode_option is_taken
  options-rejects [] o back b lcp h =
      let (size, fits) = both (takes_size (option_type o.type) o) _ h in
      options-Keeps back _ _ o.type (known-rejects (find_opt_info conf_opts o.type) o lcp size fits)
    where
      both : (a b : Bool) → (a && b) ≡ true → (a ≡ true) × (b ≡ true)
      both a b h = ground arith
  options-rejects (p ∷ front) o back b lcp h = options-rejects front o back _ _ h

  -- After a Configure-Reject that lists an option of a size that its case takes, the next
  -- Configure-Request does not have the option, unless it is the authentication protocol.
  pub rejected-not_requested :
      (front : List FsmOption) (o : FsmOption) (back : List FsmOption) (b : Buffers) (lcp : Lcp)
      → is_taken o ≡ true
      → o.type ≢ 3
      → let after = (lcp_decode_config l (front ++ o ∷ back) rej b lcp).1 in
        has_option o.type (request_options l after) ≡ false
  unfolding lcp_decode_config
  rejected-not_requested front o back b lcp h k =
      request-without l _ o.type (options-rejects front o back b lcp h) k

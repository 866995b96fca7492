-- ===== src/Ipv6cp/Identifiers.antt =====
-- The identifiers that src/ipv6cp.c takes and proposes.
use mpdx.Common.{
  ℕ, ◌+◌, ◌%◌, ◌/◌, ◌≤◌, ◌<◌, Bool, true, false, ◌&&◌, ◌≡◌, refl, arith, inl, inr, ◌⊎◌, ◌==◌,
  if◌then◌else◌,
}
use mpdx.Fsm.Types.{req, FsmOption, Buffers}
use mpdx.Fsm.Options.{fsm_ack, fsm_nak}
use mpdx.Ipv6cp.{
  Ipv6cp, BundInfo, nonzero_word, random_id, is_empty_id, same_id, create_random, propose_id,
  decode_intident,
}

some_byte :
    (b : ℕ)
    → 1 ≤ b
    → b < 4294967296
    → (b % 256 == 0 && b / 256 % 256 == 0 && b / 65536 % 256 == 0 && b / 16777216 % 256 == 0)
      ≡ false
some_byte b h k = ground arith

behind : (p q r s : Bool) → s ≡ false → (p && (q && (r && s))) ≡ false
behind p q r s h = ground arith

random_id-full : (a b : ℕ) → 1 ≤ b → b < 4294967296 → is_empty_id (random_id a b) ≡ false
unfolding is_empty_id random_id
random_id-full a b h k = ground (arith, some_byte b h k)

create_random-full : (i : BundInfo) (n : ℕ) → is_empty_id (create_random i n) ≡ false
unfolding create_random
create_random-full i n =
    random_id-full _ (nonzero_word (i.random (n + 1))) (omega arith) (omega arith)

-- What became of an option of a request: acknowledged, or proposed anew.
abbrev pub Judged : BundInfo → FsmOption → Buffers → Ipv6cp → Buffers × Ipv6cp → Type 0
Judged i o b s (replies, after) =
    (is_empty_id after.hisintid ≡ false)
    × ((replies ≡ fsm_nak (record o { bytes = after.hisintid }) b)
        ⊎ ((replies ≡ fsm_ack o b)
            × (after.hisintid ≡ o.bytes)
            × (same_id o.bytes s.myintid ≡ false)))

module _ (i : BundInfo) (o : FsmOption) (b : Buffers) (s : Ipv6cp) where
  proposed-Judged : Judged i o b s (propose_id i o b s)
  unfolding propose_id
  proposed-Judged = (create_random-full i s.drawn, inl refl)

  verdicts-Judged :
      (empty own : Bool)
      → is_empty_id o.bytes ≡ empty
      → same_id o.bytes s.myintid ≡ own
      → Judged i o b s (
          if empty
          then propose_id i o b s
          else if own
          then propose_id i o b s
          else (fsm_ack o b, record s { hisintid = o.bytes }))
  verdicts-Judged true own e f = proposed-Judged
  verdicts-Judged false true e f = proposed-Judged
  verdicts-Judged false false e f = (e, inr (refl, refl, f))

  -- The identifier that a request is judged by is never all zero: it is proposed to the peer in a Nak, or it
  -- is the request's own, which is acknowledged and is not ours.
  pub intident-Judged : Judged i o b s (decode_intident i req o b s)
  unfolding decode_intident
  intident-Judged = verdicts-Judged (is_empty_id o.bytes) (same_id o.bytes s.myintid) refl refl

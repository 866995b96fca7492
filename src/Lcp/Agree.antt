-- ===== src/Lcp/Agree.antt =====
-- What LCP keeps about its phase and the state of its machine: the phase that belongs to the state, and
-- that no `assert` of src/lcp.c has failed.
pub mod Moves
pub mod Cases
pub mod Options
pub mod Run
use mpdx.Common.{Bool, true, false, Option, none, some, List, [], ◌∷◌, ◌≡◌, refl}
use mpdx.Fsm.Types.{
  State, initial, starting, closed, stopped, closing, stopping, req_sent, ack_rcvd, ack_sent,
  opened,
}
use mpdx.Lcp.Types.{Phase, dead, establish, authenticate, network, terminate, AuthProto, Lcp}
use mpdx.Lcp.Reply.{auth_proto_nak}

-- The phases of RFC 1661, section 3.2, that a state of LCP may be in.
unfoldable pub may_be_in : State → Phase → Bool
may_be_in initial dead = true
may_be_in starting dead = true
may_be_in closed establish = true
may_be_in stopped establish = true
may_be_in req_sent establish = true
may_be_in ack_rcvd establish = true
may_be_in ack_sent establish = true
may_be_in closing terminate = true
may_be_in stopping terminate = true
may_be_in opened authenticate = true
may_be_in opened network = true
may_be_in _ _ = false

abbrev pub is_some : {A : Type 0} → Option A → Bool
is_some none = false
is_some (some x) = true

-- `LcpAuthProtoNak` has an option for every protocol of the list.
abbrev pub AllNakable : List (Option AuthProto) → Type 0
AllNakable [] = Unit {0}
AllNakable (none ∷ ps) = AllNakable ps
AllNakable (some p ∷ ps) = (is_some (auth_proto_nak p.proto p.alg) ≡ true) × AllNakable ps

pub record Agrees (s : State) (lcp : Lcp) : Type 0 where
  pub phase : may_be_in s lcp.phase ≡ true
  pub alive : lcp.aborted ≡ false
  pub nakable : AllNakable lcp.peer_protos

-- What most operations leave alone.
pub record Steady (old new : Lcp) : Type 0 where
  pub phase : new.phase ≡ old.phase
  pub aborted : new.aborted ≡ old.aborted
  pub protos : new.peer_protos ≡ old.peer_protos

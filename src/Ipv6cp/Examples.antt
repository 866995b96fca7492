-- ===== src/Ipv6cp/Examples.antt =====
-- A bundle whose peer asks for an identifier, and the property of src/ipv6cp.c at it.
use mpdx.Common.{◌+◌, true, none, [], ◌∷◌}
use mpdx.Fsm.Types.{req, FsmOption, Buffers}
use mpdx.Ipv6cp.{BundInfo, ipv6cp_init, decode_intident}
use mpdx.Ipv6cp.Identifiers.{Judged, intident-Judged}

abbrev bundle : BundInfo
bundle = record {
  ether = none;
  random = λ n. n + 5;
  retry_timeout = 2;
  has_bundle = true;
  stack = [];
}

abbrev asked : FsmOption
asked = record { type = 1; len = 10; bytes = 2 ∷ 0 ∷ 0 ∷ 0 ∷ 0 ∷ 0 ∷ 0 ∷ 7 ∷ [] }

abbrev no_replies : Buffers
no_replies = record { acks = []; naks = []; rejs = [] }

intident-Judged_example :
    Judged bundle asked no_replies
      (ipv6cp_init bundle)
      (decode_intident bundle req asked no_replies (ipv6cp_init bundle))
intident-Judged_example = intident-Judged bundle asked no_replies (ipv6cp_init bundle)

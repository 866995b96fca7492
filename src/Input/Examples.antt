-- ===== src/Input/Examples.antt =====
-- A link that is down, a bundle with a free first place, and the properties of src/input.c at them.
use mpdx.Common.{◌+◌, suc, true, false, none, some, [], ◌∷◌, ◌≡◌, refl, arith, ◌==◌}
use mpdx.Lcp.Types.{LinkInfo}
use mpdx.Lcp.Layer.{lcp_machine}
use mpdx.Input.{Link, Bund, over_bundle, input_link, input_frame}
use mpdx.Input.Gate.{may_become, input_link-may_become, over_bundle-lost}

abbrev settings : LinkInfo
settings = record {
  options = record { enable = λ k. false; accept = λ k. k == 6 };
  phys_mtu = 1500;
  phys_mru = 1500;
  phys_type_mru = 1500;
  type_mru = 1500;
  has_type = true;
  accmap = 0;
  mrru = 1600;
  originates = true;
  is_sync = true;
  self_discrim = record { class = 0; bytes = [] };
  is_repeated = false;
  has_ident = false;
  knows_remaining = false;
  retry_timeout = 2;
  has_bundle = false;
  open_timer_started = false;
  magics = λ k. k + 77;
  joins_bundle = true;
  stack = [];
}

abbrev idle : Link
idle = record { info = settings; lcp = lcp_machine settings }

abbrev bundle : Bund
bundle = record { options = settings.options; links = none ∷ some idle ∷ [] }

input_link-may_become_example :
    may_become idle.lcp.layer.phase (input_link (some bundle) idle 49187 (1 ∷ [])) ≡ true
input_link-may_become_example = input_link-may_become (some bundle) idle 49187 (1 ∷ [])

over_bundle-lost_example :
    input_frame 4 (suc 5) (over_bundle bundle) 49185 (7 ∷ 0 ∷ 0 ∷ 4 ∷ []) ≡ none
over_bundle-lost_example =
    over_bundle-lost 4 bundle (some idle ∷ []) 7 (0 ∷ 0 ∷ 4 ∷ []) (omega arith) refl none refl 5

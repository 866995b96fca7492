-- ===== src/Input.antt =====
-- src/input.c: where a frame that the netgraph node hands to the daemon goes, by its protocol and the phase
-- of its link.
pub mod Gate
pub mod Examples
use mpdx.Common.{
  ℕ, zero, suc, ◌+◌, ◌/◌, ◌%◌, Bool, true, false, ◌&&◌, ◌||◌, Option, none, some, List, [], ◌∷◌,
  ◌++◌, length, ltb, ◌==◌, if◌then◌else◌, u8, be16,
}
use mpdx.Vars.{Options, enabled}
use mpdx.Fsm.Types.{Code, code_rej, proto_rej, echo_req, echo_rep, Machine}
use mpdx.Fsm.Core.{code_number, fsm_output}
use mpdx.Fsm.Input.{fsm_input}
use mpdx.Lcp.Types.{Phase, dead, establish, authenticate, network, terminate, LinkInfo, Lcp}
use mpdx.Lcp.Layer.{lcp_type}

-- `struct linkst`: the settings of the link and its LCP machine.
pub record Link : Type 0 where
  pub info : LinkInfo
  pub lcp : Machine Lcp

-- `struct bundle`: its options, and `links`, where an unused place is NULL.
pub record Bund : Type 0 where
  pub options : Options
  pub links : List (Option Link)

-- `AuthInput`, `IpcpInput`, `Ipv6cpInput`, `CcpInput`, `EcpInput`.
pub data Engine : Type 0 where
  auth_input ipcp_input ipv6cp_input ccp_input ecp_input : Engine

-- What became of a frame: LCP took it and left the link so, an engine got the bytes, it was freed, a
-- Protocol-Reject left on a link, or it went back to the bundle's peer as an LCP frame.
pub data Outcome : Type 0 where
  handled : Link → Outcome
  given : Engine → List ℕ → Outcome
  freed : Outcome
  rejected : Link → Outcome
  echoed : List ℕ → Outcome

-- The arguments of `InputFrame`: a link, with its bundle if any, or a bundle alone.
pub data Source : Type 0 where
  over_link : Option Bund → Link → Source
  over_bundle : Bund → Source

-- `PROT_LINK_LAYER`.
abbrev pub is_link_layer : ℕ → Bool
is_link_layer proto = proto / 16384 % 4 == 3

-- `InputLinkCheck`.
unfoldable pub input_link_check : Phase → ℕ → Bool
input_link_check dead proto = false
input_link_check establish proto = proto == 49185
input_link_check authenticate proto = is_link_layer proto
input_link_check network proto = true
input_link_check terminate proto = proto == 49185

-- A protocol that the bundle may have enabled: its control packets go to the engine, its data is dropped.
unfoldable pub served : Bool → Bool → Engine → List ℕ → Option Outcome
served true true engine bytes = some (given engine bytes)
served true false engine bytes = some freed
served false _ engine bytes = none

-- `InputDispatch` for the protocols of a bundle.
unfoldable pub bundle_dispatch : Bund → ℕ → List ℕ → Option Outcome
unfolding served
bundle_dispatch b proto bytes =
    if proto == 32801 || proto == 33 || proto == 47 || proto == 45
    then served (enabled b.options 0) (proto == 32801) ipcp_input bytes
    else if proto == 32855 || proto == 87
    then served (enabled b.options 1) (proto == 32855) ipv6cp_input bytes
    else if proto == 33021 || proto == 253
    then served (enabled b.options 2) (proto == 33021) ccp_input bytes
    else if proto == 32851 || proto == 83
    then served (enabled b.options 3) (proto == 32851) ecp_input bytes
    else none

abbrev pub dispatch_on : Option Bund → ℕ → List ℕ → Option Outcome
dispatch_on none proto bytes = some freed
dispatch_on (some b) proto bytes = bundle_dispatch b proto bytes

-- `LcpInput`.
unfoldable pub lcp_input : List ℕ → Link → Link
lcp_input bytes l = record l { lcp = fsm_input (lcp_type l.info) bytes l.lcp }

-- `InputDispatch` with a link. A negative result is `none`.
unfoldable pub link_dispatch : Option Bund → Link → ℕ → List ℕ → Option Outcome
unfolding bundle_dispatch
link_dispatch b l proto bytes =
    if proto == 49185
    then some (handled (lcp_input bytes l))
    else if proto == 49187 || proto == 49699 || proto == 49703
    then some (given auth_input bytes)
    else if proto == 61
    then if enabled l.info.options 15 then some freed else none
    else dispatch_on b proto bytes

-- The Protocol-Reject at the end of `InputFrame`.
unfoldable pub reject_on : Link → ℕ → List ℕ → Link
reject_on l proto bytes =
    let sent =
      fsm_output (lcp_type l.info) (code_number proto_rej) l.lcp.rejid (be16 proto ++ bytes)
        l.lcp in
    record l { lcp = record sent { rejid = u8 (l.lcp.rejid + 1) } }

abbrev pub or_reject : Option Outcome → Outcome → Outcome
or_reject (some done) rejection = done
or_reject none rejection = rejection

-- `InputFrame` with a link.
unfoldable pub input_link : Option Bund → Link → ℕ → List ℕ → Outcome
unfolding link_dispatch input_link_check
input_link b l proto bytes =
    if input_link_check l.lcp.layer.phase proto
    then or_reject (link_dispatch b l proto bytes) (rejected (reject_on l proto bytes))
    else freed

abbrev pub is_network : Phase → Bool
is_network network = true
is_network _ = false

-- The search of `InputFrame` for a link to reject on.
unfoldable pub reject_over : List (Option Link) → ℕ → List ℕ → Outcome
reject_over [] proto bytes = freed
reject_over (none ∷ ls) proto bytes = reject_over ls proto bytes
reject_over (some l ∷ ls) proto bytes =
    let rest = reject_over ls proto bytes in
    if is_network l.lcp.layer.phase then rejected (reject_on l proto bytes) else rest

-- The loop of `InputMPLink`, whose body is the `if` behind it: it runs where the first place is NULL, and calls
-- `InputFrame` with that NULL, which `again` stands for.
abbrev pub first_place : Option Outcome → List (Option Link) → Option Outcome
first_place again [] = some freed
first_place again (none ∷ ls) = again
first_place again (some l ∷ ls) = some freed

module _ (pointer_size : ℕ) where
  -- `InputMPLink` for LCP. `sizeof(hdr)` is the size of a pointer.
  unfoldable pub mp_link_lcp : Option Outcome → Bund → List ℕ → Option Outcome
  mp_link_lcp again b [] = some freed
  mp_link_lcp again b (code ∷ bytes) =
      if ltb (length (code ∷ bytes)) pointer_size
      then some freed
      else if code == code_number code_rej || code == code_number proto_rej
      then first_place again b.links
      else if code == code_number echo_req
      then some (echoed (code_number echo_rep ∷ bytes))
      else some freed

  -- `InputMPLink`.
  unfoldable pub input_mp_link : Option Outcome → Bund → ℕ → List ℕ → Option Outcome
  unfolding mp_link_lcp
  input_mp_link again b proto bytes =
      if proto == 49185 then mp_link_lcp again b bytes else some freed

  -- `InputFrame`, on fuel for its call of itself through `InputMPLink`.
  unfoldable pub input_frame : ℕ → Source → ℕ → List ℕ → Option Outcome
  unfolding input_link input_mp_link reject_over
  input_frame zero source proto bytes = none
  input_frame (suc n) (over_link b l) proto bytes = some (input_link b l proto bytes)
  input_frame (suc n) (over_bundle b) proto bytes =
      let again = input_frame n (over_bundle b) proto bytes in
      if is_link_layer proto
      then input_mp_link again b proto bytes
      else some (or_reject (bundle_dispatch b proto bytes) (reject_over b.links proto bytes))

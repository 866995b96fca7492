-- ===== src/Ipv6cp.antt =====
-- src/ipv6cp.c: the negotiation of interface identifiers for IPv6, as a layer over the machine of src/fsm.c. An
-- identifier is its eight bytes.
pub mod Identifiers
pub mod Examples
use mpdx.Common.{
  ℕ, ◌+◌, ◌-◌, ◌*◌, ◌/◌, ◌%◌, Bool, true, false, not, ◌&&◌, ◌||◌, Option, none, some, List, [], ◌∷◌,
  ltb, ◌==◌, if◌then◌else◌, u32, Mask, no_bits, set_bit,
}
use mpdx.Fsm.Types.{Mode, req, nak, rej, nop, FsmFail, FsmOption, Buffers, FsmType}
use mpdx.Fsm.Options.{raw, conf_value, fsm_ack, fsm_nak, fsm_rej}

-- The calls to the bundle, newest first in the state: `BundNcpsStart`, `BundNcpsFinish`, `BundNcpsJoin`,
-- `BundNcpsLeave`, `NgFuncSetConfig` with the flag for IPv6, and `RecordLinkUpDownReason`.
pub data BundCall : Type 0 where
  ncps_start ncps_finish ncps_join ncps_leave : BundCall
  set_ipv6 : Bool → BundCall
  down_reason : FsmFail → BundCall

-- `struct ipv6cpstate` without its machine, and how many numbers were taken from `random`.
pub record Ipv6cp : Type 0 where
  pub myintid : List ℕ
  pub hisintid : List ℕ
  pub peer_reject : Mask
  pub drawn : ℕ
  pub calls : List BundCall

-- What the layer reads: the bytes that `GetEther` finds, if any, the numbers that `random` returns, and what
-- the machine reads from the bundle.
pub record BundInfo : Type 0 where
  pub ether : Option (ℕ × ℕ × ℕ × ℕ × ℕ × ℕ)
  pub random : ℕ → ℕ
  pub retry_timeout : ℕ
  pub has_bundle : Bool
  pub stack : List ℕ

abbrev pub call : BundCall → Ipv6cp → Ipv6cp
call c s = record s { calls = c ∷ s.calls }

-- `b ^ 0x02` and `b & 0xfd`.
abbrev pub flip_local : ℕ → ℕ
flip_local b = if b / 2 % 2 == 0 then b + 2 else b - 2

abbrev pub clear_local : ℕ → ℕ
clear_local b = b - b / 2 % 2 * 2

-- `(u_int32_t) random() % 0xFFFFFFFF + 1`.
abbrev pub nonzero_word : ℕ → ℕ
nonzero_word r = u32 r % 4294967295 + 1

-- The two random words as bytes, the low byte of a word first.
unfoldable pub random_id : ℕ → ℕ → List ℕ
random_id a b =
    clear_local (a % 256)
    ∷ (a / 256 % 256)
    ∷ (a / 65536 % 256)
    ∷ (a / 16777216 % 256)
    ∷ (b % 256)
    ∷ (b / 256 % 256)
    ∷ (b / 65536 % 256)
    ∷ (b / 16777216 % 256)
    ∷ []

-- All bytes are zero, and `bcmp` is zero.
unfoldable pub is_empty_id : List ℕ → Bool
is_empty_id [] = true
is_empty_id (b ∷ bs) = b == 0 && is_empty_id bs

unfoldable pub same_id : List ℕ → List ℕ → Bool
same_id [] [] = true
same_id (a ∷ xs) (b ∷ ys) = a == b && same_id xs ys
same_id _ _ = false

module _ (i : BundInfo) where
  -- `CreateInterfaceID` with random bytes, when `n` numbers were taken.
  unfoldable pub create_random : ℕ → List ℕ
  unfolding random_id
  create_random n = random_id (nonzero_word (i.random n)) (nonzero_word (i.random (n + 1)))

  -- `CreateInterfaceID(ipv6cp->myintid, 0)`: from the Ethernet address, or random.
  abbrev pub create_own : Option (ℕ × ℕ × ℕ × ℕ × ℕ × ℕ) → Ipv6cp → Ipv6cp
  create_own none s = record s { myintid = create_random s.drawn; drawn = s.drawn + 2 }
  create_own (some (a, b, c, d, e, f)) s = record s {
    myintid = flip_local a ∷ b ∷ c ∷ 255 ∷ 254 ∷ d ∷ e ∷ f ∷ [];
  }

  -- `Ipv6cpInit`.
  pub ipv6cp_init : Ipv6cp
  unfolding create_random
  ipv6cp_init = create_own i.ether (record {
    myintid = 0 ∷ 0 ∷ 0 ∷ 0 ∷ 0 ∷ 0 ∷ 0 ∷ 0 ∷ [];
    hisintid = 0 ∷ 0 ∷ 0 ∷ 0 ∷ 0 ∷ 0 ∷ 0 ∷ 0 ∷ [];
    peer_reject = no_bits;
    drawn = 0;
    calls = [];
  })

  -- A Nak with another identifier for the peer.
  unfoldable pub propose_id : FsmOption → Buffers → Ipv6cp → Buffers × Ipv6cp
  unfolding create_random
  propose_id o b s =
      let id = create_random s.drawn in
      (fsm_nak (record o { bytes = id }) b, record s { hisintid = id; drawn = s.drawn + 2 })

  -- The case of `TY_INTIDENT`.
  unfoldable pub decode_intident : Mode → FsmOption → Buffers → Ipv6cp → Buffers × Ipv6cp
  unfolding propose_id
  decode_intident req o b s =
      if is_empty_id o.bytes
      then propose_id o b s
      else if same_id o.bytes s.myintid
      then propose_id o b s
      else (fsm_ack o b, record s { hisintid = o.bytes })
  decode_intident nak o b s = (b, record s { myintid = o.bytes })
  decode_intident rej o b s = (b, record s { peer_reject = set_bit o.type s.peer_reject })
  decode_intident nop o b s = (b, s)

  abbrev pub refuse_in : Mode → FsmOption → Buffers → Ipv6cp → Buffers × Ipv6cp
  refuse_in req o b s = (fsm_rej o b, s)
  refuse_in _ o b s = (b, s)

  -- An option by `gIpv6cpConfOpts`, where `TY_INTIDENT` has eight bytes and nothing else is supported.
  unfoldable pub decode_option : Mode → FsmOption → Buffers → Ipv6cp → Buffers × Ipv6cp
  unfolding decode_intident
  decode_option mode o b s =
      if o.type == 1 && o.len == 10 then decode_intident mode o b s else refuse_in mode o b s

  -- `Ipv6cpDecodeConfig`.
  unfoldable pub ipv6cp_decode_config : List FsmOption → Mode → Buffers → Ipv6cp → Buffers × Ipv6cp
  unfolding decode_option
  ipv6cp_decode_config [] mode b s = (b, s)
  ipv6cp_decode_config (o ∷ os) mode b s =
      let (replies, after) = decode_option mode o b s in ipv6cp_decode_config os mode replies after

-- `Ipv6cpBuildConfigReq`, `Ipv6cpConfigure`, `Ipv6cpFailure`.
unfoldable pub ipv6cp_build_config_req : Ipv6cp → List ℕ × Ipv6cp
ipv6cp_build_config_req s = (conf_value 1 (raw s.myintid), s)

pub ipv6cp_configure : Ipv6cp → Ipv6cp
ipv6cp_configure s = record s { peer_reject = no_bits }

pub ipv6cp_failure : FsmFail → Ipv6cp → Ipv6cp
ipv6cp_failure why = call (down_reason why)

-- `Ipv6cpLayerUp`, `Ipv6cpLayerDown`.
pub ipv6cp_layer_up : Ipv6cp → Ipv6cp
ipv6cp_layer_up s = call ncps_join (call (set_ipv6 true) s)

pub ipv6cp_layer_down : Ipv6cp → Ipv6cp
ipv6cp_layer_down s = call (set_ipv6 false) (call ncps_leave s)

-- `gIpv6cpFsmType`. Its codes are those from `CODE_CONFIGREQ` to `CODE_CODEREJ`, so the magic numbers are
-- not read; `Ipv6cpUnConfigure` does nothing.
pub ipv6cp_type : BundInfo → FsmType Ipv6cp
unfolding ipv6cp_build_config_req ipv6cp_configure ipv6cp_failure ipv6cp_layer_up ipv6cp_layer_down
    ipv6cp_decode_config
ipv6cp_type i = record {
  proto = 32855;
  known_codes = 254;
  link_layer = false;
  on_new_state = none;
  on_layer_up = some ipv6cp_layer_up;
  on_layer_down = some ipv6cp_layer_down;
  on_layer_start = some (call ncps_start);
  on_layer_finish = some (call ncps_finish);
  build_config_req = ipv6cp_build_config_req;
  decode_config = ipv6cp_decode_config i;
  configure = some ipv6cp_configure;
  un_configure = some (λ s. s);
  on_send_terminate_req = none;
  on_send_terminate_ack = none;
  on_code_rej = none;
  on_proto_rej = none;
  on_failure = some ipv6cp_failure;
  on_reset_req = none;
  on_reset_ack = none;
  on_ident = none;
  on_disc_req = none;
  on_time_remain = none;
  on_vendor = none;
  record_peer_disc = λ s. s;
  want_magic = λ s. 0;
  peer_magic = λ s. 0;
  retry_timeout = λ s. i.retry_timeout;
  has_bundle = λ s. i.has_bundle;
  stack = λ s. i.stack;
}

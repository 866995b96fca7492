-- ===== src/Fsm/Options.antt =====
-- The option codec of src/fsm.c: `FsmConfValue`, `FsmExtractOptions`, `FsmFindOptInfo`, and the
-- reply buffers that `FsmAck`, `FsmNak` and `FsmRej` fill.
pub mod RoundTrip
pub mod Extract
use mpdx.Common.{
  ℕ, zero, suc, ◌+◌, ◌-◌, ◌%◌, Bool, Option, none, some, List, [], ◌∷◌, ◌++◌, ◌||◌, length, take,
  drop, ltb, ◌==◌, if◌then◌else◌, u8, be16, be32,
}
use mpdx.Fsm.Types.{FsmOption, Buffers}

-- The `len` and `data` of `FsmConfValue`: raw bytes, or a host number for length -2 or -4.
pub data ConfData : Type 0 where
  raw : List ℕ → ConfData
  net16 net32 : ℕ → ConfData

unfoldable pub conf_bytes : ConfData → List ℕ
conf_bytes (raw bs) = bs
conf_bytes (net16 n) = be16 n
conf_bytes (net32 n) = be32 n

-- What `FsmConfValue` writes at `cp`.
pub conf_value : ℕ → ConfData → List ℕ
unfolding conf_bytes
conf_value type v = u8 type ∷ u8 (length (conf_bytes v) + 2) ∷ conf_bytes v

-- The loop, with `max - num` rounds left: the options, and the bytes where it stopped.
unfoldable pub extract_options : ℕ → List ℕ → List FsmOption × List ℕ
extract_options zero bytes = ([], bytes)
extract_options (suc left) (type ∷ len ∷ rest) =
    let (opts, garbage) = extract_options left (drop (len - 2) rest) in
    if ltb len 2 || ltb (length rest + 2) len
    then ([], type ∷ len ∷ rest)
    else (record { type = type; len = len; bytes = take (len - 2) rest } ∷ opts, garbage)
extract_options (suc left) bytes = ([], bytes)

-- `struct fsmoptinfo`; the list ends where the code's has a NULL name.
pub record FsmOptInfo : Type 0 where
  pub type : ℕ
  pub min_len : ℕ
  pub max_len : ℕ
  pub supported : Bool

unfoldable pub find_opt_info : List FsmOptInfo → ℕ → Option FsmOptInfo
find_opt_info [] type = none
find_opt_info (i ∷ is) type = if i.type == type then some i else find_opt_info is type

abbrev pub buffer_size : ℕ
buffer_size = 256

-- The two header bytes and the data of an option.
abbrev pub option_bytes : FsmOption → List ℕ
option_bytes o = o.type ∷ o.len ∷ o.bytes

-- The body that the three functions share: a full buffer drops the option.
pub add_option : FsmOption → List ℕ → List ℕ
add_option o buf = if ltb buffer_size (length buf + o.len) then buf else buf ++ option_bytes o

unfoldable pub fsm_ack : FsmOption → Buffers → Buffers
unfolding add_option
fsm_ack o b = record b { acks = add_option o b.acks }

unfoldable pub fsm_nak : FsmOption → Buffers → Buffers
unfolding add_option
fsm_nak o b = record b { naks = add_option o b.naks }

unfoldable pub fsm_rej : FsmOption → Buffers → Buffers
unfolding add_option
fsm_rej o b = record b { rejs = add_option o b.rejs }

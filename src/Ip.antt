-- ===== src/Ip.antt =====
-- src/ip.c: IPv4 and IPv6 addresses, ranges and masks. An IPv4 address is its number in host order, an IPv6
-- address the list of its sixteen bytes.
pub mod Widths
pub mod Order
pub mod Prefix
pub mod Examples
use mpdx.Common.{
  ℕ, zero, suc, ◌+◌, ◌-◌, ◌*◌, ◌/◌, ◌%◌, ◌^◌, Bool, true, false, not, ◌&&◌, ◌||◌, Option, none,
  some, List, [], ◌∷◌, ltb, leb, ◌==◌, if◌then◌else◌, u8, u32,
}

-- `struct u_addr`, with the family `AF_UNSPEC`, `AF_INET` or `AF_INET6`.
pub data UAddr : Type 0 where
  unspec : UAddr
  ip4 : ℕ → UAddr
  ip6 : List ℕ → UAddr

-- `struct u_range`.
pub record URange : Type 0 where
  pub addr : UAddr
  pub width : ℕ

-- `x & (~0 << k)`.
abbrev pub and_high : ℕ → ℕ → ℕ
and_high k x = x / 2 ^ k * 2 ^ k

-- The byte of a mask that `IpAddrInRange` takes at index `i` where the width ends inside the byte. The shift
-- `~0 << (8 - width)` is undefined in C where the width is above 8: `overlong` is what the machine makes
-- of it on a width and a byte.
unfoldable pub masked_byte : (ℕ → ℕ → ℕ) → ℕ → ℕ → ℕ → ℕ
masked_byte overlong width i b =
    if width == i * 8 then 0 else if ltb 8 width then overlong width b else and_high (8 - width) b

-- The loop of `IpAddrInRange` at index `i`, over the bytes that are left.
unfoldable pub bytes_in_range : (ℕ → ℕ → ℕ) → ℕ → ℕ → List ℕ → List ℕ → Bool
unfolding masked_byte
bytes_in_range overlong width i (a ∷ xs) (b ∷ ys) =
    let rest = bytes_in_range overlong width (suc i) xs ys in
    if not (ltb i ((width + 7) / 8))
    then true
    else if ltb (i * 8 + 7) width
    then (a == b) && rest
    else (masked_byte overlong width i a == masked_byte overlong width i b) && rest
bytes_in_range overlong width i _ _ = true

-- `u_addrempty`, `u_rangeempty`, `u_rangehost`.
unfoldable pub all_zero : List ℕ → Bool
all_zero [] = true
all_zero (b ∷ bs) = b == 0 && all_zero bs

unfoldable pub u_addrempty : UAddr → Bool
unfolding all_zero
u_addrempty unspec = true
u_addrempty (ip4 n) = n == 0
u_addrempty (ip6 bs) = all_zero bs

unfoldable pub u_rangehost : URange → Bool
u_rangehost range = elim range.addr [
  | unspec ↦ false
  | ip4 n ↦ range.width == 32
  | ip6 bs ↦ range.width == 128
]

-- The cases of `IpAddrInRange`.
unfoldable pub in_width : (ℕ → ℕ → ℕ) → ℕ → UAddr → UAddr → Bool
unfolding bytes_in_range
in_width overlong width (ip4 r) (ip4 a) =
    if width == 0 then true else and_high (32 - width) a == and_high (32 - width) r
in_width overlong width (ip6 r) (ip6 a) = bytes_in_range overlong width 0 a r
in_width overlong width _ _ = false

-- `IpAddrInRange`: an empty range holds every address.
unfoldable pub ip_addr_in_range : (ℕ → ℕ → ℕ) → URange → UAddr → Bool
unfolding in_width u_addrempty
ip_addr_in_range overlong range addr =
    if u_addrempty range.addr then true else in_width overlong range.width range.addr addr

-- The results -1, 0 and 1 of the comparisons.
pub data Sign : Type 0 where
  less same more : Sign

abbrev pub compare_numbers : ℕ → ℕ → Sign → Sign
compare_numbers a b equal = if ltb a b then less else if a == b then equal else more

unfoldable pub compare_bytes : List ℕ → List ℕ → Sign
compare_bytes (a ∷ xs) (b ∷ ys) = compare_numbers a b (compare_bytes xs ys)
compare_bytes _ _ = same

-- The bytes of an IPv4 address in memory, read as a number of the host: `s_addr` on a machine that
-- puts the low byte first.
abbrev pub s_addr : ℕ → ℕ
s_addr n = n % 256 * 16777216 + n / 256 % 256 * 65536 + n / 65536 % 256 * 256 + n / 16777216 % 256

-- `u_addrcompare`; the numbers of the families grow from `AF_UNSPEC` over `AF_INET` to `AF_INET6`.
unfoldable pub u_addrcompare : UAddr → UAddr → Sign
unfolding compare_bytes
u_addrcompare unspec unspec = same
u_addrcompare unspec _ = less
u_addrcompare (ip4 a) unspec = more
u_addrcompare (ip4 a) (ip4 b) = compare_numbers (s_addr a) (s_addr b) same
u_addrcompare (ip4 a) (ip6 bs) = less
u_addrcompare (ip6 xs) (ip6 ys) = compare_bytes xs ys
u_addrcompare (ip6 xs) _ = more

-- `u_rangecompare`.
unfoldable pub u_rangecompare : URange → URange → Sign
unfolding u_addrcompare
u_rangecompare a b = compare_numbers a.width b.width (u_addrcompare a.addr b.addr)

-- The loop of `in_addrtowidth`, with `fuel` rounds left: `m <<= 1` while the highest bit is set.
unfoldable pub leading_ones : ℕ → ℕ → ℕ
leading_ones zero m = 0
leading_ones (suc fuel) m =
    let rest = leading_ones fuel (u32 (m * 2)) in
    if m / 2147483648 % 2 == 0 then 0 else u8 (rest + 1)

-- `in_addrtowidth`: 32 rounds shift all the bits out.
unfoldable pub in_addrtowidth : ℕ → ℕ
unfolding leading_ones
in_addrtowidth mask = leading_ones 33 (u32 mask)

-- `widthtoin_addr`: the shift by `32 - width` is undefined in C outside the widths 1 to 32.
unfoldable pub widthtoin_addr : ℕ → Option ℕ
widthtoin_addr width =
    if width == 0 || ltb 32 width then none else some (u32 (4294967295 * 2 ^ (32 - width)))

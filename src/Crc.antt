-- ===== src/Crc.antt =====
-- `Crc16` of src/util.c, the frame check sequence of PPP.
use Prim.Native.Nat.{bit_and, bit_xor}
use mpdx.Common.{
  ℕ, zero, suc, ◌-◌, ◌/◌, ◌%◌, ◌<◌, Bool, true, ◌&&◌, List, [], ◌∷◌, ◌++◌, ◌≡◌, refl, ◌∙◌, arith,
  get_or, ◌==◌, u8, u16, Bool-cases, inl, inr,
}

-- `Crc16Table`, in rows of 16.
abbrev crc16_rows : List (List ℕ)
crc16_rows =
    (0x0000 ∷ 0x1189 ∷ 0x2312 ∷ 0x329b ∷ 0x4624 ∷ 0x57ad ∷ 0x6536 ∷ 0x74bf ∷ 0x8c48 ∷ 0x9dc1
      ∷ 0xaf5a ∷ 0xbed3 ∷ 0xca6c ∷ 0xdbe5 ∷ 0xe97e ∷ 0xf8f7 ∷ [])
    ∷ (0x1081 ∷ 0x0108 ∷ 0x3393 ∷ 0x221a ∷ 0x56a5 ∷ 0x472c ∷ 0x75b7 ∷ 0x643e ∷ 0x9cc9 ∷ 0x8d40
        ∷ 0xbfdb ∷ 0xae52 ∷ 0xdaed ∷ 0xcb64 ∷ 0xf9ff ∷ 0xe876 ∷ [])
    ∷ (0x2102 ∷ 0x308b ∷ 0x0210 ∷ 0x1399 ∷ 0x6726 ∷ 0x76af ∷ 0x4434 ∷ 0x55bd ∷ 0xad4a ∷ 0xbcc3
        ∷ 0x8e58 ∷ 0x9fd1 ∷ 0xeb6e ∷ 0xfae7 ∷ 0xc87c ∷ 0xd9f5 ∷ [])
    ∷ (0x3183 ∷ 0x200a ∷ 0x1291 ∷ 0x0318 ∷ 0x77a7 ∷ 0x662e ∷ 0x54b5 ∷ 0x453c ∷ 0xbdcb ∷ 0xac42
        ∷ 0x9ed9 ∷ 0x8f50 ∷ 0xfbef ∷ 0xea66 ∷ 0xd8fd ∷ 0xc974 ∷ [])
    ∷ (0x4204 ∷ 0x538d ∷ 0x6116 ∷ 0x709f ∷ 0x0420 ∷ 0x15a9 ∷ 0x2732 ∷ 0x36bb ∷ 0xce4c ∷ 0xdfc5
        ∷ 0xed5e ∷ 0xfcd7 ∷ 0x8868 ∷ 0x99e1 ∷ 0xab7a ∷ 0xbaf3 ∷ [])
    ∷ (0x5285 ∷ 0x430c ∷ 0x7197 ∷ 0x601e ∷ 0x14a1 ∷ 0x0528 ∷ 0x37b3 ∷ 0x263a ∷ 0xdecd ∷ 0xcf44
        ∷ 0xfddf ∷ 0xec56 ∷ 0x98e9 ∷ 0x8960 ∷ 0xbbfb ∷ 0xaa72 ∷ [])
    ∷ (0x6306 ∷ 0x728f ∷ 0x4014 ∷ 0x519d ∷ 0x2522 ∷ 0x34ab ∷ 0x0630 ∷ 0x17b9 ∷ 0xef4e ∷ 0xfec7
        ∷ 0xcc5c ∷ 0xddd5 ∷ 0xa96a ∷ 0xb8e3 ∷ 0x8a78 ∷ 0x9bf1 ∷ [])
    ∷ (0x7387 ∷ 0x620e ∷ 0x5095 ∷ 0x411c ∷ 0x35a3 ∷ 0x242a ∷ 0x16b1 ∷ 0x0738 ∷ 0xffcf ∷ 0xee46
        ∷ 0xdcdd ∷ 0xcd54 ∷ 0xb9eb ∷ 0xa862 ∷ 0x9af9 ∷ 0x8b70 ∷ [])
    ∷ (0x8408 ∷ 0x9581 ∷ 0xa71a ∷ 0xb693 ∷ 0xc22c ∷ 0xd3a5 ∷ 0xe13e ∷ 0xf0b7 ∷ 0x0840 ∷ 0x19c9
        ∷ 0x2b52 ∷ 0x3adb ∷ 0x4e64 ∷ 0x5fed ∷ 0x6d76 ∷ 0x7cff ∷ [])
    ∷ (0x9489 ∷ 0x8500 ∷ 0xb79b ∷ 0xa612 ∷ 0xd2ad ∷ 0xc324 ∷ 0xf1bf ∷ 0xe036 ∷ 0x18c1 ∷ 0x0948
        ∷ 0x3bd3 ∷ 0x2a5a ∷ 0x5ee5 ∷ 0x4f6c ∷ 0x7df7 ∷ 0x6c7e ∷ [])
    ∷ (0xa50a ∷ 0xb483 ∷ 0x8618 ∷ 0x9791 ∷ 0xe32e ∷ 0xf2a7 ∷ 0xc03c ∷ 0xd1b5 ∷ 0x2942 ∷ 0x38cb
        ∷ 0x0a50 ∷ 0x1bd9 ∷ 0x6f66 ∷ 0x7eef ∷ 0x4c74 ∷ 0x5dfd ∷ [])
    ∷ (0xb58b ∷ 0xa402 ∷ 0x9699 ∷ 0x8710 ∷ 0xf3af ∷ 0xe226 ∷ 0xd0bd ∷ 0xc134 ∷ 0x39c3 ∷ 0x284a
        ∷ 0x1ad1 ∷ 0x0b58 ∷ 0x7fe7 ∷ 0x6e6e ∷ 0x5cf5 ∷ 0x4d7c ∷ [])
    ∷ (0xc60c ∷ 0xd785 ∷ 0xe51e ∷ 0xf497 ∷ 0x8028 ∷ 0x91a1 ∷ 0xa33a ∷ 0xb2b3 ∷ 0x4a44 ∷ 0x5bcd
        ∷ 0x6956 ∷ 0x78df ∷ 0x0c60 ∷ 0x1de9 ∷ 0x2f72 ∷ 0x3efb ∷ [])
    ∷ (0xd68d ∷ 0xc704 ∷ 0xf59f ∷ 0xe416 ∷ 0x90a9 ∷ 0x8120 ∷ 0xb3bb ∷ 0xa232 ∷ 0x5ac5 ∷ 0x4b4c
        ∷ 0x79d7 ∷ 0x685e ∷ 0x1ce1 ∷ 0x0d68 ∷ 0x3ff3 ∷ 0x2e7a ∷ [])
    ∷ (0xe70e ∷ 0xf687 ∷ 0xc41c ∷ 0xd595 ∷ 0xa12a ∷ 0xb0a3 ∷ 0x8238 ∷ 0x93b1 ∷ 0x6b46 ∷ 0x7acf
        ∷ 0x4854 ∷ 0x59dd ∷ 0x2d62 ∷ 0x3ceb ∷ 0x0e70 ∷ 0x1ff9 ∷ [])
    ∷ (0xf78f ∷ 0xe606 ∷ 0xd49d ∷ 0xc514 ∷ 0xb1ab ∷ 0xa022 ∷ 0x92b9 ∷ 0x8330 ∷ 0x7bc7 ∷ 0x6a4e
        ∷ 0x58d5 ∷ 0x495c ∷ 0x3de3 ∷ 0x2c6a ∷ 0x1ef1 ∷ 0x0f78 ∷ [])
    ∷ []

crc16_table : ℕ → ℕ
crc16_table i = get_or (get_or crc16_rows (i / 16) []) (i % 16) 0

-- The constants `PPP_INITFCS` and `PPP_GOODFCS`.
abbrev pub init_fcs : ℕ
init_fcs = 0xffff

abbrev pub good_fcs : ℕ
good_fcs = 0xf0b8

-- One round of the loop of `Crc16`.
crc16_byte : ℕ → ℕ → ℕ
unfolding crc16_table
crc16_byte crc b = u16 (bit_xor (crc / 256) (crc16_table (bit_and (bit_xor crc b) 0xff)))

-- `Crc16`.
unfoldable pub crc16 : ℕ → List ℕ → ℕ
unfolding crc16_byte
crc16 crc [] = crc
crc16 crc (b ∷ bs) = crc16 (crc16_byte crc b) bs

pub crc16-append : (crc : ℕ) (xs ys : List ℕ) → crc16 crc (xs ++ ys) ≡ crc16 (crc16 crc xs) ys
unfolding crc16
crc16-append crc [] ys = refl
crc16-append crc (x ∷ xs) ys = crc16-append (crc16_byte crc x) xs ys

pub crc16-lt : (crc : ℕ) (xs : List ℕ) → crc < 65536 → crc16 crc xs < 65536
unfolding crc16
crc16-lt crc [] h = h
crc16-lt crc (x ∷ xs) h = crc16-lt (crc16_byte crc x) xs (omega arith)

-- The two bytes that end a frame: the complement, low byte first.
abbrev pub fcs_bytes : ℕ → List ℕ
fcs_bytes fcs = u8 (65535 - fcs) ∷ ((65535 - fcs) / 256) ∷ []

-- Whether the first `n` check sequences end well.
all_good : ℕ → Bool
unfolding crc16
all_good zero = true
all_good (suc n) = crc16 n (fcs_bytes n) == good_fcs && all_good n

all_good_65536 : all_good 65536 ≡ true
unfolding all_good crc16
all_good_65536 = refl

all_good-lt : (n fcs : ℕ) → fcs < n → all_good n ≡ true → crc16 fcs (fcs_bytes fcs) ≡ good_fcs
unfolding all_good
all_good-lt zero fcs h k = absurd (omega arith)
all_good-lt (suc n) fcs h k = elim (Bool-cases (fcs == n)) [
  | inl e ↦ ground arith
  | inr e ↦ all_good-lt n fcs (ground arith) (ground arith)
]

pub crc16-fcs_bytes : (fcs : ℕ) → fcs < 65536 → crc16 fcs (fcs_bytes fcs) ≡ good_fcs
crc16-fcs_bytes fcs h = all_good-lt 65536 fcs h all_good_65536

-- Data, followed by the complement of its check sequence with the low byte first, checks as
-- `PPP_GOODFCS`.
pub frame_check :
    (bytes : List ℕ) → crc16 init_fcs (bytes ++ fcs_bytes (crc16 init_fcs bytes)) ≡ good_fcs
frame_check bytes =
    crc16-append init_fcs bytes (fcs_bytes (crc16 init_fcs bytes))
    ∙ crc16-fcs_bytes (crc16 init_fcs bytes) (crc16-lt init_fcs bytes (omega arith))

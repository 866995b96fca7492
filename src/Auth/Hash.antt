-- ===== src/Auth/Hash.antt =====
-- src/chap.c: challenges, hashes and the packets that hold them.
use mpdx.Common.{
  ℕ, zero, suc, ◌+◌, ◌-◌, ◌*◌, ◌/◌, ◌%◌, Bool, true, false, not, ◌&&◌, ◌||◌, Option, none, some,
  List, [], ◌∷◌, ◌++◌, length, take, drop, ltb, ◌==◌, if◌then◌else◌, u8,
}
use mpdx.Auth.Types.{
  c_string, first, same_bytes, AuthParams, AuthConf, Crypto, alg_md5, alg_msoft, alg_msoft_v2,
}

-- The bytes `random() & 0xff` from the `k`-th number on.
unfoldable pub random_bytes : (ℕ → ℕ) → ℕ → ℕ → List ℕ
random_bytes random k zero = []
random_bytes random k (suc n) = u8 (random k) ∷ random_bytes random (k + 1) n

-- `ChapGenRandom` for three bytes at least, when `k` numbers were taken.
unfoldable pub chap_gen_random : AuthConf → ℕ → ℕ → List ℕ
unfolding random_bytes
chap_gen_random e k n =
    (0x3b + e.originate % 4 * 64) ∷ 0x1e ∷ 0x68 ∷ random_bytes e.random k (n - 3)

-- What stands behind the last backslash.
unfoldable pub has_backslash : List ℕ → Bool
has_backslash [] = false
has_backslash (b ∷ bs) = b == 92 || has_backslash bs

unfoldable pub strip_domain : List ℕ → List ℕ
unfolding has_backslash
strip_domain [] = []
strip_domain (b ∷ bs) =
    let rest = strip_domain bs in if has_backslash bs then rest else if b == 92 then bs else b ∷ bs

-- `struct mschapvalue`, `struct mschapv2value`.
abbrev pub ms_value : List ℕ → List ℕ
ms_value nt_hash = first 24 [] ++ first 24 nt_hash ++ 1 ∷ []

abbrev pub ms_v2_value : List ℕ → List ℕ → List ℕ
ms_v2_value peer_chal nt_hash = first 16 peer_chal ++ first 8 [] ++ first 24 nt_hash ++ 0 ∷ []

abbrev pub nt_hash_of : List ℕ → List ℕ
nt_hash_of value = first 24 (drop 24 value)

-- `ChapHash`, where `peer_chal` is what the value holds as the peer's challenge. The bytes of an
-- `mschapv2value` that are not set where the hash is only compared are 0 here: `ChapHashAgree` does not read them.
unfoldable pub chap_hash :
    Crypto → AuthConf → ℕ → ℕ → List ℕ → List ℕ → List ℕ → List ℕ → Option (List ℕ)
unfolding strip_domain first
chap_hash c e alg id name secret challenge peer_chal =
    if alg == alg_md5
    then some (first 16 (c.md5 (u8 id ∷ secret ++ challenge)))
    else if alg == alg_msoft
    then some (ms_value (c.nt_challenge_response (first 8 (challenge ++ e.stack)) secret))
    else if alg == alg_msoft_v2
    then some (
        ms_v2_value peer_chal (
          c.generate_nt_response (first 16 (challenge ++ e.stack)) (first 16 peer_chal)
            (strip_domain name) secret))
    else none

-- `ChapHashAgree`.
unfoldable pub chap_hash_agree : ℕ → List ℕ → List ℕ → Bool
unfolding same_bytes first
chap_hash_agree alg self peer =
    if alg == alg_md5
    then same_bytes self peer
    else if alg == alg_msoft
    then length self == 49
      && length peer == 49
      && same_bytes (drop 48 self) (1 ∷ [])
      && same_bytes (drop 48 peer) (1 ∷ [])
      && same_bytes (nt_hash_of self) (nt_hash_of peer)
    else if alg == alg_msoft_v2
    then length self == 49 && length peer == 49 && same_bytes (nt_hash_of self) (nt_hash_of peer)
    else false

-- `ChapGetSecret`: the secret, and what it remembers.
unfoldable pub hashed_params : Crypto → List ℕ → AuthParams → AuthParams
hashed_params c password p =
    let hash = c.nt_password_hash password in
    if p.has_nt_hash then p else record p {
      nt_hash = hash;
      nt_hash_hash = c.nt_password_hash_hash hash;
      lm_hash = c.lm_password_hash password;
      has_nt_hash = true;
    }

unfoldable pub chap_get_secret : Crypto → ℕ → List ℕ → AuthParams → List ℕ × AuthParams
unfolding hashed_params
chap_get_secret c alg password p =
    let hashed = hashed_params c password p in
    if alg == alg_md5 then (password, p) else (hashed.nt_hash, hashed)

-- `ChapParsePkt`: the name and the value.
unfoldable pub chap_parse_pkt : List ℕ → Option (List ℕ × List ℕ)
unfolding c_string
chap_parse_pkt [] = none
chap_parse_pkt (n ∷ rest) =
    if n == 0 || ltb 64 n || ltb (length rest) n || ltb (n + 64) (length rest)
    then none
    else some (c_string (drop n rest), take n rest)

-- The test of the origination value in a challenge.
unfoldable pub is_own_origin : ℕ → List ℕ → Bool
is_own_origin originate (a ∷ b ∷ c ∷ rest) =
    a % 64 == 0x3b
    && b == 0x1e
    && c == 0x68
    && ((originate == 1 && not (a / 64 % 4 == 2)) || (originate == 2 && not (a / 64 % 4 == 1)))
is_own_origin originate _ = false

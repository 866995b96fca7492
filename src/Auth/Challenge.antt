-- ===== src/Auth/Challenge.antt =====
-- Challenges and the packets of src/chap.c that hold them: what is read, and what is never answered.
use mpdx.Common.{
  ℕ, zero, suc, ◌+◌, ◌-◌, ◌≤◌, true, some, List, [], ◌∷◌, ◌++◌, length, take, drop, length-take,
  length-drop, length-append, take-append, drop-append, take-append-drop, ◌≡◌, refl, sym, ap, ◌∙◌,
  ◌⊎◌, inl, inr, arith, u8,
}
use mpdx.Lcp.Types.{Lcp}
use mpdx.Auth.Types.{c_string, AuthData, Auth, AuthConf, Crypto}
use mpdx.Auth.Hash.{random_bytes, chap_gen_random, chap_parse_pkt, is_own_origin}
use mpdx.Auth.ChapInput.{take_challenge, chap_input}

pub length-random_bytes : (f : ℕ → ℕ) (k n : ℕ) → length (random_bytes f k n) ≡ n
unfolding random_bytes
length-random_bytes f k zero = refl
length-random_bytes f k (suc n) = omega (arith, length-random_bytes f (k + 1) n)

pub length-chap_gen_random : (e : AuthConf) (k n : ℕ) → 3 ≤ n → length (chap_gen_random e k n) ≡ n
unfolding chap_gen_random
length-chap_gen_random e k n h = omega (arith, length-random_bytes e.random k (n - 3))

-- What `chap_parse_pkt` makes of the packet of a value and a name.
pub parse-pkt :
    (value name : List ℕ)
    → 1 ≤ length value
    → length value ≤ 64
    → length name ≤ 64
    → chap_parse_pkt (u8 (length value) ∷ value ++ name) ≡ some (c_string name, value)
unfolding chap_parse_pkt
parse-pkt value name h k l = rw u8_short (
    ground (
      arith,
      length-append value name,
      take-append value name (length value) refl,
      drop-append value name (length value) refl,
    ))
  where
    u8_short : u8 (length value) ≡ length value
    u8_short = omega arith

parts :
    (n : ℕ) (rest name value : List ℕ)
    → chap_parse_pkt (n ∷ rest) ≡ some (name, value)
    → (1 ≤ n)
      × (n ≤ 64)
      × (n ≤ length rest)
      × (length rest ≤ n + 64)
      × (take n rest ≡ value)
      × (c_string (drop n rest) ≡ name)
unfolding chap_parse_pkt
parts n rest name value h =
    (ground arith, ground arith, ground arith, ground arith, ground arith, ground arith)

-- A packet that `ChapParsePkt` takes holds a value of 1 to 64 bytes and the rest of the packet, at most 64
-- bytes, up to a NUL, which is the name.
pub chap_parse_pkt_bounds :
    (pkt name value : List ℕ)
    → chap_parse_pkt pkt ≡ some (name, value)
    → (1 ≤ length value)
      × (length value ≤ 64)
      × ((rest : List ℕ) × (pkt ≡ length value ∷ value ++ rest)
          × (length rest ≤ 64)
          × (name ≡ c_string rest))
unfolding chap_parse_pkt
chap_parse_pkt_bounds [] name value h = cc
chap_parse_pkt_bounds (n ∷ rest) name value h =
    let (low, high, fits, tail, v, w) = parts n rest name value h in
    let e : length value ≡ n = omega (arith, ap length v, length-take n rest) in
    (
      omega arith,
      omega arith,
      (
        drop n rest,
        ground (arith, take-append-drop n rest),
        omega (arith, length-drop n rest),
        sym w,
      ),
    )

own_origin :
    (e : AuthConf) (k n : ℕ)
    → (e.originate ≡ 1) ⊎ (e.originate ≡ 2)
    → is_own_origin e.originate (chap_gen_random e k n) ≡ true
unfolding is_own_origin chap_gen_random
own_origin e k n (inl h) = rw h refl
own_origin e k n (inr h) = rw h refl

module _ (c : Crypto) (e from : AuthConf) (lcp : Lcp) (auth : AuthData) (a : Auth) (k n : ℕ)
    (name : List ℕ) where
  same_side :
      from.originate ≡ e.originate
      → (e.originate ≡ 1) ⊎ (e.originate ≡ 2)
      → is_own_origin e.originate (chap_gen_random from k n) ≡ true
  same_side s o = rw (← s) (own_origin from k n (rw s o))

  dropped :
      (b : Auth) (value : List ℕ)
      → is_own_origin e.originate value ≡ true
      → take_challenge c e lcp auth (some (c_string name, value)) b ≡ b
  unfolding take_challenge
  dropped b value own = ground arith

  abbrev renamed : Auth
  renamed = record a { chap = record a.chap { proto = auth.proto } }

  as_challenge :
      (pkt : List ℕ)
      → auth.code ≡ 1
      → chap_input c e lcp auth pkt a ≡ take_challenge c e lcp auth (chap_parse_pkt pkt) renamed
  unfolding chap_input
  as_challenge pkt code = simp code refl

  -- A challenge of 3 to 64 bytes that was made on a link of the same side, called or calling, as one's own, and
  -- that comes back with a name of at most 64 bytes, is not answered: nothing is sent and no state changes, but
  -- the protocol of the answers.
  pub chap_input-reflected :
      auth.code ≡ 1
      → from.originate ≡ e.originate
      → (e.originate ≡ 1) ⊎ (e.originate ≡ 2)
      → 3 ≤ n
      → n ≤ 64
      → length name ≤ 64
      → chap_input c e lcp auth (u8 n ∷ chap_gen_random from k n ++ name) a
        ≡ record a { chap = record a.chap { proto = auth.proto } }
  chap_input-reflected code s o low high short =
      let g = chap_gen_random from k n in
      let l = length-chap_gen_random from k n low in
      as_challenge (u8 n ∷ g ++ name) code
      ∙ ap (λ m. take_challenge c e lcp auth (chap_parse_pkt (u8 m ∷ g ++ name)) renamed) (sym l)
      ∙ ap (λ p. take_challenge c e lcp auth p renamed)
          (parse-pkt g name (omega (arith, l)) (omega (arith, l)) short)
      ∙ dropped renamed g (same_side s o)

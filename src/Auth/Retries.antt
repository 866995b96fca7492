-- ===== src/Auth/Retries.antt =====
-- The requests that src/pap.c sends while no reply comes.
use mpdx.Common.{
  ℕ, zero, suc, ◌+◌, Bool, false, List, [], ◌∷◌, ◌++◌, ◌≡◌, refl, arith, ltb, if◌then◌else◌,
}
use mpdx.Timer.{timer_expires, is_once}
use mpdx.Fsm.Core.{packet}
use mpdx.Auth.Types.{self_to_peer, Auth, AuthConf, AuthCall, write_frame, pap_proto}
use mpdx.Auth.Pap.{request_body, pap_start, pap_timeout}

abbrev pub is_waiting : Auth → Bool
is_waiting a = is_once a.pap.timer.event

-- A period of the timer of PAP passes: a timer that is pending fires, once, and the event library has
-- dropped it when `PapTimeout` runs.
unfoldable pub expire : AuthConf → Auth → Auth
unfolding pap_timeout timer_expires
expire e a =
    if is_waiting a
    then pap_timeout e (record a { pap = record a.pap { timer = timer_expires a.pap.timer } })
    else a

abbrev pub expirations : AuthConf → ℕ → Auth → Auth
unfolding expire
expirations e zero a = a
expirations e (suc n) a = expirations e n (expire e a)

-- The first `k` requests, the last one first: their identifiers are 1 to `k`.
abbrev pub requests : AuthConf → ℕ → List AuthCall
unfolding request_body
requests e zero = []
requests e (suc k) = write_frame pap_proto (packet 1 (suc k) (request_body e)) ∷ requests e k

expirations_off : (e : AuthConf) (n : ℕ) (a : Auth) → is_waiting a ≡ false → expirations e n a ≡ a
unfolding expire
expirations_off e zero a h = refl
expirations_off e (suc n) a h = rw h (expirations_off e n a h)

expirations_five :
    (e : AuthConf) (a : Auth)
    → ((expirations e 5 (pap_start e self_to_peer a)).calls ≡ requests e 5 ++ a.calls)
      × (is_waiting (expirations e 5 (pap_start e self_to_peer a)) ≡ false)
unfolding expire pap_start
expirations_five e a = (refl, refl)

-- A link that starts to authenticate itself by PAP, and gets no reply for `n` periods of its timer, has sent exactly
-- `n + 1` requests in them and nothing else, but five at most, with the identifiers 1, 2 and so on, the same name and
-- the same password. Its timer is pending just while `n` is below five.
pub pap_gives_up :
    (e : AuthConf) (a : Auth) (n : ℕ)
    → ((expirations e n (pap_start e self_to_peer a)).calls
        ≡ requests e (if ltb n 4 then n + 1 else 5) ++ a.calls)
      × (is_waiting (expirations e n (pap_start e self_to_peer a)) ≡ ltb n 5)
unfolding expire pap_start
pap_gives_up e a zero = (refl, refl)
pap_gives_up e a (suc zero) = (refl, refl)
pap_gives_up e a (suc (suc zero)) = (refl, refl)
pap_gives_up e a (suc (suc (suc zero))) = (refl, refl)
pap_gives_up e a (suc (suc (suc (suc zero)))) = (refl, refl)
pap_gives_up e a (suc (suc (suc (suc (suc n))))) =
    let five = expirations_five e a in
    let sent : ltb (suc (suc (suc (suc (suc n))))) 4 ≡ false = ground arith in
    let off : ltb (suc (suc (suc (suc (suc n))))) 5 ≡ false = ground arith in
    rw (expirations_off e n (expirations e 5 (pap_start e self_to_peer a)) five.1, sent, off) five

-- ===== src/Mbuf/Examples.antt =====
-- A buffer of 64 bytes with four of them in use.
use mpdx.Common.{ℕ, List, [], ◌∷◌, ◌++◌, ◌≡◌, some, arith}
use mpdx.Mbuf.{Mbuf, at, before, mbcopyback}
use mpdx.Mbuf.Access.{contents, IsValid}
use mpdx.Mbuf.Write.{overlay, mbcopyback_refines}

abbrev junk : ℕ → ℕ
junk i = 0xee

abbrev buffer : Mbuf
buffer = record { size = 64; offset = 2; cnt = 4; memory = λ i. i }

abbrev header : List ℕ
header = 1 ∷ 2 ∷ 3 ∷ []

mbcopyback_refines_example :
    (contents (mbcopyback junk (some buffer) (at 2) header) ≡ overlay 2 header (contents buffer))
    × IsValid (some (mbcopyback junk (some buffer) (at 2) header))
    × (contents (mbcopyback junk (some buffer) (before 3) header) ≡ header ++ contents buffer)
    × IsValid (some (mbcopyback junk (some buffer) (before 3) header))
mbcopyback_refines_example = mbcopyback_refines junk buffer 2 header (omega arith)

-- ===== src/Ippool/Allocation.antt =====
-- src/ippool.c and src/mbuf.c: the memory that `IPPoolAdd` asks for, on a machine with pointers of eight bytes.
use mpdx.Common.{
  ℕ, ◌+◌, ◌-◌, ◌*◌, ◌%◌, ◌≤◌, ◌<◌, Bool, true, false, not, ◌||◌, ◌≡◌, refl, ◌∙◌, arith, ltb,
  if◌then◌else◌, Bool-cases, inl, inr,
}
use mpdx.Ippool.{
  int_min, Added, done, exits, overrun, Memory, size_t, int_to_size, rec_size, allocate,
}

abbrev pub two_63 : ℕ
two_63 = 9223372036854775808

abbrev pub two_64 : ℕ
two_64 = 18446744073709551616

by_gift {ℓ} :
    {A : Type ℓ} (b : Bool) (x : Added A) → (if not b then exits else x) ≡ (if b then x else exits)
by_gift true x = refl
by_gift false x = refl

module _ (m : Memory) (w : m.pointer_size ≡ 8) where
  -- The bytes of `n` records, and of a negative number of them.
  size-some : (n : ℕ) → n < int_min → size_t m (int_to_size m n * rec_size) ≡ n * 8
  size-some n h = rw w (ground arith)

  size-negative :
      (k : ℕ)
      → 0 < k
      → k ≤ int_min
      → size_t m (int_to_size m (4294967296 - k) * rec_size) ≡ two_64 - k * 8
  size-negative k h l = rw w (ground arith)

  -- What `Malloc` makes of a size, by what `malloc` is asked for.
  allocate-given {ℓ} :
      {A : Type ℓ} (size used given : ℕ) (x : A)
      → (8 + size) % two_64 ≡ given
      → allocate m size used x ≡ (
          if not (m.gives given)
          then exits
          else if ltb given (8 + size) || ltb size used
          then overrun
          else done x)
  unfolding allocate
  allocate-given size used given x h = rw (w, h) refl

  pub allocate-fits {ℓ} :
      {A : Type ℓ} (n used : ℕ) (x : A)
      → n < 536870912
      → used ≤ n * 8
      → m.gives (n * 8 + 8) ≡ true
      → allocate m (size_t m (int_to_size m n * rec_size)) used x ≡ done x
  allocate-fits n used x h k g =
      let asked : (8 + n * 8) % two_64 ≡ n * 8 + 8 = omega arith in
      let whole : (ltb (n * 8 + 8) (8 + n * 8) || ltb (n * 8) used) ≡ false = ground arith in
      rw (size-some n (omega arith))
        (allocate-given (n * 8) used (n * 8 + 8) x asked ∙ rw (g, whole) refl)

  -- Memory for fewer records than are written.
  pub allocate_short {ℓ} :
      {A : Type ℓ} (n used : ℕ) (x : A)
      → n < 536870912
      → n * 8 < used
      → allocate m (size_t m (int_to_size m n * rec_size)) used x
        ≡ (if m.gives (n * 8 + 8) then overrun else exits)
  allocate_short n used x h k =
      let asked : (8 + n * 8) % two_64 ≡ n * 8 + 8 = omega arith in
      let past : (ltb (n * 8 + 8) (8 + n * 8) || ltb (n * 8) used) ≡ true = ground arith in
      rw (size-some n (omega arith)) (
        allocate-given (n * 8) used (n * 8 + 8) x asked
        ∙ rw past (by_gift (m.gives (n * 8 + 8)) overrun))

  -- Memory for less than no record.
  pub allocate_negative {ℓ} :
      {A : Type ℓ} (k used : ℕ) (x : A)
      → 0 < k
      → k ≤ int_min
      → ((n : ℕ) → two_63 ≤ n → m.gives n ≡ false)
      → allocate m (size_t m (int_to_size m (4294967296 - k) * rec_size)) used x
        ≡ (if ltb 1 k then exits else if m.gives 0 then overrun else exits)
  allocate_negative k used x h l huge = elim (Bool-cases (ltb 1 k)) [
    | inl e ↦
        let asked : (8 + (two_64 - k * 8)) % two_64 ≡ two_64 - k * 8 + 8 = ground arith in
        rw (size-negative k h l) (
          allocate-given (two_64 - k * 8) used (two_64 - k * 8 + 8) x asked
          ∙ rw (huge (two_64 - k * 8 + 8) (omega arith), e) refl)
    | inr e ↦
        let one : k ≡ 1 = ground arith in
        let asked : (8 + (two_64 - k * 8)) % two_64 ≡ 0 = ground arith in
        let past : (ltb 0 (8 + (two_64 - k * 8)) || ltb (two_64 - k * 8) used) ≡ true =
          ground arith in
        rw (size-negative k h l) (
          allocate-given (two_64 - k * 8) used 0 x asked
          ∙ rw (past, e) (by_gift (m.gives 0) overrun))
  ]

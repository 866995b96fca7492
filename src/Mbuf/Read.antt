-- ===== src/Mbuf/Read.antt =====
-- Reading a stretch of memory: cutting it, joining it, and writing to it first.
use mpdx.Common.{
  ℕ, zero, suc, ◌+◌, ◌-◌, ◌≤◌, ◌<◌, true, false, ◌&&◌, List, [], ◌∷◌, ◌++◌, ◌≡◌, refl, sym, ap, ◌∙◌,
  arith, length, take, drop, ltb, leb,
}
use mpdx.Common.{◌⊎◌, inl, inr, Bool-cases}
use mathlib.Core.Path.{ap₂}
use mpdx.Mbuf.{read, copy_in, bytes_at, smaller}

pub length-read : (f : ℕ → ℕ) (s n : ℕ) → length (read f s n) ≡ n
unfolding read
length-read f s zero = refl
length-read f s (suc n) = ap suc (length-read f (suc s) n)

-- Two stretches with the same bytes.
pub read-same :
    (f g : ℕ → ℕ) (s t n : ℕ) → ((i : ℕ) → i < n → f (s + i) ≡ g (t + i)) → read f s n ≡ read g t n
unfolding read
read-same f g s t zero same = refl
read-same f g s t (suc n) same =
    ap₂ (λ x xs. x ∷ xs) (ap f (omega arith) ∙ same 0 (omega arith) ∙ ap g (omega arith))
      (read-same f g (suc s) (suc t) n
        (λ i h. ap f (omega arith) ∙ same (suc i) (omega arith) ∙ ap g (omega arith)))

pub read-take : (f : ℕ → ℕ) (s m n : ℕ) → m ≤ n → take m (read f s n) ≡ read f s m
unfolding read
read-take f s zero n h = refl
read-take f s (suc m) zero h = absurd (omega arith)
read-take f s (suc m) (suc n) h = ap (λ xs. f s ∷ xs) (read-take f (suc s) m n (omega arith))

pub take-all : (m : ℕ) (xs : List ℕ) → length xs ≤ m → take m xs ≡ xs
take-all zero [] h = refl
take-all zero (x ∷ xs) h = absurd (omega arith)
take-all (suc m) [] h = refl
take-all (suc m) (x ∷ xs) h = ap (λ ys. x ∷ ys) (take-all m xs (omega arith))

pub drop-all : (m : ℕ) (xs : List ℕ) → length xs ≤ m → drop m xs ≡ []
drop-all zero [] h = refl
drop-all zero (x ∷ xs) h = absurd (omega arith)
drop-all (suc m) [] h = refl
drop-all (suc m) (x ∷ xs) h = drop-all m xs (omega arith)

pub read-none : (f : ℕ → ℕ) (s n : ℕ) → n ≡ 0 → read f s n ≡ []
unfolding read
read-none f s zero h = refl
read-none f s (suc n) h = absurd (omega arith)

pub read-drop : (f : ℕ → ℕ) (s m n : ℕ) → m ≤ n → drop m (read f s n) ≡ read f (s + m) (n - m)
unfolding read
read-drop f s zero n h =
    read-same f f s (s + 0) n (λ i k. ap f (omega arith)) ∙ ap (read f (s + 0)) (omega arith)
read-drop f s (suc m) zero h = absurd (omega arith)
read-drop f s (suc m) (suc n) h =
    read-drop f (suc s) m n (omega arith) ∙ ap₂ (read f) (omega arith) (omega arith)

pub take-read : (f : ℕ → ℕ) (s n m : ℕ) → take n (read f s m) ≡ read f s (smaller n m)
take-read f s n m = elim (Bool-cases (ltb m n)) [
  | inl e ↦
      take-all n (read f s m) (ground (arith, length-read f s m)) ∙ ap (read f s) (ground arith)
  | inr e ↦ read-take f s n m (ground arith) ∙ ap (read f s) (ground arith)
]

pub drop-read : (f : ℕ → ℕ) (s n m : ℕ) → drop n (read f s m) ≡ read f (s + n) (m - n)
drop-read f s n m = elim (Bool-cases (leb n m)) [
  | inl e ↦ read-drop f s n m (ground arith)
  | inr e ↦
      drop-all n (read f s m) (ground (arith, length-read f s m))
      ∙ sym (read-none f (s + n) (m - n) (ground arith))
]

pub read-append : (f : ℕ → ℕ) (s m n : ℕ) → read f s (m + n) ≡ read f s m ++ read f (s + m) n
unfolding read
read-append f s zero n = ap₂ (read f) (omega arith) (omega arith)
read-append f s (suc m) n =
    let more : suc m + n ≡ suc (m + n) = omega arith in
    ap (read f s) more
    ∙ ap (λ xs. f s ∷ xs)
        (read-append f (suc s) m n ∙ ap (λ k. read f (suc s) m ++ read f k n) (omega arith))

one_more : (x : ℕ) (xs : List ℕ) (i : ℕ) → bytes_at (x ∷ xs) (1 + i) ≡ bytes_at xs (0 + i)
one_more x xs i =
    let up : 1 + i ≡ suc i = omega arith in
    let same : i ≡ 0 + i = omega arith in ap (bytes_at (x ∷ xs)) up ∙ ap (bytes_at xs) same

-- The bytes of a list, read as memory.
pub read-bytes_at : (xs : List ℕ) → read (bytes_at xs) 0 (length xs) ≡ xs
unfolding read
read-bytes_at [] = refl
read-bytes_at (x ∷ xs) =
    ap (λ ys. x ∷ ys)
      (read-same (bytes_at (x ∷ xs)) (bytes_at xs) 1 0 (length xs) (λ i h. one_more x xs i)
        ∙ read-bytes_at xs)

-- What a copy wrote, and what it left alone.
pub read-copied :
    (f g : ℕ → ℕ) (start n k m : ℕ)
    → k + m ≤ n
    → read (copy_in f start g n) (start + k) m ≡ read g k m
read-copied f g start n k m h = read-same (copy_in f start g n) g (start + k) k m (λ i l.
    (let place : start + k + i - start ≡ k + i = omega arith in
      let inside : (leb start (start + k + i) && ltb (start + k + i) (start + n)) ≡ true =
        ground arith in
      rw (inside, place) refl))

pub read-uncopied :
    (f g : ℕ → ℕ) (start n s m : ℕ)
    → (s + m ≤ start) ⊎ (start + n ≤ s)
    → read (copy_in f start g n) s m ≡ read f s m
read-uncopied f g start n s m h = read-same (copy_in f start g n) f s s m (λ i l.
    (let outside : (leb start (s + i) && ltb (s + i) (start + n)) ≡ false = ground arith in
      rw outside refl))

-- ===== src/Delivery/Capture.antt =====
-- The worker's `_read_capped` and `_is_retryable`: how much of a response is read, and what it means.
use seskit.Base.{
  ℕ, zero, suc, ◌+◌, ◌-◌, ◌≤◌, ◌<◌, leb, String, true, none, some, List, [], ◌∷◌, ◌++◌,
  if◌then◌else◌, length, take, ◌≡◌, ◌⊎◌, inl, inr, refl, ap, sym, arith, Bool-cases,
}
use seskit.Delivery.{read_chunks, chunks_read, read_capped, is_textual, is_retryable}

abbrev pub join : List (List ℕ) → List ℕ
join [] = []
join (c ∷ cs) = c ++ join cs

length-append : (xs ys : List ℕ) → length (xs ++ ys) ≡ length xs + length ys
length-append [] ys = omega arith
length-append (x ∷ xs) ys = omega (arith, length-append xs ys)

take-append : (n : ℕ) (xs ys : List ℕ) → take n (xs ++ ys) ≡ take n xs ++ take (n - length xs) ys
take-append zero xs ys = let none_left : 0 - length xs ≡ 0 = omega arith in rw none_left
take-append (suc n) [] ys = let all_left : suc n - 0 ≡ suc n = omega arith in rw all_left
take-append (suc n) (x ∷ xs) ys =
    let left : suc n - suc (length xs) ≡ n - length xs = omega arith in
    rw left (ap (◌∷◌ x) (take-append n xs ys))

take-append_enough : (n : ℕ) (xs ys : List ℕ) → n ≤ length xs → take n (xs ++ ys) ≡ take n xs
take-append_enough zero xs ys h = refl
take-append_enough (suc n) [] ys h = absurd (omega arith)
take-append_enough (suc n) (x ∷ xs) ys h = ap (◌∷◌ x) (take-append_enough n xs ys (omega arith))

take-read_chunks :
    (limit total : ℕ) (chunks : List (List ℕ))
    → take (limit - total) (read_chunks limit total chunks) ≡ take (limit - total) (join chunks)
unfolding read_chunks
take-read_chunks limit total [] = refl
take-read_chunks limit total (c ∷ cs) = elim (Bool-cases (leb limit (total + length c))) [
  | inl full ↦ rw full (sym (take-append_enough (limit - total) c (join cs) (ground (arith, full))))
  | inr more ↦ rw more (
      let left : limit - total - length c ≡ limit - (total + length c) = omega arith in
      rw
        (
          take-append (limit - total) c (join cs),
          take-append (limit - total) c (read_chunks limit (total + length c) cs),
          left,
        )
        (ap (◌++◌ (take (limit - total) c)) (take-read_chunks limit (total + length c) cs)))
]

length-take-le : (n : ℕ) (xs : List ℕ) → length (take n xs) ≤ n
length-take-le zero xs = omega arith
length-take-le (suc n) [] = omega arith
length-take-le (suc n) (x ∷ xs) = omega (arith, length-take-le n xs)

abbrev pub first : ℕ → List (List ℕ) → List (List ℕ)
first zero cs = []
first (suc n) [] = []
first (suc n) (c ∷ cs) = c ∷ first n cs

-- A textual response is kept as the first bytes of its whole body, as many as the limit, although
-- the loop stops early; another response is not read at all.
pub read_capped_exact :
    (content_type : String) (limit : ℕ) (chunks : List (List ℕ))
    → read_capped content_type limit chunks
      ≡ (if is_textual content_type then some (take limit (join chunks)) else none)
unfolding read_capped
read_capped_exact content_type limit chunks =
    let same : limit - 0 ≡ limit = omega arith in
    let read : take limit (read_chunks limit 0 chunks) ≡ take limit (join chunks) =
      rw same at (take-read_chunks limit 0 chunks) in
    rw read

-- The loop never asks for another chunk once it holds as many bytes as the limit: without the last
-- chunk that it took it was still below.
pub chunks_read_minimal :
    (limit total : ℕ) (chunks : List (List ℕ)) (k : ℕ)
    → chunks_read limit total chunks ≡ suc k
    → total < limit
    → total + length (join (first k chunks)) < limit
unfolding chunks_read
chunks_read_minimal limit total [] k h below = absurd (omega arith)
chunks_read_minimal limit total (c ∷ cs) zero h below = omega arith
chunks_read_minimal limit total (c ∷ cs) (suc k) h below =
    elim (Bool-cases (leb limit (total + length c))) [
      | inl full ↦ absurd (ground (arith, full))
      | inr more ↦ omega (
        arith,
        length-append c (join (first k cs)),
        chunks_read_minimal limit (total + length c) cs k (ground (arith, more))
            (ground (arith, more)),
      )
    ]

-- Success and refusal by the status: only 429 and the server's own failures are tried again.
pub is_retryable_exact :
    (status : ℕ)
    → (is_retryable status ≡ true → (status ≡ 429) ⊎ (500 ≤ status))
      × ((status ≡ 429) ⊎ (500 ≤ status) → is_retryable status ≡ true)
unfolding is_retryable
is_retryable_exact status = (λ h. ground arith, λ h. ground arith)

-- ===== src/Source/Split.antt =====
-- The chunks of `chunk_stream`.
use destiny1_pc_project.Prelude.{
  ℕ, zero, suc, ◌+◌, ◌-◌, ◌%◌, ◌≤◌, ◌<◌, ◌≡◌, refl, inl, inr, false, List, [], ◌∷◌, ◌++◌, arith,
  ltb, ltb→lt, Bool-cases, length, is_empty, take, drop, slice, get_or, concat, concat-append, All,
  All-append, min, length-take, length-drop, append-nil, take_all,
}
use destiny1_pc_project.Source.{positive_sizes, chunk_loop, chunk_stream}

abbrev pub IsPositive : ℕ → Type 0
IsPositive n = 0 < n

positive_sizes-IsPositive : (sizes : List ℕ) → All IsPositive (positive_sizes sizes)
unfolding positive_sizes
positive_sizes-IsPositive [] = tt
positive_sizes-IsPositive (n ∷ sizes) = ground (arith, positive_sizes-IsPositive sizes)

get_or-IsPositive :
    (sizes : List ℕ) (i : ℕ) → All IsPositive sizes → i < length sizes → 0 < get_or sizes i 0
get_or-IsPositive [] i h lt = absurd (omega arith)
get_or-IsPositive (n ∷ sizes) zero h lt = h.0
get_or-IsPositive (n ∷ sizes) (suc i) h lt = get_or-IsPositive sizes i h.1 (omega arith)

-- The size of the chunk that a round takes.
abbrev step_size : List ℕ → List ℕ → ℕ → ℕ → ℕ
step_size stream sizes offset i = min (get_or sizes (i % length sizes) 0) (length stream - offset)

step_size_pos :
    (stream sizes : List ℕ) (offset i : ℕ)
    → All IsPositive sizes
    → 0 < length sizes
    → offset < length stream
    → 0 < step_size stream sizes offset i
step_size_pos stream sizes offset i h some_size lt =
    omega (arith, get_or-IsPositive sizes (i % length sizes) h (grind arith))

length_pos : (xs : List ℕ) → is_empty xs ≡ false → 0 < length xs
length_pos [] h = cc
length_pos (x ∷ xs) h = omega arith

take-nil : (n : ℕ) → take {A = ℕ} n [] ≡ []
take-nil zero = refl
take-nil (suc n) = refl

take-add : (m n : ℕ) (xs : List ℕ) → take m xs ++ take n (drop m xs) ≡ take (m + n) xs
take-add zero n xs = ground arith
take-add (suc m) n [] = ground (arith, take-nil n, take-nil (suc m + n))
take-add (suc m) n (x ∷ xs) =
    let e : suc m + n ≡ suc (m + n) = omega arith in rw e (ground (arith, take-add m n xs))

module _ (stream sizes : List ℕ) (sized : All IsPositive sizes) (some_size : 0 < length sizes) where
  loop_concat :
      (fuel offset i : ℕ) (out : List (List ℕ))
      → length stream ≤ fuel + offset
      → offset ≤ length stream
      → concat out ≡ take offset stream
      → concat (chunk_loop fuel stream sizes offset i out) ≡ stream
  unfolding chunk_loop
  loop_concat zero offset i out enough le h = ground (arith, take_all offset stream)
  loop_concat (suc fuel) offset i out enough le h = elim (Bool-cases (ltb offset (length stream))) [
    | inr done ↦ ground (arith, take_all offset stream)
    | inl more ↦
        let n = step_size stream sizes offset i in
        let pos : 0 < n = step_size_pos stream sizes offset i sized some_size (ltb→lt _ _ more) in
        rw more (
          loop_concat fuel (offset + n) (i + 1) (out ++ (slice stream offset (offset + n) ∷ []))
            (omega arith) (omega arith)
            (ground (
              arith,
              concat-append out (slice stream offset (offset + n) ∷ []),
              append-nil (slice stream offset (offset + n)),
              take-add offset n stream,
            )))
  ]

  loop_nonempty :
      (fuel offset i : ℕ) (out : List (List ℕ))
      → All (λ c. 0 < length c) out
      → All (λ c. 0 < length c) (chunk_loop fuel stream sizes offset i out)
  unfolding chunk_loop
  loop_nonempty zero offset i out h = h
  loop_nonempty (suc fuel) offset i out h = elim (Bool-cases (ltb offset (length stream))) [
    | inr done ↦ rw done h
    | inl more ↦
        let n = step_size stream sizes offset i in
        let chunk = slice stream offset (offset + n) in
        let pos : 0 < length chunk = omega (
          arith,
          step_size_pos stream sizes offset i sized some_size (ltb→lt _ _ more),
          length-take (offset + n - offset) (drop offset stream),
          length-drop offset stream,
          ltb→lt _ _ more,
        ) in
        rw more (
          loop_nonempty fuel (offset + n) (i + 1) (out ++ (chunk ∷ []))
            (All-append (λ c. 0 < length c) out (chunk ∷ []) h (pos, tt)))
  ]

-- The chunks joined are the stream, whatever the sizes, and no chunk is empty.
pub chunk_stream-concat :
    (stream sizes : List ℕ)
    → (concat (chunk_stream stream sizes) ≡ stream)
      × All (λ c. 0 < length c) (chunk_stream stream sizes)
unfolding chunk_stream
chunk_stream-concat stream sizes = elim (Bool-cases (is_empty (positive_sizes sizes))) [
  | inl none_left ↦ rw none_left (
    loop_concat stream (1 ∷ []) (omega arith) (omega arith) (length stream) 0 0 [] (omega arith)
        (omega arith) refl,
    loop_nonempty stream (1 ∷ []) (omega arith) (omega arith) (length stream) 0 0 [] tt,
  )
  | inr kept ↦
      let sized = positive_sizes-IsPositive sizes in
      let some_size : 0 < length (positive_sizes sizes) = length_pos (positive_sizes sizes) kept in
      rw kept (
        loop_concat stream (positive_sizes sizes) sized some_size (length stream) 0 0 []
            (omega arith) (omega arith) refl,
        loop_nonempty stream (positive_sizes sizes) sized some_size (length stream) 0 0 [] tt,
      )
]

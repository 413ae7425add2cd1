-- ===== src/Cbc/Padding.antt =====
-- PKCS#7 padding: what `validate_pkcs7` accepts.
use destiny1_pc_project.Prelude.{
  ℕ, zero, suc, ◌+◌, ◌-◌, ◌≤◌, ◌<◌, ◌≡◌, refl, sym, ap, ◌∙◌, inl, inr, false, List, [], ◌∷◌, ◌++◌,
  is_empty, arith, ◌==◌, ==→eq, Bool-cases, length, drop, take, get_or, length-append, length-drop,
  length-take, take-append-drop, drop-append_length, ok,
}
use destiny1_pc_project.Cbc.{any_other, validate_pkcs7}

-- `n` copies of a byte.
unfoldable pub replicate : ℕ → ℕ → List ℕ
replicate zero b = []
replicate (suc n) b = b ∷ replicate n b

-- A text with `pad` bytes of padding behind it.
unfoldable pub padded : List ℕ → ℕ → List ℕ
unfolding replicate
padded text pad = text ++ replicate pad pad

pub length-replicate : (n b : ℕ) → length (replicate n b) ≡ n
unfolding replicate
length-replicate zero b = refl
length-replicate (suc n) b = ap suc (length-replicate n b)

any_other-replicate : (n b : ℕ) → any_other b (replicate n b) ≡ false
unfolding any_other replicate
any_other-replicate zero b = refl
any_other-replicate (suc n) b = ground (arith, any_other-replicate n b)

replicate_of_any_other :
    (b : ℕ) (bs : List ℕ) → any_other b bs ≡ false → bs ≡ replicate (length bs) b
unfolding any_other replicate
replicate_of_any_other b [] h = refl
replicate_of_any_other b (x ∷ bs) h = elim (Bool-cases (x == b)) [
  | inl e ↦ ground (arith, ==→eq x b e, replicate_of_any_other b bs)
  | inr e ↦ absurd (ground arith)
]

get_or-append : (xs ys : List ℕ) (i d : ℕ) → get_or (xs ++ ys) (length xs + i) d ≡ get_or ys i d
get_or-append [] ys i d = let e : 0 + i ≡ i = omega arith in rw e refl
get_or-append (x ∷ xs) ys i d =
    let e : suc (length xs) + i ≡ suc (length xs + i) = omega arith in
    rw e (get_or-append xs ys i d)

get_or-replicate : (n b i d : ℕ) → i < n → get_or (replicate n b) i d ≡ b
unfolding replicate
get_or-replicate zero b i d h = absurd (omega arith)
get_or-replicate (suc n) b zero d h = refl
get_or-replicate (suc n) b (suc i) d h = get_or-replicate n b i d (omega arith)

get_or_last-padded :
    (text : List ℕ) (pad : ℕ)
    → 0 < pad
    → get_or (padded text pad) (length (padded text pad) - 1) 0 ≡ pad
unfolding padded
get_or_last-padded text pad pos =
    let e : length (text ++ replicate pad pad) - 1 ≡ length text + (pad - 1) =
      omega (arith, length-append text (replicate pad pad), length-replicate pad pad) in
    rw e (
      get_or-append text (replicate pad pad) (pad - 1) 0
      ∙ get_or-replicate pad pad (pad - 1) 0 (omega arith))

pub length-padded : (text : List ℕ) (pad : ℕ) → length (padded text pad) ≡ length text + pad
unfolding padded
length-padded text pad =
    omega (arith, length-append text (replicate pad pad), length-replicate pad pad)

drop-padded :
    (text : List ℕ) (pad : ℕ)
    → drop (length (padded text pad) - pad) (padded text pad) ≡ replicate pad pad
drop-padded text pad =
    let e : length (padded text pad) - pad ≡ length text = omega (arith, length-padded text pad) in
    rw e (unfold padded in drop-append_length (length text) text (replicate pad pad) refl)

is_empty_of_pos : (xs : List ℕ) → 0 < length xs → is_empty xs ≡ false
is_empty_of_pos [] h = absurd (omega arith)
is_empty_of_pos (x ∷ xs) h = refl

-- Between 1 and 16 bytes of padding are accepted, and the length of the text before them is returned.
pub validate_pkcs7-padded :
    (text : List ℕ) (pad : ℕ)
    → 0 < pad
    → pad ≤ 16
    → validate_pkcs7 (padded text pad) ≡ ok (length text)
unfolding validate_pkcs7
validate_pkcs7-padded text pad pos small = ground (
  arith,
  is_empty_of_pos (padded text pad),
  length-padded text pad,
  get_or_last-padded text pad pos,
  drop-padded text pad,
  any_other-replicate pad pad,
)

accepted :
    (bytes : List ℕ) (n : ℕ)
    → validate_pkcs7 bytes ≡ ok n
    → (pad : ℕ) × (0 < pad)
      × (pad ≤ 16)
      × (n + pad ≡ length bytes)
      × (any_other pad (drop n bytes) ≡ false)
unfolding validate_pkcs7
accepted [] n h = absurd (ground arith)
accepted (b ∷ bs) n h = (
  get_or (b ∷ bs) (length (b ∷ bs) - 1) 0,
  ground arith,
  ground arith,
  ground arith,
  ground arith,
)

-- What is accepted is a text with 1 to 16 bytes of padding behind it, the text's length is returned.
pub padded_of_validate_pkcs7 :
    (bytes : List ℕ) (n : ℕ)
    → validate_pkcs7 bytes ≡ ok n
    → (pad : ℕ) × (0 < pad)
      × (pad ≤ 16)
      × (bytes ≡ padded (take n bytes) pad)
      × (length (take n bytes) ≡ n)
unfolding padded
padded_of_validate_pkcs7 bytes n h =
    let (pad, pos, small, sum, same) = accepted bytes n h in
    let e : length (drop n bytes) ≡ pad = omega (arith, length-drop n bytes) in
    (
      pad,
      pos,
      small,
      sym (take-append-drop n bytes)
          ∙ ap (λ t. take n bytes ++ t)
              (replicate_of_any_other pad (drop n bytes) same ∙ ap (λ k. replicate k pad) e),
      omega (arith, length-take n bytes),
    )

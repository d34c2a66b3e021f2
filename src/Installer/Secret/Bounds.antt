-- ===== src/Installer/Secret/Bounds.antt =====
-- How much of a secret `MaskSecret` of tools/mas-iam-installer/internal/config/install.go shows.
use mas_iam_operator.Prelude.{
  ℕ, zero, suc, ◌+◌, ◌-◌, ◌≤◌, ◌<◌, ◌≡◌, refl, sym, ap, ◌∙◌, inl, inr, true, false, List, [], ◌∷◌,
  ◌++◌, arith, leb, if◌then◌else◌, Bool-cases, is_nil, length, take, drop,
}
use mas_iam_operator.Installer.Secret.{mask_secret, repeat}

length-repeat : (n b : ℕ) → length (repeat n b) ≡ n
unfolding repeat
length-repeat zero b = refl
length-repeat (suc n) b = ap suc (length-repeat n b)

length-append : (xs ys : List ℕ) → length (xs ++ ys) ≡ length xs + length ys
length-append [] ys = omega arith
length-append (x ∷ xs) ys = omega (arith, length-append xs ys)

length-drop : (n : ℕ) (xs : List ℕ) → length (drop n xs) ≡ length xs - n
length-drop zero xs = omega arith
length-drop (suc n) [] = omega arith
length-drop (suc n) (x ∷ xs) = omega (arith, length-drop n xs)

take_of_append : (xs ys : List ℕ) → take (length xs) (xs ++ ys) ≡ xs
take_of_append [] ys = refl
take_of_append (x ∷ xs) ys = ap (λ t. x ∷ t) (take_of_append xs ys)

-- The number of bytes shown in clear: four of a secret of more than four bytes, and none of a
-- shorter one.
unfoldable pub shown : List ℕ → ℕ
shown value = if leb (length value) 4 then 0 else 4

masked : List ℕ → List ℕ
masked value = repeat (length value - 4) b'*' ++ drop (length value - 4) value

module _ (value : List ℕ) (long : 4 < length value) where
  length-masked : length (masked value) ≡ length value
  unfolding masked
  length-masked = omega (
    arith,
    length-append (repeat (length value - 4) b'*') (drop (length value - 4) value),
    length-repeat (length value - 4) b'*',
    length-drop (length value - 4) value,
    long,
  )

  take-masked : take (length value - 4) (masked value) ≡ repeat (length value - 4) b'*'
  unfolding masked
  take-masked =
      ap (λ n. take n (masked value)) (sym (length-repeat (length value - 4) b'*'))
      ∙ take_of_append (repeat (length value - 4) b'*') (drop (length value - 4) value)

-- Of a text that is not empty at least four bytes and all but the last `shown` ones are stars, and
-- the mask is at least as long as the text.
pub mask_secret_bounds :
    (value : List ℕ)
    → is_nil value ≡ false
    → (4 ≤ length (mask_secret value))
      × ((length value ≤ length (mask_secret value))
          × (take (length (mask_secret value) - shown value) (mask_secret value)
              ≡ repeat (length (mask_secret value) - shown value) b'*'))
unfolding mask_secret shown masked repeat
mask_secret_bounds value h = elim (Bool-cases (leb (length value) 4)) [
  | inl s ↦ rw (h, s) (omega arith, (fits s, refl))
  | inr l ↦ rw (h, l) (at_end (exceeds l))
]
  where
    fits : leb (length value) 4 ≡ true → length value ≤ 4
    fits s = ground arith

    exceeds : leb (length value) 4 ≡ false → 4 < length value
    exceeds l = ground arith

    at_end :
        4 < length value
        → (4 ≤ length (masked value))
          × ((length value ≤ length (masked value))
              × (take (length (masked value) - 4) (masked value)
                  ≡ repeat (length (masked value) - 4) b'*'))
    at_end l = rw (length-masked value l) (omega arith, (omega arith, take-masked value l))

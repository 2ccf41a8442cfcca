-- ===== src/Oculus/SonarImage/Rows.antt =====
-- The two ways in which `pingToSonarImage` copies the image.
use native.Mathlib.Decide.{dec_lt}
use sensor_packages.Base.{
  ℕ, zero, suc, ◌+◌, ◌*◌, ◌≤◌, ◌<◌, ◌≡◌, refl, sym, ◌∙◌, ap, List, [], ◌∷◌, ◌++◌, none, some,
  length, take, drop, ◌==◌, arith, Bool-cases, inl, inr,
}
use sensor_packages.Base.Fault.{◌>>=◌}
use sensor_packages.Oculus.SonarImage.{copy_bytes, copy_rows, copy_image}

zero_plus : (m : ℕ) → 0 + m ≡ m
zero_plus m = omega arith

suc_plus : (n m : ℕ) → suc n + m ≡ suc (n + m)
suc_plus n m = omega arith

zero_times : (m : ℕ) → 0 * m ≡ 0
zero_times m = omega arith

pub suc_times : (n m : ℕ) → suc n * m ≡ m + n * m
suc_times n m = omega arith

module _ {A : Type 0} where
  take-plus : (n m : ℕ) (xs : List A) → take (n + m) xs ≡ take n xs ++ take m (drop n xs)
  take-plus zero m xs = rw zero_plus refl
  take-plus (suc n) zero [] = rw suc_plus refl
  take-plus (suc n) (suc m) [] = rw suc_plus refl
  take-plus (suc n) m (x ∷ xs) = rw suc_plus (ap (λ t. x ∷ t) (take-plus n m xs))

  drop-plus : (n m : ℕ) (xs : List A) → drop (n + m) xs ≡ drop m (drop n xs)
  drop-plus zero m xs = rw zero_plus refl
  drop-plus (suc n) zero [] = rw suc_plus refl
  drop-plus (suc n) (suc m) [] = rw suc_plus refl
  drop-plus (suc n) m (x ∷ xs) = rw suc_plus (drop-plus n m xs)

  copy_bytes-within :
      (bytes : List A) (from n : ℕ)
      → from + n ≤ length bytes
      → copy_bytes bytes from n ≡ some (take n (drop from bytes))
  unfolding copy_bytes
  copy_bytes-within bytes from n h = ground arith

  copy_bytes-beyond :
      (bytes : List A) (from n : ℕ) → length bytes < from + n → copy_bytes bytes from n ≡ none
  unfolding copy_bytes
  copy_bytes-beyond bytes from n h = ground arith

  -- One copy of a row and the rows behind it.
  copy_bytes-split :
      (bytes : List A) (from n m : ℕ)
      → from ≤ length bytes
      → (copy_bytes bytes from n >>= λ row.
          copy_bytes bytes (from + n) m >>= λ rest. some (row ++ rest))
        ≡ copy_bytes bytes from (n + m)
  copy_bytes-split bytes from n m h = elim (dec_lt (length bytes) (from + n + m)) [
    | no within ↦
        rw
          (
            copy_bytes-within bytes from n (omega arith),
            copy_bytes-within bytes (from + n) m (omega arith),
            copy_bytes-within bytes from (n + m) (omega arith),
            take-plus n m (drop from bytes),
            drop-plus from n bytes,
          )
          refl
    | yes beyond ↦ elim (dec_lt (length bytes) (from + n)) [
      | yes first ↦
          rw
            (
              copy_bytes-beyond bytes from n first,
              copy_bytes-beyond bytes from (n + m) (omega arith),
            )
            refl
      | no row ↦
          rw
            (
              copy_bytes-within bytes from n (omega arith),
              copy_bytes-beyond bytes (from + n) m beyond,
              copy_bytes-beyond bytes from (n + m) (omega arith),
            )
            refl
    ]
  ]

  copy_rows-zero : (bytes : List A) (from w : ℕ) → copy_rows bytes from w w zero ≡ some []
  unfolding copy_rows
  copy_rows-zero bytes from w = refl

  copy_rows-suc :
      (bytes : List A) (from w n : ℕ)
      → copy_rows bytes from w w (suc n) ≡ (
          copy_bytes bytes from w >>= λ row.
          copy_rows bytes (from + w) w w n >>= λ rest. some (row ++ rest))
  unfolding copy_rows copy_bytes
  copy_rows-suc bytes from w n = refl

  -- Once a row lies outside, both copies fault; a row inside leaves the next one's start inside.
  copy_rows-copy_bytes :
      (n : ℕ) (bytes : List A) (from w : ℕ)
      → from ≤ length bytes
      → copy_rows bytes from w w n ≡ copy_bytes bytes from (n * w)
  copy_rows-copy_bytes zero bytes from w h =
      copy_rows-zero bytes from w
      ∙ sym (rw (zero_times w) (copy_bytes-within bytes from 0 (omega arith)))
  copy_rows-copy_bytes (suc n) bytes from w h =
      copy_rows-suc bytes from w n ∙ elim (dec_lt (length bytes) (from + w)) [
        | yes beyond ↦
            rw (copy_bytes-beyond bytes from w beyond)
              (sym (copy_bytes-beyond bytes from (suc n * w) (omega (arith, suc_times n w))))
        | no within ↦
            rw
              (
                suc_times n w,
                ← copy_bytes-split bytes from w (n * w) h,
                copy_rows-copy_bytes n bytes (from + w) w (omega arith),
              )
              refl
      ]

  -- The copy of a ping's image is the copy of its rows, one by one, whether or not `stride` is the length of
  -- a row, provided that `offset` lies in the data: the branch that copies all rows at once is
  -- an optimisation, also where the rows do not fit into the data (both then read outside it).
  pub copy_image-copy_rows :
      (bytes : List A) (offset stride row_bytes num_ranges : ℕ)
      → offset ≤ length bytes
      → copy_image bytes offset stride row_bytes num_ranges
        ≡ copy_rows bytes offset stride row_bytes num_ranges
  unfolding copy_image
  copy_image-copy_rows bytes offset stride row_bytes num_ranges h =
      elim (Bool-cases (stride == row_bytes)) [
        | inl e ↦
            let same : stride ≡ row_bytes = ground arith in
            rw (e, same) (sym (copy_rows-copy_bytes num_ranges bytes offset row_bytes h))
        | inr e ↦ rw e refl
      ]

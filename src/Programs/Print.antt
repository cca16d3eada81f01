-- ===== src/Programs/Print.antt =====
-- `operator<<` for a vector, against a plain recursion.
use pexec.Base.{
  ℕ, suc, ◌+◌, Bytes, true, false, List, [], ◌∷◌, ◌++◌, ◌==◌, codes, ◌≡◌, refl, ◌∙◌, ap, arith,
  append-nil, length,
}
use pexec.Programs.{print_from, print_vec}

module _ {A : Type 0} (show : A → Bytes) where
  -- The elements with a space between two of them.
  pub join : List A → Bytes
  join [] = []
  join (x ∷ []) = show x
  join (x ∷ y ∷ xs) = show x ++ codes " " ++ join (y ∷ xs)

  print_from-join :
      (size i : ℕ) (xs : List A) → size ≡ i + length xs → print_from show size i xs ≡ join xs
  unfolding print_from join
  print_from-join size i [] e = refl
  print_from-join size i (x ∷ []) e =
      let last : (suc i == size) ≡ true = ground (arith, e) in
      rw last (ap (λ t. t ++ []) (append-nil (show x)) ∙ append-nil (show x))
  print_from-join size i (x ∷ y ∷ xs) e =
      let more : (suc i == size) ≡ false = ground (arith, e) in
      rw more (
        ap (λ t. show x ++ codes " " ++ t)
          (print_from-join size (suc i) (y ∷ xs) (omega (arith, e))))

  -- The operator, whose loop compares indices, prints the elements with one space between two of
  -- them, none before the first and none behind the last.
  pub print_vec-join : (xs : List A) → print_vec show xs ≡ join xs
  unfolding print_vec
  print_vec-join xs = print_from-join (length xs) 0 xs (omega arith)

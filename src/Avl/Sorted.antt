-- ===== src/Avl/Sorted.antt =====
-- Lists of contents sorted by key: the abstract view of the trees.
use parcoach_rma.Common.{
  ◌≡◌, refl, ap, List, [], ◌∷◌, ◌++◌, ℤ, ◌≤ℤ◌, ◌<ℤ◌, ltb_ℤ, eqb_ℤ, arith, if◌then◌else◌, pos_part,
  neg_part, ◌≢◌, eq_of_parts,
}
use parcoach_rma.Avl.{Keys}

module _ {E : Type 0} where
  -- Every item of the list satisfies `P`.
  abbrev pub Every : (E → Type 0) → List E → Type 0
  Every P [] = Unit
  Every P (x ∷ xs) = P x × Every P xs

  pub Every-append :
      (P : E → Type 0) (xs ys : List E) → Every P xs → Every P ys → Every P (xs ++ ys)
  Every-append P [] ys p q = q
  Every-append P (x ∷ xs) ys (px, p) q = (px, Every-append P xs ys p q)

  pub Every-imp :
      {P Q : E → Type 0} → ((e : E) → P e → Q e) → (xs : List E) → Every P xs → Every Q xs
  Every-imp f [] p = tt
  Every-imp f (x ∷ xs) (px, p) = (f x px, Every-imp f xs p)

module _ {E : Type 0} (keys : Keys E) where
  open keys use {key}

  -- Insertion into a sorted list, behind the contents with an equal key.
  unfoldable pub insert_sorted : E → List E → List E
  insert_sorted itv [] = itv ∷ []
  insert_sorted itv (x ∷ xs) =
      if ltb_ℤ (key itv) (key x) then itv ∷ (x ∷ xs) else x ∷ insert_sorted itv xs

  -- The list without its first content with the key `k`.
  unfoldable pub remove_key : ℤ → List E → List E
  remove_key k [] = []
  remove_key k (x ∷ xs) = if eqb_ℤ k (key x) then xs else x ∷ remove_key k xs

  pub insert_sorted-append :
      (itv top : E) (xs ys : List E)
      → key itv <ℤ key top
      → insert_sorted itv (xs ++ (top ∷ ys)) ≡ insert_sorted itv xs ++ (top ∷ ys)
  unfolding insert_sorted
  insert_sorted-append itv top [] ys lt = ground arith
  insert_sorted-append itv top (x ∷ xs) ys lt =
      ground (arith, insert_sorted-append itv top xs ys lt)

  pub insert_sorted-behind :
      (itv : E) (xs ys : List E)
      → Every (λ e. key e ≤ℤ key itv) xs
      → insert_sorted itv (xs ++ ys) ≡ xs ++ insert_sorted itv ys
  unfolding insert_sorted
  insert_sorted-behind itv [] ys a = refl
  insert_sorted-behind itv (x ∷ xs) ys (p, a) = ground (arith, insert_sorted-behind itv xs ys a)

  pub remove_key-append :
      (k : ℤ) (xs ys : List E)
      → Every (λ e. key e ≢ k) ys
      → remove_key k (xs ++ ys) ≡ remove_key k xs ++ ys
  unfolding remove_key
  remove_key-append k [] [] a = refl
  remove_key-append k [] (y ∷ ys) (n, a) =
      ground (arith, remove_key-append k [] ys a, eq_of_parts (key y) k)
  remove_key-append k (x ∷ xs) ys a = ground (arith, remove_key-append k xs ys a)

  pub remove_key-behind :
      (k : ℤ) (xs ys : List E)
      → Every (λ e. key e ≢ k) xs
      → remove_key k (xs ++ ys) ≡ xs ++ remove_key k ys
  unfolding remove_key
  remove_key-behind k [] ys a = refl
  remove_key-behind k (x ∷ xs) ys (n, a) =
      ground (arith, remove_key-behind k xs ys a, eq_of_parts (key x) k)

  pub remove_key_head : (k : ℤ) (x : E) (xs : List E) → k ≡ key x → remove_key k (x ∷ xs) ≡ xs
  unfolding remove_key
  remove_key_head k x xs e = ground (arith, ap pos_part e, ap neg_part e)

  pub remove_key_ne :
      (k : ℤ) (x : E) (xs : List E) → k ≢ key x → remove_key k (x ∷ xs) ≡ x ∷ remove_key k xs
  unfolding remove_key
  remove_key_ne k x xs n = ground (arith, eq_of_parts k (key x))

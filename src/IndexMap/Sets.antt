-- ===== src/IndexMap/Sets.antt =====
-- `IndexSet`: a list without repetitions, in the order of insertion.
use susun.Prelude.{
  suc, ◌≤◌, ◌≡◌, refl, Bool, true, false, not, ◌&&◌, ◌||◌, List, [], ◌∷◌, ◌++◌, arith, Eq, ◌=?◌,
  =?_refl, if◌then◌else◌, Bool-cases, inl, inr, length,
}

module _ {ℓ} {K : Type ℓ} ⦃e : Eq K⦄ where
  -- `set.contains(&k)`
  unfoldable pub contains : List K → K → Bool
  contains [] k = false
  contains (x ∷ xs) k = x =? k || contains xs k

  -- `set.insert(k)`: a new element goes to the end.
  unfoldable pub insert_set : K → List K → List K
  unfolding contains
  insert_set k xs = if contains xs k then xs else xs ++ k ∷ []

  -- `iter.collect::<IndexSet<_>>()`
  unfoldable pub from_iter_onto : List K → List K → List K
  unfolding insert_set
  from_iter_onto set [] = set
  from_iter_onto set (x ∷ xs) = from_iter_onto (insert_set x set) xs

  -- Every element occurs once.
  abbrev pub IsDistinct : List K → Type 0
  IsDistinct [] = Unit
  IsDistinct (x ∷ xs) = (contains xs x ≡ false) × IsDistinct xs

  pub contains-append :
      (xs ys : List K) (k : K) → contains (xs ++ ys) k ≡ (contains xs k || contains ys k)
  unfolding contains
  contains-append [] ys k = refl
  contains-append (x ∷ xs) ys k = ground (arith, contains-append xs ys k)

  pub contains-insert_set :
      (k : K) (xs : List K) (j : K) → contains (insert_set k xs) j ≡ (k =? j || contains xs j)
  unfolding insert_set
  contains-insert_set k xs j = ground (arith, contains-append xs (k ∷ []) j, e.beq_iff k j)

  pub IsDistinct-append :
      (xs ys : List K)
      → IsDistinct xs
      → IsDistinct ys
      → ((k : K) → contains xs k ≡ true → contains ys k ≡ false)
      → IsDistinct (xs ++ ys)
  unfolding contains
  IsDistinct-append [] ys hx hy apart = hy
  IsDistinct-append (x ∷ xs) ys hx hy apart = (
    ground (arith, hx.0, contains-append xs ys x, apart x, =?_refl x),
    IsDistinct-append xs ys hx.1 hy (λ k m. ground (arith, apart k)),
  )

  -- Taking one element out of a set.
  unfoldable pub remove : K → List K → List K
  remove k [] = []
  remove k (x ∷ xs) = let rest = remove k xs in if x =? k then xs else x ∷ rest

  pub length-remove :
      (k : K) (xs : List K) → contains xs k ≡ true → length xs ≡ suc (length (remove k xs))
  unfolding contains remove
  length-remove k [] h = ground arith
  length-remove k (x ∷ xs) h = ground (arith, length-remove k xs)

  contains-remove :
      (k : K) (xs : List K) (j : K)
      → contains xs j ≡ true
      → (k =? j) ≡ false
      → contains (remove k xs) j ≡ true
  unfolding contains remove
  contains-remove k [] j h n = ground arith
  contains-remove k (x ∷ xs) j h n =
      ground (arith, contains-remove k xs j, e.beq_iff x j, e.beq_iff x k, e.beq_iff k j)

  -- A set all of whose elements lie in a list is no longer than the list.
  pub IsDistinct-length-le :
      (xs ys : List K)
      → IsDistinct xs
      → ((k : K) → contains xs k ≡ true → contains ys k ≡ true)
      → length xs ≤ length ys
  unfolding contains
  IsDistinct-length-le [] ys d sub = omega arith
  IsDistinct-length-le (x ∷ xs) ys d sub = omega (
    arith,
    length-remove x ys (sub x (ground (arith, =?_refl x))),
    IsDistinct-length-le xs (remove x ys) d.1
        (λ k m. contains-remove x ys k (sub k (ground arith)) (other k m)),
  )
    where
      other : (k : K) → contains xs k ≡ true → (x =? k) ≡ false
      other k m = ground (arith, e.beq_iff x k, d.0)

  pub IsDistinct-insert_set : (k : K) (xs : List K) → IsDistinct xs → IsDistinct (insert_set k xs)
  unfolding insert_set contains
  IsDistinct-insert_set k xs d = elim (Bool-cases (contains xs k)) [
    | inl old ↦ rw old d
    | inr new ↦
        rw new (IsDistinct-append xs (k ∷ []) d (refl, tt) λ j m. ground (arith, e.beq_iff k j))
  ]

  pub contains-from_iter_onto :
      (set xs : List K) (k : K)
      → contains (from_iter_onto set xs) k ≡ (contains set k || contains xs k)
  unfolding from_iter_onto contains
  contains-from_iter_onto set [] k = ground arith
  contains-from_iter_onto set (x ∷ xs) k =
      ground (arith, contains-from_iter_onto (insert_set x set) xs k, contains-insert_set x set k)

  pub from_iter_onto-IsDistinct :
      (set xs : List K) → IsDistinct set → IsDistinct (from_iter_onto set xs)
  unfolding from_iter_onto
  from_iter_onto-IsDistinct set [] d = d
  from_iter_onto-IsDistinct set (x ∷ xs) d =
      from_iter_onto-IsDistinct (insert_set x set) xs (IsDistinct-insert_set x set d)

  pub IsDistinct-left : (xs ys : List K) → IsDistinct (xs ++ ys) → IsDistinct xs
  unfolding contains
  IsDistinct-left [] ys d = tt
  IsDistinct-left (x ∷ xs) ys d =
      (ground (arith, contains-append xs ys x, d.0), IsDistinct-left xs ys d.1)

  pub IsDistinct-right : (xs ys : List K) → IsDistinct (xs ++ ys) → IsDistinct ys
  IsDistinct-right [] ys d = d
  IsDistinct-right (x ∷ xs) ys d = IsDistinct-right xs ys d.1

  pub IsDistinct-apart :
      (xs ys : List K) (k : K)
      → IsDistinct (xs ++ ys)
      → contains xs k ≡ true
      → contains ys k ≡ false
  unfolding contains
  IsDistinct-apart [] ys k d m = ground arith
  IsDistinct-apart (x ∷ xs) ys k d m =
      ground (arith, IsDistinct-apart xs ys k d.1, contains-append xs ys x, d.0, e.beq_iff x k)

  pub contains-remove_eq :
      (k : K) (xs : List K) (j : K)
      → IsDistinct xs
      → contains (remove k xs) j ≡ (contains xs j && not (k =? j))
  unfolding contains remove
  contains-remove_eq k [] j d = refl
  contains-remove_eq k (x ∷ xs) j d =
      ground
        (arith, contains-remove_eq k xs j d.1, e.beq_iff x k, e.beq_iff x j, e.beq_iff k j, d.0)

  pub remove-IsDistinct : (k : K) (xs : List K) → IsDistinct xs → IsDistinct (remove k xs)
  unfolding remove contains
  remove-IsDistinct k [] d = tt
  remove-IsDistinct k (x ∷ xs) d = elim (Bool-cases (x =? k)) [
    | inl same ↦ rw same d.1
    | inr other ↦
        rw other (ground (arith, contains-remove_eq k xs x d.1, d.0), remove-IsDistinct k xs d.1)
  ]

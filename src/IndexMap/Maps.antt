-- ===== src/IndexMap/Maps.antt =====
-- `IndexMap`: entries in the order in which their keys were first inserted.
use susun.Prelude.{
  ◌≡◌, ◌↔◌, refl, Bool, false, ◌||◌, Option, none, some, List, [], ◌∷◌, ◌++◌, arith, Eq, ◌=?◌,
  Bool-cases, inl, inr, if◌then◌else◌,
}
use susun.IndexMap.Sets.{contains, IsDistinct, IsDistinct-append}

abbrev pub IndexMap {ℓ κ} : Type ℓ → Type κ → Type (ℓ ⊔ κ)
IndexMap K V = List (K × V)

module _ {ℓ κ} {K : Type ℓ} {V : Type κ} where
  -- `map.keys()`
  unfoldable pub keys : IndexMap K V → List K
  keys [] = []
  keys ((j, v) ∷ m) = j ∷ keys m

  -- `map.values()`
  unfoldable pub values : IndexMap K V → List V
  values [] = []
  values ((j, v) ∷ m) = v ∷ values m

module _ {ℓ κ} {K : Type ℓ} {V : Type κ} ⦃e : Eq K⦄ where
  -- `map.get(&k)`
  unfoldable pub get : IndexMap K V → K → Option V
  get [] k = none
  get ((j, v) ∷ m) k = if j =? k then some v else get m k

  -- `map.insert(k, v)`: the value of a key that is there is replaced where it stands.
  unfoldable pub insert : K → V → IndexMap K V → IndexMap K V
  insert k v [] = (k, v) ∷ []
  insert k v ((j, w) ∷ m) = if j =? k then (j, v) ∷ m else (j, w) ∷ insert k v m

  -- `map.shift_remove(&k)`
  unfoldable pub shift_remove : K → IndexMap K V → IndexMap K V
  shift_remove k [] = []
  shift_remove k ((j, w) ∷ m) = if j =? k then m else (j, w) ∷ shift_remove k m

  -- `map.contains_key(&k)`
  unfoldable pub contains_key : IndexMap K V → K → Bool
  contains_key [] k = false
  contains_key ((j, v) ∷ m) k = j =? k || contains_key m k

  -- `for (k, v) in overlay { map.insert(k, v) }`
  unfoldable pub extend : IndexMap K V → IndexMap K V → IndexMap K V
  unfolding insert
  extend m [] = m
  extend m ((k, v) ∷ more) = extend (insert k v m) more

  pub get-insert :
      (m : IndexMap K V) (k j : K) (v : V)
      → get (insert k v m) j ≡ (if k =? j then some v else get m j)
  unfolding get insert
  get-insert [] k j v = refl
  get-insert ((i, w) ∷ m) k j v =
      ground (arith, e.beq_iff k j, e.beq_iff i k, e.beq_iff i j, get-insert m k j v)

  pub keys-insert :
      (m : IndexMap K V) (k : K) (v : V)
      → keys (insert k v m) ≡ (if contains (keys m) k then keys m else keys m ++ k ∷ [])
  unfolding keys insert contains
  keys-insert [] k v = refl
  keys-insert ((i, w) ∷ m) k v = ground (arith, e.beq_iff i k, keys-insert m k v)

  pub get-none_iff : (m : IndexMap K V) (k : K) → (get m k ≡ none) ↔ (contains (keys m) k ≡ false)
  unfolding get keys contains
  get-none_iff [] k = ground arith
  get-none_iff ((i, w) ∷ m) k = ground (arith, get-none_iff m k)

  pub contains_key-keys : (m : IndexMap K V) (k : K) → contains_key m k ≡ contains (keys m) k
  unfolding contains_key keys contains
  contains_key-keys [] k = refl
  contains_key-keys ((i, w) ∷ m) k = ground (arith, contains_key-keys m k)

  pub get-shift_remove :
      (m : IndexMap K V) (k j : K)
      → IsDistinct (keys m)
      → get (shift_remove k m) j ≡ (if k =? j then none else get m j)
  unfolding get shift_remove keys contains
  get-shift_remove [] k j d = ground arith
  get-shift_remove ((i, w) ∷ m) k j d = ground (
    arith,
    e.beq_iff k j,
    e.beq_iff i k,
    e.beq_iff i j,
    get-shift_remove m k j d.1,
    get-none_iff m i,
  )

  pub contains-keys-shift_remove :
      (m : IndexMap K V) (k j : K)
      → contains (keys m) j ≡ false
      → contains (keys (shift_remove k m)) j ≡ false
  unfolding shift_remove keys contains
  contains-keys-shift_remove [] k j h = ground arith
  contains-keys-shift_remove ((i, w) ∷ m) k j h = ground (arith, contains-keys-shift_remove m k j)

  pub keys-shift_remove-IsDistinct :
      (m : IndexMap K V) (k : K) → IsDistinct (keys m) → IsDistinct (keys (shift_remove k m))
  unfolding shift_remove keys
  keys-shift_remove-IsDistinct [] k d = tt
  keys-shift_remove-IsDistinct ((i, w) ∷ m) k d = elim (Bool-cases (i =? k)) [
    | inl same ↦ rw same d.1
    | inr other ↦
        rw other (contains-keys-shift_remove m k i d.0, keys-shift_remove-IsDistinct m k d.1)
  ]

  pub keys-insert-IsDistinct :
      (m : IndexMap K V) (k : K) (v : V) → IsDistinct (keys m) → IsDistinct (keys (insert k v m))
  unfolding contains
  keys-insert-IsDistinct m k v d = elim (Bool-cases (contains (keys m) k)) [
    | inl old ↦ rw (keys-insert m k v, old) d
    | inr new ↦
        rw (keys-insert m k v, new)
          (IsDistinct-append (keys m) (k ∷ []) d (refl, tt) λ j h. ground (arith, e.beq_iff k j))
  ]

  pub contains-keys-insert :
      (m : IndexMap K V) (k : K) (v : V) (j : K)
      → contains (keys (insert k v m)) j ≡ (k =? j || contains (keys m) j)
  unfolding insert keys contains
  contains-keys-insert [] k v j = refl
  contains-keys-insert ((i, w) ∷ m) k v j =
      ground (arith, e.beq_iff i k, contains-keys-insert m k v j)

  pub keys-extend-IsDistinct :
      (m more : IndexMap K V) → IsDistinct (keys m) → IsDistinct (keys (extend m more))
  unfolding extend
  keys-extend-IsDistinct m [] d = d
  keys-extend-IsDistinct m ((k, v) ∷ more) d =
      keys-extend-IsDistinct (insert k v m) more (keys-insert-IsDistinct m k v d)

  extend-kept :
      (m more : IndexMap K V) (k : K)
      → contains (keys more) k ≡ false
      → get (extend m more) k ≡ get m k
  unfolding extend keys contains
  extend-kept m [] k h = refl
  extend-kept m ((j, v) ∷ more) k h =
      ground (arith, extend-kept (insert j v m) more k, get-insert m j k v, h)

  -- What is added wins.
  pub extend-found :
      (m more : IndexMap K V) (k : K) (v : V)
      → IsDistinct (keys more)
      → get more k ≡ some v
      → get (extend m more) k ≡ some v
  unfolding extend get keys contains
  extend-found m [] k v d h = cc
  extend-found m ((j, w) ∷ more) k v d h = ground (
    arith,
    h,
    d.0,
    e.beq_iff j k,
    extend-kept (insert j w m) more j,
    get-insert m j j w,
    extend-found (insert j w m) more k v d.1,
  )

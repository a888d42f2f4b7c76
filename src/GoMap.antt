-- ===== src/GoMap.antt =====
-- Go's `map[K]V`, as an association list. Go visits a map in no fixed order: a loop over a map is a
-- recursion on the list, and a theorem for every list covers every order.
pub mod Laws
use hxstakepool.Prelude.{
  Bool, true, false, Option, none, some, List, [], ◌∷◌, Eq, ◌==◌, if◌then◌else◌, ◌≡◌, map, ◌&&◌,
  not,
}

abbrev pub GoMap {ℓ} : Type ℓ → Type ℓ → Type ℓ
GoMap K V = List (K × V)

abbrev pub is_some {ℓ} : {A : Type ℓ} → Option A → Bool
is_some none = false
is_some (some _) = true

module _ {ℓ} {K V : Type ℓ} ⦃e : Eq K⦄ where
  -- `v, ok := m[k]`
  unfoldable pub lookup : K → GoMap K V → Option V
  lookup k [] = none
  lookup k ((j, v) ∷ m) = if j == k then some v else lookup k m

  -- `m[k] = v`
  unfoldable pub put : K → V → GoMap K V → GoMap K V
  put k v [] = (k, v) ∷ []
  put k v ((j, w) ∷ m) = if j == k then (k, v) ∷ m else (j, w) ∷ put k v m

  -- `delete(m, k)`
  unfoldable pub delete : K → GoMap K V → GoMap K V
  delete k [] = []
  delete k ((j, w) ∷ m) = let rest = delete k m in if j == k then rest else (j, w) ∷ rest

  -- `_, ok := m[k]`
  abbrev pub has : K → GoMap K V → Bool
  has k m = is_some (lookup k m)

  -- `for k, v := range from { into[k] = v }`
  unfoldable pub put_all : GoMap K V → GoMap K V → GoMap K V
  put_all [] into = into
  put_all ((k, v) ∷ from) into = put_all from (put k v into)

  -- `for _, k := range keys { delete(m, k) }`
  unfoldable pub delete_all : List K → GoMap K V → GoMap K V
  delete_all [] m = m
  delete_all (k ∷ keys) m = delete_all keys (delete k m)

  -- No key stands twice, as in every Go map.
  abbrev pub IsMap : GoMap K V → Type ℓ
  IsMap [] = Unit
  IsMap ((k, v) ∷ m) = (lookup k m ≡ none) × IsMap m

-- ===== src/GoMap/Laws.antt =====
-- What a map holds after each operation, in the form of a test on keys.
use hxstakepool.Prelude.{
  All, Bool, false, Option, none, some, List, [], ◌∷◌, Eq, ◌==◌, if◌then◌else◌, ◌≡◌, refl, arith,
  ◌||◌,
}
use hxstakepool.GoMap.{GoMap, lookup, put, delete, put_all, delete_all, IsMap}

-- The value, or the one given where there is none.
abbrev pub or_else {ℓ} : {A : Type ℓ} → Option A → Option A → Option A
or_else none d = d
or_else (some a) d = some a

abbrev pub elem {ℓ} : {K : Type ℓ} ⦃e : Eq K⦄ → K → List K → Bool
elem j [] = false
elem j (k ∷ keys) = k == j || elem j keys

module _ {ℓ} {K V : Type ℓ} ⦃e : Eq K⦄ where
  pub lookup-put :
      (k j : K) (v : V) (m : GoMap K V)
      → lookup j (put k v m) ≡ (if k == j then some v else lookup j m)
  unfolding lookup put
  lookup-put k j v [] = refl
  lookup-put k j v ((i, w) ∷ m) =
      ground (arith, e.beq_iff k j, e.beq_iff i k, e.beq_iff i j, lookup-put k j v m)

  pub lookup-delete :
      (k j : K) (m : GoMap K V) → lookup j (delete k m) ≡ (if k == j then none else lookup j m)
  unfolding lookup delete
  lookup-delete k j [] = ground arith
  lookup-delete k j ((i, w) ∷ m) =
      ground (arith, e.beq_iff k j, e.beq_iff i k, e.beq_iff i j, lookup-delete k j m)

  pub put-IsMap : (k : K) (v : V) (m : GoMap K V) → IsMap m → IsMap (put k v m)
  unfolding put
  put-IsMap k v [] h = (unfold lookup in refl, tt)
  put-IsMap k v ((i, w) ∷ m) h =
      ground (arith, e.beq_iff i k, put-IsMap k v m h.1, lookup-put k i v m, e.beq_iff k i)

  pub delete-IsMap : (k : K) (m : GoMap K V) → IsMap m → IsMap (delete k m)
  unfolding delete
  delete-IsMap k [] h = tt
  delete-IsMap k ((i, w) ∷ m) h = ground (arith, delete-IsMap k m h.1, lookup-delete k i m)

  -- `from` wins over `into`.
  pub lookup-put_all :
      (j : K) (from into : GoMap K V)
      → IsMap from
      → lookup j (put_all from into) ≡ or_else (lookup j from) (lookup j into)
  unfolding lookup put_all
  lookup-put_all j [] into h = refl
  lookup-put_all j ((k, v) ∷ from) into h =
      ground (arith, lookup-put_all j from (put k v into), lookup-put k j v into, e.beq_iff k j)

  pub put_all-IsMap : (from into : GoMap K V) → IsMap into → IsMap (put_all from into)
  unfolding put_all
  put_all-IsMap [] into h = h
  put_all-IsMap ((k, v) ∷ from) into h = put_all-IsMap from (put k v into) (put-IsMap k v into h)

  pub delete_all-IsMap : (keys : List K) (m : GoMap K V) → IsMap m → IsMap (delete_all keys m)
  unfolding delete_all
  delete_all-IsMap [] m h = h
  delete_all-IsMap (k ∷ keys) m h = delete_all-IsMap keys (delete k m) (delete-IsMap k m h)

  pub lookup-delete_all :
      (j : K) (keys : List K) (m : GoMap K V)
      → lookup j (delete_all keys m) ≡ (if elem j keys then none else lookup j m)
  unfolding delete_all
  lookup-delete_all j [] m = refl
  lookup-delete_all j (k ∷ keys) m =
      ground (arith, lookup-delete_all j keys (delete k m), lookup-delete k j m)

-- What holds of every value that is found holds of every entry.
pub lookup-All :
    {K V : Type 0} ⦃e : Eq K⦄ (P : V → Type 0) (m : GoMap K V)
    → IsMap m
    → ((k : K) (v : V) → lookup k m ≡ some v → P v)
    → All (λ entry. P entry.1) m
unfolding lookup
lookup-All P [] once found = tt
lookup-All ⦃e⦄ P ((k, v) ∷ m) (new, once) found = (
  found k v (ground (arith, e.beq_iff k k)),
  lookup-All P m once (λ j u h. found j u (ground (arith, h, new, e.beq_iff k j))),
)

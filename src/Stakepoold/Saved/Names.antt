-- ===== src/Stakepoold/Saved/Names.antt =====
-- The names of files: what the strings package answers on them, and the order of `ioutil.ReadDir`.
-- A name is the list of its bytes.
use hxstakepool.Prelude.{
  ℕ, ◌+◌, Bool, true, false, ◌&&◌, ◌||◌, List, [], ◌∷◌, ◌++◌, map, if◌then◌else◌, ◌≡◌, refl, ◌↔◌,
  arith, ltb, leb, nat_beq, nat_beq_iff, Eq,
}

abbrev pub Name : Type 0
Name = List ℕ

abbrev pub same_name : Name → Name → Bool
same_name [] [] = true
same_name [] (d ∷ b) = false
same_name (c ∷ a) [] = false
same_name (c ∷ a) (d ∷ b) = nat_beq c d && same_name a b

pub same_name_iff : (a b : Name) → (same_name a b ≡ true) ↔ (a ≡ b)
same_name_iff [] [] = (λ _. refl, λ _. refl)
same_name_iff [] (d ∷ b) = ground arith
same_name_iff (c ∷ a) [] = ground arith
same_name_iff (c ∷ a) (d ∷ b) = ground (arith, same_name_iff a b, nat_beq_iff c d)

instance abbrev pub name_eq : Eq Name
name_eq = record { beq_iff = same_name_iff; beq = same_name }

-- The order of the names in a directory's listing, byte by byte.
unfoldable pub less : Name → Name → Bool
less a [] = false
less [] (d ∷ b) = true
less (c ∷ a) (d ∷ b) = ltb c d || (nat_beq c d && less a b)

-- `strings.ToLower`, of ASCII
unfoldable pub to_lower : ℕ → ℕ
to_lower c = if leb b'A' c && leb c b'Z' then c + 32 else c

-- `strings.HasPrefix`
unfoldable pub has_prefix : (prefix name : Name) → Bool
has_prefix [] name = true
has_prefix (c ∷ prefix) [] = false
has_prefix (c ∷ prefix) (d ∷ name) = nat_beq c d && has_prefix prefix name

-- `strings.Contains`
unfoldable pub contains : (part name : Name) → Bool
unfolding has_prefix
contains part [] = has_prefix part []
contains part (c ∷ name) = has_prefix part (c ∷ name) || contains part name

-- `strings.HasSuffix`
unfoldable pub has_suffix : (suffix name : Name) → Bool
has_suffix suffix [] = same_name suffix []
has_suffix suffix (c ∷ name) = same_name suffix (c ∷ name) || has_suffix suffix name

pub less_irrefl : (a : Name) → less a a ≡ false
unfolding less
less_irrefl [] = refl
less_irrefl (c ∷ a) = ground (arith, less_irrefl a)

pub less_trans : (a b c : Name) → less a b ≡ true → less b c ≡ true → less a c ≡ true
unfolding less
less_trans a b [] ab bc = bc
less_trans [] b (z ∷ c) ab bc = refl
less_trans (x ∷ a) [] (z ∷ c) ab bc = absurd (ground (arith, ab))
less_trans (x ∷ a) (y ∷ b) (z ∷ c) ab bc =
    ground (arith, ab, bc, less_trans a b c, nat_beq_iff x y, nat_beq_iff y z, nat_beq_iff x z)

-- Two names are equal, or one comes first.
pub less_total : (a b : Name) → same_name b a ≡ false → less a b ≡ false → less b a ≡ true
unfolding less
less_total [] [] other late = absurd (ground (arith, other))
less_total [] (y ∷ b) other late = absurd (ground (arith, late))
less_total (x ∷ a) [] other late = refl
less_total (x ∷ a) (y ∷ b) other late =
    ground (arith, other, late, less_total a b, nat_beq_iff x y, nat_beq_iff y x)

pub has_prefix-append : (p s : Name) → has_prefix p (p ++ s) ≡ true
unfolding has_prefix
has_prefix-append [] s = refl
has_prefix-append (c ∷ p) s = ground (arith, has_prefix-append p s)

pub contains-append : (p a s : Name) → contains p (a ++ (p ++ s)) ≡ true
unfolding contains
contains-append [] [] [] = unfold has_prefix in refl
contains-append [] [] (d ∷ s) = unfold has_prefix in refl
contains-append (c ∷ p) [] s = ground (arith, has_prefix-append (c ∷ p) s)
contains-append p (c ∷ a) s = ground (arith, contains-append p a s)

pub has_suffix-append : (s a : Name) → has_suffix s (a ++ s) ≡ true
unfolding has_suffix
has_suffix-append [] [] = refl
has_suffix-append (c ∷ s) [] = ground (arith, same_name_iff (c ∷ s) (c ∷ s))
has_suffix-append s (c ∷ a) = ground (arith, has_suffix-append s a)

pub map-append : (f : ℕ → ℕ) (a b : Name) → map f (a ++ b) ≡ map f a ++ map f b
map-append f [] b = refl
map-append f (c ∷ a) b = cc (map-append f a b)

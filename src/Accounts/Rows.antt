-- ===== src/Accounts/Rows.antt =====
-- Lists of rows under `select` and `update`, and columns in which no value stands twice.
use hxstakepool.Prelude.{
  Bool, true, false, List, [], ◌∷◌, ◌++◌, none, some, if◌then◌else◌, Eq, ◌==◌, ◌≡◌, ◌≢◌, refl, sym,
  ◌∙◌, ap, subst, arith, All, All-append, Member, ◌⊎◌, Bool-cases, inl, inr,
}
use hxstakepool.Accounts.Tables.{select, only, update}

-- No value of the column stands twice.
abbrev pub Distinct : {A B : Type 0} → (A → B) → List A → Type 0
Distinct f [] = Unit
Distinct f (row ∷ rows) = All (λ v. f v ≢ f row) rows × Distinct f rows

pub All-map :
    {A : Type 0} {P Q : A → Type 0} (rows : List A)
    → ((a : A) → P a → Q a)
    → All P rows
    → All Q rows
All-map [] h all = tt
All-map (row ∷ rows) h (p, all) = (h row p, All-map rows h all)

pub All-Member :
    {A : Type 0} (P : A → Type 0) (row : A) (rows : List A) → Member row rows → All P rows → P row
All-Member P row [] m all = elim m [ ]
All-Member P row (r ∷ rows) (inl e) (p, all) = subst P (sym e) p
All-Member P row (r ∷ rows) (inr m) (p, all) = All-Member P row rows m all

only-none :
    {A : Type 0} (found : List A)
    → only found ≡ none
    → ((row : A) (rest : List A) → found ≡ row ∷ rest → rest ≡ [])
    → found ≡ []
only-none [] h single = refl
only-none (row ∷ []) h single = absurd (ground (arith, h))
only-none (row ∷ row2 ∷ more) h single = absurd (ground (arith, single row (row2 ∷ more) refl))

module _ {A B : Type 0} ⦃e : Eq B⦄ (f : A → B) where
  -- A value that no row has.
  abbrev pub Absent : B → List A → Type 0
  Absent x = All (λ v. f v ≢ x)

  pub select-Absent : (x : B) (rows : List A) → Absent x rows → select (λ v. f v == x) rows ≡ []
  unfolding select
  select-Absent x [] h = refl
  select-Absent x (row ∷ rows) (ne, h) =
      ground (arith, select-Absent x rows h, e.beq_iff (f row) x, ne)

  pub Absent-select : (x : B) (rows : List A) → select (λ v. f v == x) rows ≡ [] → Absent x rows
  unfolding select
  Absent-select x [] h = tt
  Absent-select x (row ∷ rows) h = elim (Bool-cases (f row == x)) [
    | inl same ↦ absurd (ground (arith, h, same))
    | inr other ↦ (
      λ eq. ground (arith, other, e.beq_iff (f row) x, eq),
      Absent-select x rows (ground (arith, h, other)),
    )
  ]

  -- In a column without repetitions, at most one row fits.
  pub select-Distinct :
      (x : B) (rows : List A) {row : A} {rest : List A}
      → Distinct f rows
      → select (λ v. f v == x) rows ≡ row ∷ rest
      → rest ≡ []
  unfolding select
  select-Distinct x [] d h = absurd (ground (arith, h))
  select-Distinct x (r ∷ rows) {row} {rest} (ne, d) h = elim (Bool-cases (f r == x)) [
    | inr other ↦ select-Distinct x rows {row = row} {rest = rest} d (ground (arith, h, other))
    | inl same ↦
        let none_left =
          select-Absent x rows
            (subst (λ y. All (λ v. f v ≢ y) rows) ((e.beq_iff (f r) x).0 same) ne) in
        ground (arith, h, same, none_left)
  ]

  pub none-Absent :
      (x : B) (rows : List A)
      → Distinct f rows
      → only (select (λ v. f v == x) rows) ≡ none
      → Absent x rows
  none-Absent x rows d h =
      Absent-select x rows
        (only-none (select (λ v. f v == x) rows) h (λ row rest eq. select-Distinct x rows d eq))

  -- A row that stands in the table is the one that is found.
  pub only-Member :
      (x : B) (row : A) (rows : List A)
      → Distinct f rows
      → Member row rows
      → f row ≡ x
      → select (λ v. f v == x) rows ≡ row ∷ []
  unfolding select
  only-Member x row [] d m eq = elim m [ ]
  only-Member x row (r ∷ rows) (ne, d) (inl same) eq =
      let at : f r ≡ x = ap f (sym same) ∙ eq in
      let none_left = select-Absent x rows (subst (λ y. All (λ v. f v ≢ y) rows) at ne) in
      ground (arith, e.beq_iff (f r) x, at, none_left, same)
  only-Member x row (r ∷ rows) (ne, d) (inr m) eq =
      let differs : f row ≢ f r = All-Member (λ v. f v ≢ f r) row rows m ne in
      let rest = only-Member x row rows d m eq in
      elim (Bool-cases (f r == x)) [
        | inl same ↦ absurd (differs (eq ∙ sym ((e.beq_iff (f r) x).0 same)))
        | inr other ↦ ground (arith, other, rest)
      ]

  pub append-Distinct :
      (row : A) (rows : List A)
      → Distinct f rows
      → Absent (f row) rows
      → Distinct f (rows ++ (row ∷ []))
  append-Distinct row [] d h = (tt, tt)
  append-Distinct row (r ∷ rows) (ne, d) (other, h) = (
    All-append (λ v. f v ≢ f r) rows (row ∷ []) ne ((λ eq. other (sym eq)), tt),
    append-Distinct row rows d h,
  )

  -- What is found is in the table and fits.
  pub select_sound :
      (x : B) (rows : List A) {row : A} {rest : List A}
      → select (λ v. f v == x) rows ≡ row ∷ rest
      → Member row rows × (f row ≡ x)
  unfolding select
  select_sound x [] h = absurd (ground (arith, h))
  select_sound x (r ∷ rows) {row} {rest} h = elim (Bool-cases (f r == x)) [
    | inr other ↦
        let (m, eq) = select_sound x rows {row = row} {rest = rest} (ground (arith, h, other)) in
        (inr m, eq)
    | inl same ↦
        let first : r ≡ row = ground (arith, h, same) in
        (inl (sym first), ap f (sym first) ∙ (e.beq_iff (f r) x).0 same)
  ]

pub only-eq_some : {A : Type 0} (rows : List A) {row : A} → only rows ≡ some row → rows ≡ row ∷ []
only-eq_some [] h = absurd (ground (arith, h))
only-eq_some (r ∷ []) h = ground (arith, h)
only-eq_some (r ∷ r2 ∷ rows) h = absurd (ground (arith, h))

module _ {A : Type 0} (p : A → Bool) (set : A → A) where
  pub All-update :
      (P : A → Type 0) (rows : List A)
      → All P rows
      → All (λ v. p v ≡ true → P (set v)) rows
      → All P (update p set rows)
  unfolding update
  All-update P [] all after = tt
  All-update P (row ∷ rows) (q, all) (after_row, after) = (
    elim (Bool-cases (p row)) [
      | inl fits ↦
          let eq : set row ≡ (if p row then set row else row) = ground (arith, fits) in
          subst P eq (after_row fits)
      | inr other ↦
          let eq : row ≡ (if p row then set row else row) = ground (arith, other) in subst P eq q
    ],
    All-update P rows all after,
  )

  -- The rows that do not fit stay.
  pub update-none : (rows : List A) → All (λ v. p v ≡ false) rows → update p set rows ≡ rows
  unfolding update
  update-none [] none_fits = refl
  update-none (row ∷ rows) (other, none_fits) = ground (arith, other, update-none rows none_fits)

keep_apart :
    {A B : Type 0} (f : A → B) (p : A → Bool) (set : A → A) (row row2 : A)
    → f row ≡ f row2
    → (rows : List A) → All (λ v. p v ≡ true → f (set v) ≡ f v) rows
    → All (λ v. f v ≢ f row) rows
    → All (λ v. p v ≡ true → f (set v) ≢ f row2) rows
keep_apart f p set row row2 head [] kept ne = tt
keep_apart f p set row row2 head (v ∷ rows) (kept_v, kept) (other, ne) = (
  λ fits eq. other (sym (kept_v fits) ∙ eq ∙ sym head),
  keep_apart f p set row row2 head rows kept ne,
)

module _ {A B : Type 0} (f : A → B) (p : A → Bool) (set : A → A) where
  -- An update that leaves the column alone.
  pub update-Distinct :
      (rows : List A)
      → All (λ v. p v ≡ true → f (set v) ≡ f v) rows
      → Distinct f rows
      → Distinct f (update p set rows)
  unfolding update
  update-Distinct [] kept d = tt
  update-Distinct (row ∷ rows) (kept_row, kept) (ne, d) =
      let row2 : A = if p row then set row else row in
      let head : f row ≡ f row2 = elim (Bool-cases (p row)) [
        | inl fits ↦ ground (arith, fits, kept_row fits)
        | inr other ↦ ground (arith, other)
      ] in
      (
        All-update p set (λ v. f v ≢ f row2) rows
            (All-map {P = λ v. f v ≢ f row} {Q = λ v. f v ≢ f row2} rows
              (λ v other eq. other (eq ∙ sym head)) ne)
            (keep_apart f p set row row2 head rows kept ne),
        update-Distinct rows kept d,
      )

-- An update of the one row at a key, to a value of the column that no row has.
module _ {A B C : Type 0} ⦃e : Eq B⦄ ⦃k : Eq C⦄ (f : A → B) (g : A → C) (set : A → A) (x : B)
    (i : C) where
  pub update-Distinct_new :
      ((v : A) → f (set v) ≡ x)
      → (rows : List A) → Absent f x rows
      → Distinct f rows
      → Distinct g rows
      → Distinct f (update (λ v. g v == i) set rows)
  unfolding update
  update-Distinct_new new [] absent d ids = tt
  update-Distinct_new new (row ∷ rows) (free, absent) (ne, d) (id_ne, ids) =
      elim (Bool-cases (g row == i)) [
        | inl fits ↦
            let at : g row ≡ i = (k.beq_iff (g row) i).0 fits in
            let rest =
              update-none (λ v. g v == i) set rows
                (All-map {P = λ v. g v ≢ g row} {Q = λ v. (g v == i) ≡ false} rows
                  (λ v other. ground (arith, k.beq_iff (g v) i, at, other)) id_ne) in
            let head : All (λ v. f v ≢ f (set row)) rows =
              subst (λ y. All (λ v. f v ≢ y) rows) (sym (new row)) absent in
            let eq : set row ∷ rows
                ≡ (if g row == i then set row else row) ∷ update (λ v. g v == i) set rows =
              ground (arith, fits, rest) in
            subst (Distinct f) eq (head, d)
        | inr other ↦
            let head : All (λ v. f v ≢ f row) (update (λ v. g v == i) set rows) =
              All-update (λ v. g v == i) set (λ v. f v ≢ f row) rows ne
                (All-map {P = λ v. f v ≢ x} {Q = λ v. (g v == i) ≡ true → f (set v) ≢ f row} rows
                  (λ v absent2 fits eq. free (sym eq ∙ new v)) absent) in
            let eq : row ∷ update (λ v. g v == i) set rows
                ≡ (if g row == i then set row else row) ∷ update (λ v. g v == i) set rows =
              ground (arith, other) in
            subst (Distinct f) eq (head, update-Distinct_new new rows absent d ids)
      ]

-- What holds of the rows that are selected holds of those that fit.
pub All-select :
    {A : Type 0} (P : A → Type 0) (p : A → Bool) (rows : List A)
    → All P (select p rows)
    → All (λ v. p v ≡ true → P v) rows
unfolding select
All-select P p [] all = tt
All-select P p (row ∷ rows) all = elim (Bool-cases (p row)) [
  | inl fits ↦
      let eq : select p (row ∷ rows) ≡ row ∷ select p rows = ground (arith, fits) in
      let (q, rest) = subst (All P) eq all in ((λ _. q), All-select P p rows rest)
  | inr other ↦
      let eq : select p (row ∷ rows) ≡ select p rows = ground (arith, other) in
      ((λ fits. absurd (ground (arith, fits, other))), All-select P p rows (subst (All P) eq all))
]

pub Member-append :
    {A : Type 0} (row : A) (rows more : List A) → Member row rows → Member row (rows ++ more)
Member-append row [] more m = elim m [ ]
Member-append row (r ∷ rows) more (inl e) = inl e
Member-append row (r ∷ rows) more (inr m) = inr (Member-append row rows more m)

pub Member-append_last : {A : Type 0} (row : A) (rows : List A) → Member row (rows ++ (row ∷ []))
Member-append_last row [] = inl refl
Member-append_last row (r ∷ rows) = inr (Member-append_last row rows)

-- A row of the table stands in the new one, as the update leaves it.
pub Member-update :
    {A : Type 0} (p : A → Bool) (set : A → A) (row : A) (rows : List A)
    → Member row rows
    → Member (if p row then set row else row) (update p set rows)
unfolding update
Member-update p set row [] m = elim m [ ]
Member-update p set row (r ∷ rows) (inl e) = inl (ap (λ (v : _). if p v then set v else v) e)
Member-update p set row (r ∷ rows) (inr m) = inr (Member-update p set row rows m)

-- A row of the new table is one of the old, or what the update makes of one that fits.
pub update-Member :
    {A : Type 0} (p : A → Bool) (set : A → A) (row : A) (rows : List A)
    → Member row (update p set rows)
    → Member row rows ⊎ ((old : A) × Member old rows × (p old ≡ true) × (row ≡ set old))
unfolding update
update-Member p set row [] m = elim m [ ]
update-Member p set row (r ∷ rows) (inl e) = elim (Bool-cases (p r)) [
  | inl fits ↦ inr (r, inl refl, fits, ground (arith, e, fits))
  | inr other ↦ inl (inl (ground (arith, e, other)))
]
update-Member p set row (r ∷ rows) (inr m) = elim (update-Member p set row rows m) [
  | inl old ↦ inl (inr old)
  | inr (old, m2, fits, eq) ↦ inr (old, inr m2, fits, eq)
]

-- A value that no earlier row has is found in the row that was added.
pub select-append :
    {A : Type 0} (p : A → Bool) (rows more : List A)
    → select p rows ≡ []
    → select p (rows ++ more) ≡ select p more
unfolding select
select-append p [] more h = refl
select-append p (r ∷ rows) more h = elim (Bool-cases (p r)) [
  | inl fits ↦ absurd (ground (arith, h, fits))
  | inr other ↦ ground (arith, other, select-append p rows more (ground (arith, h, other)))
]

pub append-Member :
    {A : Type 0} (row last : A) (rows : List A)
    → Member row (rows ++ (last ∷ []))
    → Member row rows ⊎ (row ≡ last)
append-Member row last [] m = elim m [ inl e ↦ inr e | inr absurd_m ↦ elim absurd_m [ ] ]
append-Member row last (r ∷ rows) (inl e) = inl (inl e)
append-Member row last (r ∷ rows) (inr m) = elim (append-Member row last rows m) [
  | inl m2 ↦ inl (inr m2)
  | inr e ↦ inr e
]

pub select-++ :
    {A : Type 0} (p : A → Bool) (rows more : List A)
    → select p (rows ++ more) ≡ select p rows ++ select p more
unfolding select
select-++ p [] more = refl
select-++ p (r ∷ rows) more = ground (arith, select-++ p rows more)

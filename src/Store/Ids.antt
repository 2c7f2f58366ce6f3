-- ===== src/Store/Ids.antt =====
-- Tables whose rows have their own ids: an update by id changes one row.
use pg_master_backend.Prelude.{
  subst, ℕ, suc, ◌+◌, ◌<◌, ◌≡◌, ◌≢◌, refl, inl, inr, Bool, true, none, some, List, [], ◌∷◌, ◌++◌,
  arith, ap, ◌==◌, All, sum_by, Bool-cases, ◌&&◌,
}
use pg_master_backend.Store.Rows.{
  find_many, All-find_many, delete_many, All-delete_many, find_first-All, find_first-update_ne,
  Table, find_first, find_first-true, update_many, create, update_rows,
}

module _ {ℓ} {A : Type ℓ} (ident : A → ℕ) where
  abbrev pub HasUniqueIds : List A → Type 0
  HasUniqueIds [] = Unit
  HasUniqueIds (x ∷ xs) = All (λ y. ident y ≢ ident x) xs × HasUniqueIds xs

  -- Ids are distinct, and below the counter that the next one is taken from.
  abbrev pub IsKeyed : Table A → Type 0
  IsKeyed t = HasUniqueIds t.rows × All (λ x. ident x < t.next_id) t.rows

  pub update_many_absent :
      (k : ℕ) (f : A → A) (xs : List A)
      → All (λ x. ident x ≢ k) xs
      → update_many (λ x. ident x == k) f xs ≡ xs
  update_many_absent k f [] away = refl
  update_many_absent k f (x ∷ xs) away = ground (arith, update_many_absent k f xs away.1)

  away_from :
      (k j : ℕ) (xs : List A) → k ≡ j → All (λ x. ident x ≢ k) xs → All (λ x. ident x ≢ j) xs
  away_from k j xs e h = rw e at h

  -- Updating one row by its id changes a sum over the table by that row's change.
  pub sum_by-update_id :
      (g : A → ℕ) (k : ℕ) (f : A → A) (xs : List A) {old : A}
      → HasUniqueIds xs
      → find_first (λ x. ident x == k) xs ≡ some old
      → sum_by g (update_many (λ x. ident x == k) f xs) + g old ≡ sum_by g xs + g (f old)
  sum_by-update_id g k f [] u found = ground arith
  sum_by-update_id g k f (x ∷ xs) {old} u found = elim (Bool-cases (ident x == k)) [
    | inl hit ↦
        let e : x ≡ old = ground arith in
        let k_is : ident x ≡ k = ground arith in
        ground (
          arith,
          ap g e,
          ap (λ a. g (f a)) e,
          update_many_absent k f xs (away_from (ident x) k xs k_is u.0),
        )
    | inr miss ↦ ground (arith, sum_by-update_id g k f xs {old = old} u.1)
  ]

  delete_many_absent :
      (k : ℕ) (xs : List A) → All (λ x. ident x ≢ k) xs → delete_many (λ x. ident x == k) xs ≡ xs
  delete_many_absent k [] away = refl
  delete_many_absent k (x ∷ xs) away = ground (arith, delete_many_absent k xs away.1)

  -- Deleting one row by its id takes what it adds from a sum over the table.
  pub sum_by-delete_id :
      (g : A → ℕ) (k : ℕ) (xs : List A) {old : A}
      → HasUniqueIds xs
      → find_first (λ x. ident x == k) xs ≡ some old
      → sum_by g (delete_many (λ x. ident x == k) xs) + g old ≡ sum_by g xs
  sum_by-delete_id g k [] u found = ground arith
  sum_by-delete_id g k (x ∷ xs) {old} u found = elim (Bool-cases (ident x == k)) [
    | inl hit ↦
        let e : x ≡ old = ground arith in
        let k_is : ident x ≡ k = ground arith in
        ground (arith, ap g e, delete_many_absent k xs (away_from (ident x) k xs k_is u.0))
    | inr miss ↦ ground (arith, sum_by-delete_id g k xs {old = old} u.1)
  ]

  -- A row that was deleted is not found.
  pub find_first-delete_id :
      (k : ℕ) (xs : List A)
      → find_first (λ x. ident x == k) (delete_many (λ x. ident x == k) xs) ≡ none
  find_first-delete_id k [] = refl
  find_first-delete_id k (x ∷ xs) = elim (Bool-cases (ident x == k)) [
    | inl hit ↦ rw hit (find_first-delete_id k xs)
    | inr miss ↦ rw miss (rw miss (find_first-delete_id k xs))
  ]

  -- The same for a property of every row.
  pub All-update_id {κ} :
      (P : A → Type κ) (k : ℕ) (f : A → A) (xs : List A) {old : A}
      → HasUniqueIds xs
      → find_first (λ x. ident x == k) xs ≡ some old
      → P (f old)
      → All P xs
      → All P (update_many (λ x. ident x == k) f xs)
  All-update_id P k f [] u found new all = tt
  All-update_id P k f (x ∷ xs) {old} u found new all = elim (Bool-cases (ident x == k)) [
    | inl hit ↦
        let e : old ≡ x = ground arith in
        let k_is : ident x ≡ k = ground arith in
        rw (hit, update_many_absent k f xs (away_from (ident x) k xs k_is u.0))
          (subst (λ a. P (f a)) e new, all.1)
    | inr miss ↦ rw miss (all.0, All-update_id P k f xs u.1 (ground arith) new all.1)
  ]

  -- A row that is found by some key is found by its own id.
  pub find_first_own_id :
      (k : ℕ) (xs : List A) {a : A}
      → find_first (λ x. ident x == k) xs ≡ some a
      → find_first (λ x. ident x == ident a) xs ≡ some a
  find_first_own_id k xs {a} found =
      let hit = find_first-true (λ x. ident x == k) xs found in
      let e : k ≡ ident a = ground arith in
      subst (λ j. find_first (λ x. ident x == j) xs ≡ some a) e found

  pub HasUniqueIds-delete :
      (p : A → Bool) (xs : List A) → HasUniqueIds xs → HasUniqueIds (delete_many p xs)
  HasUniqueIds-delete p [] u = tt
  HasUniqueIds-delete p (x ∷ xs) u = elim (Bool-cases (p x)) [
    | inl hit ↦ rw hit (HasUniqueIds-delete p xs u.1)
    | inr miss ↦
        rw miss (All-delete_many (λ y. ident y ≢ ident x) p xs u.0, HasUniqueIds-delete p xs u.1)
  ]

  module _ (p : A → Bool) (f : A → A) (keeps : (x : A) → ident (f x) ≡ ident x) where
    All-update_ids :
        (j : ℕ) (xs : List A)
        → All (λ y. ident y ≢ j) xs
        → All (λ y. ident y ≢ j) (update_many p f xs)
    All-update_ids j [] h = tt
    All-update_ids j (x ∷ xs) h = (ground (arith, keeps x), All-update_ids j xs h.1)

    pub HasUniqueIds-update : (xs : List A) → HasUniqueIds xs → HasUniqueIds (update_many p f xs)
    HasUniqueIds-update [] u = tt
    HasUniqueIds-update (x ∷ xs) u = elim (Bool-cases (p x)) [
      | inl hit ↦ rw (hit, keeps x) (All-update_ids (ident x) xs u.0, HasUniqueIds-update xs u.1)
      | inr miss ↦ rw miss (All-update_ids (ident x) xs u.0, HasUniqueIds-update xs u.1)
    ]

    below-update :
        (n : ℕ) (xs : List A)
        → All (λ x. ident x < n) xs
        → All (λ x. ident x < n) (update_many p f xs)
    below-update n [] h = tt
    below-update n (x ∷ xs) h = (ground (arith, keeps x), below-update n xs h.1)

    pub IsKeyed-update_rows : (t : Table A) → IsKeyed t → IsKeyed (update_rows p f t)
    IsKeyed-update_rows t k = (HasUniqueIds-update t.rows k.0, below-update t.next_id t.rows k.1)

  pub IsKeyed-delete :
      (p : A → Bool) (t : Table A) → IsKeyed t → IsKeyed (record t { rows = delete_many p t.rows })
  IsKeyed-delete p t k =
      (HasUniqueIds-delete p t.rows k.0, All-delete_many (λ x. ident x < t.next_id) p t.rows k.1)

  HasUniqueIds-snoc :
      (xs : List A) (a : A)
      → HasUniqueIds xs
      → All (λ x. ident x < ident a) xs
      → HasUniqueIds (xs ++ a ∷ [])
  HasUniqueIds-snoc [] a u below = (tt, tt)
  HasUniqueIds-snoc (x ∷ xs) a u below =
      (All-snoc xs u.0 (omega arith), HasUniqueIds-snoc xs a u.1 below.1)
    where
      All-snoc :
          (ys : List A)
          → All (λ y. ident y ≢ ident x) ys
          → ident a ≢ ident x
          → All (λ y. ident y ≢ ident x) (ys ++ a ∷ [])
      All-snoc [] h n = (n, tt)
      All-snoc (y ∷ ys) h n = (h.0, All-snoc ys h.1 n)

  below-snoc :
      (n : ℕ) (xs : List A) (a : A)
      → All (λ x. ident x < n) xs
      → ident a ≡ n
      → All (λ x. ident x < suc n) (xs ++ a ∷ [])
  below-snoc n [] a h e = (omega arith, tt)
  below-snoc n (x ∷ xs) a h e = (omega arith, below-snoc n xs a h.1 e)

  pub IsKeyed-create :
      (row : ℕ → A)
      → ((i : ℕ) → ident (row i) ≡ i)
      → (t : Table A) → IsKeyed t
      → IsKeyed (create row t)
  IsKeyed-create row at t k = (
    HasUniqueIds-snoc t.rows (row t.next_id) k.0 (rw (at t.next_id) k.1),
    below-snoc t.next_id t.rows (row t.next_id) k.1 (at t.next_id),
  )

module _ {ℓ} {A : Type ℓ} (ident : A → ℕ) where
  -- Whatever finds a row, its id finds it too.
  pub find_first_by_id :
      (p : A → Bool) (xs : List A) {a : A}
      → HasUniqueIds ident xs
      → find_first p xs ≡ some a
      → find_first (λ x. ident x == ident a) xs ≡ some a
  find_first_by_id p [] u found = ground arith
  find_first_by_id p (x ∷ xs) {a} u found = elim (Bool-cases (p x)) [
    | inl hit ↦ let e : x ≡ a = ground arith in ground (arith, ap ident e)
    | inr miss ↦
        let later : find_first p xs ≡ some a = ground arith in
        let away : ident a ≢ ident x = find_first-All (λ y. ident y ≢ ident x) p xs u.0 later in
        ground (arith, find_first_by_id p xs {a = a} u.1 later)
  ]

  pub find_first-update_other :
      (k j : ℕ) (f : A → A) (xs : List A)
      → ((x : A) → ident (f x) ≡ ident x)
      → k ≢ j
      → find_first (λ x. ident x == k) (update_many (λ x. ident x == j) f xs)
        ≡ find_first (λ x. ident x == k) xs
  find_first-update_other k j f xs keeps ne =
      find_first-update_ne (λ x. ident x == k) (λ x. ident x == j) f xs
        (λ x at. (ground arith, ground (arith, keeps x)))

  -- A row that is found by its id among some of the rows is the one found among all of them.
  pub find_first-find_many :
      (q : A → Bool) (k : ℕ) (xs : List A) {a : A}
      → HasUniqueIds ident xs
      → find_first (λ x. ident x == k) (find_many q xs) ≡ some a
      → find_first (λ x. ident x == k) xs ≡ some a
  find_first-find_many q k [] u found = ground arith
  find_first-find_many q k (x ∷ xs) {a} u found = elim (Bool-cases (q x)) [
    | inl kept ↦ elim (Bool-cases (ident x == k)) [
      | inl hit ↦ ground arith
      | inr miss ↦
          let later : find_first (λ x. ident x == k) (find_many q xs) ≡ some a = ground arith in
          ground (arith, find_first-find_many q k xs {a = a} u.1 later)
    ]
    | inr dropped ↦
        let later : find_first (λ x. ident x == k) (find_many q xs) ≡ some a = ground arith in
        let away : ident a ≢ ident x =
          find_first-All (λ y. ident y ≢ ident x) (λ x. ident x == k) (find_many q xs)
            (All-find_many (λ y. ident y ≢ ident x) q xs u.0) later in
        let hit = find_first-true (λ x. ident x == k) (find_many q xs) later in
        ground (arith, find_first-find_many q k xs {a = a} u.1 later)
  ]

  -- A row found by its id answers a search that asks more of it, if it has that.
  pub find_first_and :
      (k : ℕ) (q : A → Bool) (xs : List A) {a : A}
      → find_first (λ x. ident x == k) xs ≡ some a
      → q a ≡ true
      → find_first (λ x. ident x == k && q x) xs ≡ some a
  find_first_and k q [] found fits = ground arith
  find_first_and k q (x ∷ xs) {a} found fits = elim (Bool-cases (ident x == k)) [
    | inl hit ↦ let e : x ≡ a = ground arith in ground (arith, ap q e)
    | inr miss ↦
        let later : find_first (λ x. ident x == k) xs ≡ some a = ground arith in
        ground (arith, find_first_and k q xs {a = a} later fits)
  ]

  -- And the other way round.
  pub find_first_of_and :
      (k : ℕ) (q : A → Bool) (xs : List A) {a : A}
      → HasUniqueIds ident xs
      → find_first (λ x. ident x == k && q x) xs ≡ some a
      → (find_first (λ x. ident x == k) xs ≡ some a) × (q a ≡ true)
  find_first_of_and k q xs {a} u found =
      let at = find_first-true (λ x. ident x == k && q x) xs found in
      let e : ident a ≡ k = ground arith in
      (
        subst (λ j. find_first (λ x. ident x == j) xs ≡ some a) e
            (find_first_by_id (λ x. ident x == k && q x) xs u found),
        ground arith,
      )

  -- An update of the row that was stored last.
  pub update_last :
      (f : A → A) (t : Table A) (row : A)
      → IsKeyed ident t
      → ident row ≡ t.next_id
      → update_many (λ x. ident x == t.next_id) f (t.rows ++ row ∷ []) ≡ t.rows ++ f row ∷ []
  update_last f t row keyed its = go t.rows keyed.1
    where
      go :
          (xs : List A)
          → All (λ x. ident x < t.next_id) xs
          → update_many (λ x. ident x == t.next_id) f (xs ++ row ∷ []) ≡ xs ++ f row ∷ []
      go [] below = ground (arith, its)
      go (x ∷ xs) below = ground (arith, go xs below.1)

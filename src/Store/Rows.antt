-- ===== src/Store/Rows.antt =====
-- The calls on one table of the database: the rows in storage order, and the counter that
-- `@default(autoincrement())` of prisma/schema.prisma takes ids from.
use pg_master_backend.Prelude.{
  ◌∙◌, subst, ℕ, suc, ◌≡◌, refl, inl, inr, Bool, true, false, Option, none, some, List, [], ◌∷◌,
  ◌++◌, arith, if◌then◌else◌, All, Bool-cases, ap, sum_by, ◌≤◌, ◌&&◌,
}

pub record Table {ℓ} (A : Type ℓ) : Type ℓ where
  pub rows : List A
  pub next_id : ℕ

module _ {ℓ} {A : Type ℓ} where
  -- findFirst, and findUnique at a unique key
  abbrev pub find_first : (A → Bool) → List A → Option A
  find_first p [] = none
  find_first p (x ∷ xs) = if p x then some x else find_first p xs

  -- findMany
  abbrev pub find_many : (A → Bool) → List A → List A
  find_many p [] = []
  find_many p (x ∷ xs) = let rest = find_many p xs in if p x then x ∷ rest else rest

  -- updateMany, and update at a unique key
  abbrev pub update_many : (A → Bool) → (A → A) → List A → List A
  update_many p f [] = []
  update_many p f (x ∷ xs) = (if p x then f x else x) ∷ update_many p f xs

  -- deleteMany
  abbrev pub delete_many : (A → Bool) → List A → List A
  delete_many p [] = []
  delete_many p (x ∷ xs) = let rest = delete_many p xs in if p x then rest else x ∷ rest

  -- create
  abbrev pub create : (ℕ → A) → Table A → Table A
  create row t = record { rows = t.rows ++ row t.next_id ∷ []; next_id = suc t.next_id }

  abbrev pub update_rows : (A → Bool) → (A → A) → Table A → Table A
  update_rows p f t = record t { rows = update_many p f t.rows }

  pub find_first-true : (p : A → Bool) (xs : List A) {a : A} → find_first p xs ≡ some a → p a ≡ true
  find_first-true p [] h = ground arith
  find_first-true p (x ∷ xs) {a} h = elim (Bool-cases (p x)) [
    | inl yes_x ↦ ground arith
    | inr no_x ↦ find_first-true p xs (ground arith)
  ]

  pub find_first-All {κ} :
      (P : A → Type κ) (p : A → Bool) (xs : List A) {a : A}
      → All P xs
      → find_first p xs ≡ some a
      → P a
  find_first-All P p [] all h = ground arith
  find_first-All P p (x ∷ xs) {a} all h = elim (Bool-cases (p x)) [
    | inl here ↦ let e : x ≡ a = ground arith in subst P e all.0
    | inr later ↦ find_first-All P p xs all.1 (ground arith)
  ]

  pub All-update_many {κ} :
      (P : A → Type κ) (p : A → Bool) (f : A → A) (xs : List A)
      → ((x : A) → p x ≡ true → P x → P (f x))
      → All P xs
      → All P (update_many p f xs)
  All-update_many P p f [] keep all = tt
  All-update_many P p f (x ∷ xs) keep all = elim (Bool-cases (p x)) [
    | inl hit ↦ (rw hit (keep x hit all.0), All-update_many P p f xs keep all.1)
    | inr miss ↦ (rw miss all.0, All-update_many P p f xs keep all.1)
  ]

  pub All-find_many {κ} :
      (P : A → Type κ) (p : A → Bool) (xs : List A) → All P xs → All P (find_many p xs)
  All-find_many P p [] all = tt
  All-find_many P p (x ∷ xs) all = elim (Bool-cases (p x)) [
    | inl hit ↦ rw hit (all.0, All-find_many P p xs all.1)
    | inr miss ↦ rw miss (All-find_many P p xs all.1)
  ]

  pub find_many-true : (p : A → Bool) (xs : List A) → All (λ x. p x ≡ true) (find_many p xs)
  find_many-true p [] = tt
  find_many-true p (x ∷ xs) = elim (Bool-cases (p x)) [
    | inl hit ↦ rw hit (hit, find_many-true p xs)
    | inr miss ↦ rw miss (find_many-true p xs)
  ]

  -- An update that a search does not look at leaves what it finds to be updated in its place.
  pub find_first-update :
      (p q : A → Bool) (f : A → A) (xs : List A) {a : A}
      → ((x : A) → p (f x) ≡ p x)
      → find_first p xs ≡ some a
      → find_first p (update_many q f xs) ≡ some (if q a then f a else a)
  find_first-update p q f [] {a} same found = ground arith
  find_first-update p q f (x ∷ xs) {a} same found = elim (Bool-cases (p x)) [
    | inl hit ↦ let e : x ≡ a = ground arith in ground (arith, same x, ap q e, ap f e)
    | inr miss ↦ ground (arith, same x, find_first-update p q f xs {a = a} same)
  ]

  -- A search that no updated row answers finds what it found before.
  pub find_first-update_ne :
      (p q : A → Bool) (f : A → A) (xs : List A)
      → ((x : A) → q x ≡ true → (p x ≡ false) × (p (f x) ≡ false))
      → find_first p (update_many q f xs) ≡ find_first p xs
  find_first-update_ne p q f [] apart = refl
  find_first-update_ne p q f (x ∷ xs) apart = elim (Bool-cases (q x)) [
    | inl hit ↦ let a = apart x hit in rw (hit, a.0, a.1) (find_first-update_ne p q f xs apart)
    | inr miss ↦ ground (arith, find_first-update_ne p q f xs apart)
  ]

  -- The row that an update is for is found updated.
  pub find_first-updated :
      (p : A → Bool) (f : A → A) (xs : List A) {a : A}
      → ((x : A) → p (f x) ≡ p x)
      → find_first p xs ≡ some a
      → find_first p (update_many p f xs) ≡ some (f a)
  find_first-updated p f xs {a} same found =
      find_first-update p p f xs same found
      ∙ ap (λ b. some (if b then f a else a)) (find_first-true p xs found)

  -- A sum over the rows is at least what a row that is found adds to it.
  pub sum_by-find :
      (g : A → ℕ) (p : A → Bool) (xs : List A) {a : A}
      → find_first p xs ≡ some a
      → g a ≤ sum_by g xs
  sum_by-find g p [] found = ground arith
  sum_by-find g p (x ∷ xs) {a} found = elim (Bool-cases (p x)) [
    | inl hit ↦ let e : x ≡ a = ground arith in omega (arith, ap g e)
    | inr miss ↦
        let later : find_first p xs ≡ some a = ground arith in
        omega (arith, sum_by-find g p xs later)
  ]

  pub All-delete_many {κ} :
      (P : A → Type κ) (p : A → Bool) (xs : List A) → All P xs → All P (delete_many p xs)
  All-delete_many P p [] all = tt
  All-delete_many P p (x ∷ xs) all = elim (Bool-cases (p x)) [
    | inl hit ↦ rw hit (All-delete_many P p xs all.1)
    | inr miss ↦ rw miss (all.0, All-delete_many P p xs all.1)
  ]

  -- A property that every row has after the update, whatever it had before.
  pub All-updated {κ} :
      (P : A → Type κ) (p : A → Bool) (f : A → A) (xs : List A)
      → ((x : A) → P (if p x then f x else x))
      → All P (update_many p f xs)
  All-updated P p f [] all = tt
  All-updated P p f (x ∷ xs) all = (all x, All-updated P p f xs all)

  -- An update that leaves a number of each row leaves its sum.
  pub sum_by-update_same :
      (g : A → ℕ) (p : A → Bool) (f : A → A) (xs : List A)
      → ((x : A) → g (f x) ≡ g x)
      → sum_by g (update_many p f xs) ≡ sum_by g xs
  sum_by-update_same g p f [] same = refl
  sum_by-update_same g p f (x ∷ xs) same = elim (Bool-cases (p x)) [
    | inl hit ↦ rw hit (omega (arith, same x, sum_by-update_same g p f xs same))
    | inr miss ↦ rw miss (omega (arith, sum_by-update_same g p f xs same))
  ]

  pub find_first-snoc :
      (p : A → Bool) (xs : List A) (a : A)
      → find_first p xs ≡ none
      → p a ≡ true
      → find_first p (xs ++ a ∷ []) ≡ some a
  find_first-snoc p [] a absent fits = rw fits refl
  find_first-snoc p (x ∷ xs) a absent fits = elim (Bool-cases (p x)) [
    | inl hit ↦ ground arith
    | inr miss ↦ rw miss (find_first-snoc p xs a (ground arith) fits)
  ]

  -- A search that asks for more finds no more.
  pub find_first-and_none :
      (p q : A → Bool) (xs : List A)
      → find_first p xs ≡ none
      → find_first (λ x. p x && q x) xs ≡ none
  find_first-and_none p q [] gone = refl
  find_first-and_none p q (x ∷ xs) gone = elim (Bool-cases (p x)) [
    | inl hit ↦ ground arith
    | inr miss ↦ rw miss (find_first-and_none p q xs (ground arith))
  ]

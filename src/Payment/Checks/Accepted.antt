-- ===== src/Payment/Checks/Accepted.antt =====
-- What `validateDueAndAmount` has made sure of when it returns.
use pg_master_backend.Prelude.{
  subst, ℕ, ◌+◌, ◌≤◌, ◌<◌, ◌≡◌, refl, inl, inr, Bool, true, false, ◌&&◌, none, some, List, [], ◌∷◌,
  ltb, ◌==◌, arith, All, All-weaken, sum_by, length, map, includes, Option-cases, Bool-cases,
}
use pg_master_backend.Store.Rows.{find_first, find_first-All, find_many-true}
use pg_master_backend.Store.Ids.{HasUniqueIds, find_first-find_many}
use pg_master_backend.Store.Schema.{Due, is_cleared}
use pg_master_backend.Store.World.{World}
use pg_master_backend.Payment.Checks.{
  PaymentDue, sum_of_amounts, check_total, distinct, check_items, fetched_dues,
}

abbrev pub total_of : List PaymentDue → ℕ
total_of dues = sum_by (λ (i : PaymentDue). i.amount) dues

abbrev IsPositive : PaymentDue → Type 0
IsPositive i = 0 < i.amount

sum_of_amounts_lem :
    (dues : List PaymentDue) (sum : ℕ) {result : ℕ}
    → sum_of_amounts dues sum ≡ some result
    → (result ≡ sum + total_of dues) × All IsPositive dues
unfolding sum_of_amounts
sum_of_amounts_lem [] sum h = (ground arith, tt)
sum_of_amounts_lem (i ∷ rest) sum {result} h = elim (Bool-cases (i.amount == 0)) [
  | inl zero_amount ↦ ground arith
  | inr positive ↦
      let next : sum_of_amounts rest (sum + i.amount) ≡ some result = ground arith in
      let r = sum_of_amounts_lem rest (sum + i.amount) next in
      (omega (arith, r.0), (ground arith, r.1))
]

-- The declared total passes: there is something to pay, every amount is positive, and they add up.
pub check_total_lem :
    (total : ℕ) (dues : List PaymentDue)
    → check_total total dues ≡ none
    → (0 < length dues) × (total ≡ total_of dues) × All IsPositive dues
unfolding check_total
check_total_lem total [] h = ground arith
check_total_lem total (i ∷ []) h = ground arith
check_total_lem total (i ∷ j ∷ rest) h = elim (Option-cases (sum_of_amounts (i ∷ j ∷ rest) 0)) [
  | inl zero_amount ↦ ground arith
  | inr (sum, summed) ↦
      let r = sum_of_amounts_lem (i ∷ j ∷ rest) 0 summed in (omega arith, ground (arith, r.0), r.1)
]

-- An item is in order: its due is among those fetched, is neither PAID nor WAIVED, and owes as much.
abbrev pub IsItemOf : List Due → PaymentDue → Type 0
IsItemOf fetched i =
    (due : Due) × (find_first (λ (d : Due). d.id == i.due_id) fetched ≡ some due)
    × (is_cleared due.status ≡ false)
    × (i.amount ≤ due.balance_amount)

pub check_items_lem :
    (fetched : List Due) (dues : List PaymentDue)
    → check_items fetched dues ≡ none
    → All (IsItemOf fetched) dues
unfolding check_items
check_items_lem fetched [] h = tt
check_items_lem fetched (i ∷ rest) h =
    elim (Option-cases (find_first (λ (d : Due). d.id == i.due_id) fetched)) [
      | inl missing ↦ ground arith
      | inr (due, found) ↦
          ((due, found, ground arith, ground arith), check_items_lem fetched rest (ground arith))
    ]

-- `fetched` holds every element, once.
abbrev AllIn : List ℕ → List ℕ → Type 0
AllIn ys xs = All (λ x. includes x ys ≡ true) xs

AllIn-distinct : (xs : List ℕ) → AllIn (distinct xs) xs
unfolding distinct
AllIn-distinct [] = tt
AllIn-distinct (x ∷ xs) = elim (Bool-cases (includes x (distinct xs))) [
  | inl there ↦
      let e : distinct xs ≡ distinct (x ∷ xs) = rw there refl in
      subst (λ ys. AllIn ys (x ∷ xs)) e (there, AllIn-distinct xs)
  | inr new ↦
      let e : x ∷ distinct xs ≡ distinct (x ∷ xs) = rw new refl in
      subst (λ ys. AllIn ys (x ∷ xs)) e
        (
          ground arith,
          All-weaken (λ y. includes y (distinct xs) ≡ true)
              (λ y. includes y (x ∷ distinct xs) ≡ true) xs (λ y h. ground arith)
              (AllIn-distinct xs),
        )
]

same_as_head :
    (x : ℕ) (ys : List ℕ)
    → length ys ≤ 1
    → includes x ys ≡ true
    → (y : ℕ) → includes y ys ≡ true
    → y ≡ x
same_as_head x [] short has_x y has_y = ground arith
same_as_head x (z ∷ []) short has_x y has_y = ground arith
same_as_head x (z ∷ u ∷ ys) short has_x y has_y = omega arith

-- One distinct value: all are the same.
pub distinct_one :
    (x : ℕ) (xs : List ℕ) → ltb 1 (length (distinct (x ∷ xs))) ≡ false → All (λ y. y ≡ x) (x ∷ xs)
distinct_one x xs h =
    let all = AllIn-distinct (x ∷ xs) in
    All-weaken (λ y. includes y (distinct (x ∷ xs)) ≡ true) (λ y. y ≡ x) (x ∷ xs)
      (same_as_head x (distinct (x ∷ xs)) (ground arith) all.0) all

-- An item that may be paid: it names a due, of one of the tenancies and of the property, that is
-- neither PAID nor WAIVED and owes as much.
pub record IsPayable (tenancy_ids : List ℕ) (property_id : ℕ) (w : World) (i : PaymentDue)
    : Type 0 where
  pub due : Due
  pub stored : find_first (λ (d : Due). d.id == i.due_id) w.dues.rows ≡ some due
  pub own : includes due.tenancy_id tenancy_ids ≡ true
  pub there : due.property_id ≡ property_id
  pub is_due : is_cleared due.status ≡ false
  pub covered : i.amount ≤ due.balance_amount

pub record IsAccepted (total : ℕ) (dues : List PaymentDue) (tenancy_ids : List ℕ) (property_id : ℕ)
    (w : World) : Type 0 where
  pub some_dues : 0 < length dues
  pub adds_up : total ≡ sum_by (λ (i : PaymentDue). i.amount) dues
  pub positive : All (λ (i : PaymentDue). 0 < i.amount) dues
  pub payable : All (IsPayable tenancy_ids property_id w) dues

abbrev due_id : Due → ℕ
due_id d = d.id

module _ (dues : List PaymentDue) (tenancy_ids : List ℕ) (w : World)
    (unique : HasUniqueIds due_id w.dues.rows) where
  abbrev asked_for : Due → Bool
  asked_for d =
      includes d.id (map (λ (i : PaymentDue). i.due_id) dues) && includes d.tenancy_id tenancy_ids

  fetched_own :
      All (λ (d : Due). includes d.tenancy_id tenancy_ids ≡ true) (fetched_dues dues tenancy_ids w)
  fetched_own =
      All-weaken (λ d. asked_for d ≡ true) (λ d. includes d.tenancy_id tenancy_ids ≡ true)
        (fetched_dues dues tenancy_ids w) (λ d h. ground arith)
        (find_many-true asked_for w.dues.rows)

  pub item-IsPayable :
      (property_id : ℕ) (i : PaymentDue)
      → All (λ (d : Due). d.property_id ≡ property_id) (fetched_dues dues tenancy_ids w)
      → IsItemOf (fetched_dues dues tenancy_ids w) i
      → IsPayable tenancy_ids property_id w i
  item-IsPayable property_id i there (due, found, open_due, covered) =
      let p = λ (d : Due). d.id == i.due_id in
      record {
        due = due;
        stored = find_first-find_many due_id asked_for i.due_id w.dues.rows unique found;
        own =
            find_first-All (λ (d : Due). includes d.tenancy_id tenancy_ids ≡ true) p
              (fetched_dues dues tenancy_ids w) fetched_own found;
        there =
            find_first-All (λ (d : Due). d.property_id ≡ property_id) p
              (fetched_dues dues tenancy_ids w) there found;
        is_due = open_due;
        covered = covered;
      }

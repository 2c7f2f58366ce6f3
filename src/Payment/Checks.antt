-- ===== src/Payment/Checks.antt =====
-- src/modules/payment/helper/payment.helper.service.ts
pub mod Accepted
pub mod Valid
use pg_master_backend.Prelude.{
  ℕ, ◌+◌, Bool, true, false, not, ◌&&◌, ◌||◌, Option, none, some, List, [], ◌∷◌, ltb, ◌==◌,
  if◌then◌else◌, length, includes, map,
}
use pg_master_backend.Store.Rows.{find_first, find_many}
use pg_master_backend.Store.Schema.{UserRole, Due, Tenancy, User, is_cleared, is_none}
use pg_master_backend.Store.World.{
  World, Fault, Result, ok, err, Action, pure, throw, gets, or_throw, throw_if, ◌>>=◌, ◌>>◌,
  no_dues, zero_amount, total_mismatch, dues_not_found, mixed_properties, above_balance,
  already_cleared, invalid_user, no_billable_tenancy, dangling_reference,
}
use pg_master_backend.Due.{is_billable}

pub record PaymentDue : Type 0 where
  pub due_id : ℕ
  pub amount : ℕ

abbrev is_tenant : UserRole → Bool
is_tenant UserRole.tenant = true
is_tenant _ = false

abbrev pub is_active_tenant : ℕ → User → Bool
is_active_tenant user_id u =
    u.id == user_id && (u.is_active && (not u.is_blocked_by_admin && is_tenant u.role))

abbrev pub tenancies_of : ℕ → World → List Tenancy
tenancies_of user_id w =
    find_many
      (λ (t : Tenancy).
        t.tenent_id == user_id && (is_billable t.tenancy_status && is_none t.deleted_at))
      w.tenancies.rows

unfoldable pub validate_tenant : ℕ → Action (List Tenancy)
validate_tenant tenant_user_id = do
  found ← gets (λ w. find_first (is_active_tenant tenant_user_id) w.users.rows)
  or_throw found invalid_user
  tenancies ← gets (tenancies_of tenant_user_id)
  throw_if (length tenancies == 0) no_billable_tenancy
  pure tenancies

-- The loop over several dues; `none` is the exception on an amount of 0.
unfoldable pub sum_of_amounts : List PaymentDue → ℕ → Option ℕ
sum_of_amounts [] sum = some sum
sum_of_amounts (item ∷ rest) sum =
    if item.amount == 0 then none else sum_of_amounts rest (sum + item.amount)

-- The declared total against the amounts.
unfoldable pub check_total : ℕ → List PaymentDue → Option Fault
check_total total [] = some no_dues
check_total total (item ∷ []) =
    if item.amount == 0
    then some zero_amount
    else if total == item.amount
    then none
    else some total_mismatch
check_total total (item ∷ next ∷ rest) = elim (sum_of_amounts (item ∷ next ∷ rest) 0) [
  | none ↦ some zero_amount
  | some sum ↦ if total == sum then none else some total_mismatch
]

-- `new Set(ids)`
unfoldable pub distinct : List ℕ → List ℕ
distinct [] = []
distinct (x ∷ xs) = let rest = distinct xs in if includes x rest then rest else x ∷ rest

-- The loop over the items; `dueMap.get` without an entry is a reference to undefined.
unfoldable pub check_items : List Due → List PaymentDue → Option Fault
check_items fetched [] = none
check_items fetched (item ∷ rest) = elim (find_first (λ (d : Due). d.id == item.due_id) fetched) [
  | none ↦ some dangling_reference
  | some due ↦
      if is_cleared due.status
      then some already_cleared
      else if ltb due.balance_amount item.amount
      then some above_balance
      else check_items fetched rest
]

abbrev pub fetched_dues : List PaymentDue → List ℕ → World → List Due
fetched_dues dues tenancy_ids w =
    find_many
      (λ (d : Due).
        includes d.id (map (λ (i : PaymentDue). i.due_id) dues)
        && includes d.tenancy_id tenancy_ids)
      w.dues.rows

abbrev pub throw_some : Option Fault → Action (Unit {0})
throw_some none = pure tt
throw_some (some e) = throw e

abbrev pub first_of : List Due → Action (ℕ × ℕ)
first_of [] = throw dangling_reference
first_of (d ∷ _) = pure (d.tenancy_id, d.property_id)

-- Returns the tenancy and the property of the first due.
unfoldable pub validate_due_and_amount : ℕ → List PaymentDue → List ℕ → Action (ℕ × ℕ)
validate_due_and_amount total dues tenancy_ids = do
  throw_some (check_total total dues)
  fetched ← gets (fetched_dues dues tenancy_ids)
  throw_if (not (length fetched == length dues)) dues_not_found
  throw_if (ltb 1 (length (distinct (map (λ d. d.property_id) fetched)))) mixed_properties
  throw_some (check_items fetched dues)
  first_of fetched

-- ===== src/Complaint/Summary.antt =====
-- `getComplaintSummaryByProperty` of src/modules/complaint/complaint.service.ts.
pub mod Counts
use pg_master_backend.Prelude.{
  ℕ, suc, ◌+◌, ◌≡◌, refl, ap, subst, ◌∙◌, ◌⊎◌, inl, inr, Bool, true, false, not, ◌&&◌, List, [],
  ◌∷◌, ◌==◌, arith, All, sum_by, if◌then◌else◌, length, Bool-cases,
}
use pg_master_backend.Complaint.{get_all_complaints}
use pg_master_backend.Store.Rows.{find_many}
use pg_master_backend.Store.Requests.{
  ComplaintStatus, opened, pending, assigned, in_progress, completed, cancelled, Complaint,
}
use pg_master_backend.Store.World.{
  World, Fault, Action, ok, err, pure, gets, throw_if, ◌>>=◌, ◌>>◌, property_not_found,
}
use pg_master_backend.Tenancy.Notice.{is_owned}

abbrev pub same_status : ComplaintStatus → ComplaintStatus → Bool
same_status opened opened = true
same_status pending pending = true
same_status assigned assigned = true
same_status in_progress in_progress = true
same_status completed completed = true
same_status cancelled cancelled = true
same_status _ _ = false

-- `groupBy({ by: ['status'], _count: { id: true } })`: a row for each status that occurs
unfoldable pub add_to_groups :
    ComplaintStatus → List (ComplaintStatus × ℕ) → List (ComplaintStatus × ℕ)
add_to_groups s [] = (s, 1) ∷ []
add_to_groups s ((t, n) ∷ rest) =
    let later = add_to_groups s rest in
    if same_status t s then (t, suc n) ∷ rest else (t, n) ∷ later

unfoldable pub group_by_status : List Complaint → List (ComplaintStatus × ℕ)
group_by_status [] = []
group_by_status (c ∷ cs) = add_to_groups c.status (group_by_status cs)

pub record ComplaintSummary : Type 0 where
  pub opened : ℕ
  pub assigned : ℕ
  pub resolved : ℕ
  pub total : ℕ

-- The body of the loop over the rows.
unfoldable pub count_row : ComplaintStatus → ℕ → ComplaintSummary → ComplaintSummary
count_row ComplaintStatus.opened n s = record s { total = s.total + n; opened = n }
count_row ComplaintStatus.assigned n s = record s { total = s.total + n; assigned = n }
count_row ComplaintStatus.completed n s = record s { total = s.total + n; resolved = n }
count_row _ n s = record s { total = s.total + n }

unfoldable pub count_rows : List (ComplaintStatus × ℕ) → ComplaintSummary → ComplaintSummary
count_rows [] s = s
count_rows ((t, n) ∷ rest) s = count_rows rest (count_row t n s)

unfoldable pub get_complaint_summary_by_property : ℕ → ℕ → Action ComplaintSummary
get_complaint_summary_by_property property_id owner_id = do
  owned ← gets (is_owned owner_id property_id)
  throw_if (not owned) property_not_found
  counts ← gets (λ w. group_by_status (get_all_complaints property_id w))
  pure (count_rows counts (record { opened = 0; assigned = 0; resolved = 0; total = 0 }))

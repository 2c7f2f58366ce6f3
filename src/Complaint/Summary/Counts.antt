-- ===== src/Complaint/Summary/Counts.antt =====
-- The summary of the complaints of a property counts them.
use pg_master_backend.Prelude.{
  ℕ, suc, ◌+◌, ◌≡◌, refl, ap, subst, ◌∙◌, ◌⊎◌, inl, inr, true, false, List, [], ◌∷◌, arith, All,
  sum_by, if◌then◌else◌, length, Bool-cases,
}
use pg_master_backend.Complaint.{get_all_complaints}
use pg_master_backend.Store.Rows.{find_many}
use pg_master_backend.Store.Requests.{
  ComplaintStatus, opened, pending, assigned, in_progress, completed, cancelled, Complaint,
}
use pg_master_backend.Store.World.{World, ok, err, property_not_found}
use pg_master_backend.Tenancy.Notice.{is_owned}
use pg_master_backend.Complaint.Summary.{
  same_status, add_to_groups, group_by_status, ComplaintSummary, count_row, count_rows,
  get_complaint_summary_by_property,
}

-- How many complaints have the status.
abbrev pub count_status : ComplaintStatus → List Complaint → ℕ
count_status s cs = length (find_many (λ (c : Complaint). same_status c.status s) cs)

abbrev Groups : Type 0
Groups = List (ComplaintStatus × ℕ)

-- No status has two rows.
abbrev AreDistinct : Groups → Type 0
AreDistinct [] = Unit
AreDistinct (g ∷ gs) = All (λ h. same_status h.0 g.0 ≡ false) gs × AreDistinct gs

-- The count of a status in the rows.
abbrev row_of : ComplaintStatus → ComplaintStatus × ℕ → ℕ
row_of s g = if same_status g.0 s then g.1 else 0

same_status_is : (s t : ComplaintStatus) → same_status s t ≡ true → s ≡ t
same_status_is s t h = ground arith

add_to_groups-away :
    (s t : ComplaintStatus) (gs : Groups)
    → same_status s t ≡ false
    → All (λ h. same_status h.0 t ≡ false) gs
    → All (λ h. same_status h.0 t ≡ false) (add_to_groups s gs)
unfolding add_to_groups
add_to_groups-away s t [] ne away = (ne, tt)
add_to_groups-away s t (g ∷ gs) ne away = elim (Bool-cases (same_status g.0 s)) [
  | inl hit ↦ rw hit (away.0, away.1)
  | inr miss ↦ rw miss (away.0, add_to_groups-away s t gs ne away.1)
]

same_status_sym : (s t : ComplaintStatus) → same_status s t ≡ false → same_status t s ≡ false
same_status_sym s t h = ground arith

add_to_groups-AreDistinct :
    (s : ComplaintStatus) (gs : Groups) → AreDistinct gs → AreDistinct (add_to_groups s gs)
unfolding add_to_groups
add_to_groups-AreDistinct s [] d = (tt, tt)
add_to_groups-AreDistinct s (g ∷ gs) d = elim (Bool-cases (same_status g.0 s)) [
  | inl hit ↦ rw hit (d.0, d.1)
  | inr miss ↦ rw miss (
    add_to_groups-away s g.0 gs (same_status_sym g.0 s miss) d.0,
    add_to_groups-AreDistinct s gs d.1,
  )
]

add_to_groups-row :
    (s t : ComplaintStatus) (gs : Groups)
    → sum_by (row_of t) (add_to_groups s gs)
      ≡ sum_by (row_of t) gs + (if same_status s t then 1 else 0)
unfolding add_to_groups
add_to_groups-row s t [] = omega arith
add_to_groups-row s t (g ∷ gs) = elim (Bool-cases (same_status g.0 s)) [
  | inl hit ↦
      let e = same_status_is g.0 s hit in rw hit (ground (arith, ap (λ x. same_status x t) e))
  | inr miss ↦ rw miss (omega (arith, add_to_groups-row s t gs))
]

add_to_groups-total :
    (s : ComplaintStatus) (gs : Groups)
    → sum_by (λ g. g.1) (add_to_groups s gs) ≡ suc (sum_by (λ (g : ComplaintStatus × ℕ). g.1) gs)
unfolding add_to_groups
add_to_groups-total s [] = omega arith
add_to_groups-total s (g ∷ gs) = elim (Bool-cases (same_status g.0 s)) [
  | inl hit ↦ rw hit (omega arith)
  | inr miss ↦ rw miss (omega (arith, add_to_groups-total s gs))
]

-- The rows of the query count the complaints.
group_by_status_lem :
    (cs : List Complaint)
    → AreDistinct (group_by_status cs)
      × (sum_by (λ g. g.1) (group_by_status cs) ≡ length cs)
      × ((t : ComplaintStatus) → sum_by (row_of t) (group_by_status cs) ≡ count_status t cs)
unfolding group_by_status
group_by_status_lem [] = (tt, refl, λ t. refl)
group_by_status_lem (c ∷ cs) =
    let rest = group_by_status_lem cs in
    let rows = group_by_status cs in
    (
      add_to_groups-AreDistinct c.status rows rest.0,
      omega (arith, add_to_groups-total c.status rows, rest.1),
      λ t. elim (Bool-cases (same_status c.status t)) [
        | inl hit ↦
            let added = add_to_groups-row c.status t rows in
            let before = rest.2 t in rw hit (ground (arith, added, before, hit))
        | inr miss ↦
            let added = add_to_groups-row c.status t rows in
            let before = rest.2 t in rw miss (ground (arith, added, before, miss))
      ],
    )

count_rows_total :
    (gs : Groups) (s : ComplaintSummary)
    → (count_rows gs s).total ≡ s.total + sum_by (λ (g : ComplaintStatus × ℕ). g.1) gs
unfolding count_rows count_row
count_rows_total [] s = omega arith
count_rows_total ((opened, n) ∷ gs) s = omega (arith, count_rows_total gs (count_row opened n s))
count_rows_total ((pending, n) ∷ gs) s = omega (arith, count_rows_total gs (count_row pending n s))
count_rows_total ((assigned, n) ∷ gs) s =
    omega (arith, count_rows_total gs (count_row assigned n s))
count_rows_total ((in_progress, n) ∷ gs) s =
    omega (arith, count_rows_total gs (count_row in_progress n s))
count_rows_total ((completed, n) ∷ gs) s =
    omega (arith, count_rows_total gs (count_row completed n s))
count_rows_total ((cancelled, n) ∷ gs) s =
    omega (arith, count_rows_total gs (count_row cancelled n s))

-- A field that the loop sets at one status.
module _ (field : ComplaintSummary → ℕ) (t : ComplaintStatus)
    (sets : (s : ComplaintStatus) (n : ℕ) (acc : ComplaintSummary)
      → same_status s t ≡ true
      → field (count_row s n acc) ≡ n)
    (keeps : (s : ComplaintStatus) (n : ℕ) (acc : ComplaintSummary)
      → same_status s t ≡ false
      → field (count_row s n acc) ≡ field acc) where
  count_rows_away :
      (gs : Groups) (acc : ComplaintSummary)
      → All (λ h. same_status h.0 t ≡ false) gs
      → (field (count_rows gs acc) ≡ field acc) × (sum_by (row_of t) gs ≡ 0)
  unfolding count_rows
  count_rows_away [] acc away = (refl, refl)
  count_rows_away ((s, n) ∷ gs) acc away =
      let rest = count_rows_away gs (count_row s n acc) away.1 in
      (rest.0 ∙ keeps s n acc away.0, rw away.0 (omega (arith, rest.1)))

  count_rows_field :
      (gs : Groups) (acc : ComplaintSummary)
      → AreDistinct gs
      → field acc ≡ 0
      → field (count_rows gs acc) ≡ sum_by (row_of t) gs
  unfolding count_rows
  count_rows_field [] acc d zero = zero
  count_rows_field ((s, n) ∷ gs) acc d zero = elim (Bool-cases (same_status s t)) [
    | inl hit ↦
        let away : All (λ h. same_status h.0 t ≡ false) gs =
          subst (λ x. All (λ h. same_status h.0 x ≡ false) gs) (same_status_is s t hit) d.0 in
        let rest = count_rows_away gs (count_row s n acc) away in
        let here = sets s n acc hit in rw hit (omega (arith, rest.0, rest.1, here))
    | inr miss ↦
        rw miss
          (omega (arith, count_rows_field gs (count_row s n acc) d.1 (keeps s n acc miss ∙ zero)))
  ]

abbrev none_yet : ComplaintSummary
none_yet = record { opened = 0; assigned = 0; resolved = 0; total = 0 }

opened_sets :
    (s : ComplaintStatus) (n : ℕ) (acc : ComplaintSummary)
    → same_status s ComplaintStatus.opened ≡ true
    → (count_row s n acc).opened ≡ n
unfolding count_row
opened_sets s n acc h = ground (arith, h)

opened_keeps :
    (s : ComplaintStatus) (n : ℕ) (acc : ComplaintSummary)
    → same_status s ComplaintStatus.opened ≡ false
    → (count_row s n acc).opened ≡ acc.opened
unfolding count_row
opened_keeps s n acc h = ground (arith, h)

assigned_sets :
    (s : ComplaintStatus) (n : ℕ) (acc : ComplaintSummary)
    → same_status s ComplaintStatus.assigned ≡ true
    → (count_row s n acc).assigned ≡ n
unfolding count_row
assigned_sets s n acc h = ground (arith, h)

assigned_keeps :
    (s : ComplaintStatus) (n : ℕ) (acc : ComplaintSummary)
    → same_status s ComplaintStatus.assigned ≡ false
    → (count_row s n acc).assigned ≡ acc.assigned
unfolding count_row
assigned_keeps s n acc h = ground (arith, h)

resolved_sets :
    (s : ComplaintStatus) (n : ℕ) (acc : ComplaintSummary)
    → same_status s ComplaintStatus.completed ≡ true
    → (count_row s n acc).resolved ≡ n
unfolding count_row
resolved_sets s n acc h = ground (arith, h)

resolved_keeps :
    (s : ComplaintStatus) (n : ℕ) (acc : ComplaintSummary)
    → same_status s ComplaintStatus.completed ≡ false
    → (count_row s n acc).resolved ≡ acc.resolved
unfolding count_row
resolved_keeps s n acc h = ground (arith, h)

-- For the owner of the property, the summary is what counting the property's complaints gives: all of
-- them, and those that are OPEN, ASSIGNED and COMPLETED. Nobody else gets one.
pub get_complaint_summary_counts :
    (property_id owner_id : ℕ) (w : World)
    → let cs = get_all_complaints property_id w in
      ((is_owned owner_id property_id w ≡ false)
        × (get_complaint_summary_by_property property_id owner_id w ≡ (err property_not_found, w)))
      ⊎ ((is_owned owner_id property_id w ≡ true)
          × (get_complaint_summary_by_property property_id owner_id w ≡ (
            ok (record {
              opened = count_status ComplaintStatus.opened cs;
              assigned = count_status ComplaintStatus.assigned cs;
              resolved = count_status ComplaintStatus.completed cs;
              total = length cs;
            }),
            w,
          )))
unfolding get_complaint_summary_by_property
get_complaint_summary_counts property_id owner_id w =
    elim (Bool-cases (is_owned owner_id property_id w)) [
      | inr foreign ↦ inl (foreign, rw foreign refl)
      | inl own ↦
          let cs = get_all_complaints property_id w in
          let rows = group_by_status cs in
          let counts = group_by_status_lem cs in
          let open_count =
            count_rows_field (λ s. s.opened) ComplaintStatus.opened opened_sets opened_keeps rows
              none_yet counts.0 refl
            ∙ counts.2 ComplaintStatus.opened in
          let assigned_count =
            count_rows_field (λ s. s.assigned) ComplaintStatus.assigned assigned_sets assigned_keeps
              rows none_yet counts.0 refl
            ∙ counts.2 ComplaintStatus.assigned in
          let resolved_count =
            count_rows_field (λ s. s.resolved) ComplaintStatus.completed resolved_sets
              resolved_keeps rows none_yet counts.0 refl
            ∙ counts.2 ComplaintStatus.completed in
          let total_count : (count_rows rows none_yet).total ≡ length cs =
            omega (arith, count_rows_total rows none_yet, counts.1) in
          inr (
            own,
            rw own (λ i. (
              ok (record {
                opened = open_count i;
                assigned = assigned_count i;
                resolved = resolved_count i;
                total = total_count i;
              }),
              w,
            )),
          )
    ]

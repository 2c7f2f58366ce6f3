-- ===== src/Store/World.antt =====
-- What the services share: the database, the locks in redis, and the events handed to the
-- event emitter. A method is an action on this state which returns or throws.
use pg_master_backend.Prelude.{
  ℕ, String, Bool, Option, none, some, List, [], ◌∷◌, ◌++◌, if◌then◌else◌, ◌≡◌, refl, ◌⊎◌, inl, inr,
}
use pg_master_backend.Store.Rows.{Table}
use pg_master_backend.Store.Schema.{
  DueType, Due, DuePayment, Tenancy, Room, Property, User, GatewayConfig, Transaction,
  TransactionDue, Settlement, Ledger, PropertyReading, RoomReading, BillingRun, TenentProfile,
  MoveOutRequest,
}
use pg_master_backend.Store.Requests.{
  RoomShiftRequest, MoveInTracker, Complaint, ComplaintLog, ComplaintPhoto, EmployeeBook,
  DailyReminder,
}
use pg_master_backend.Store.Metrics.{PropertyMetrics, PropertyOtherMetrics, DashEntry}

pub data Event : Type 0 where
  due_created : ℕ → ℕ → ℕ → DueType → ℕ → ℕ → ℕ → Event
  due_payment_collected : ℕ → ℕ → DueType → ℕ → ℕ → ℕ → Event
  payment_success : ℕ → ℕ → String → ℕ → Event
  payment_failed : ℕ → ℕ → String → ℕ → Event
  tenancy_created : ℕ → ℕ → ℕ → ℕ → ℕ → ℕ → ℕ → Event
  tenant_deleted : ℕ → ℕ → ℕ → Event
  electricity_reading_created : ℕ → ℕ → ℕ → Event

pub record World : Type 0 where
  pub dues : Table Due
  pub due_payments : Table DuePayment
  pub tenancies : Table Tenancy
  pub rooms : Table Room
  pub properties : List Property
  pub users : Table User
  pub gateway_configs : List GatewayConfig
  pub transactions : Table Transaction
  pub transaction_dues : Table TransactionDue
  pub settlements : Table Settlement
  pub ledgers : List Ledger
  pub profiles : List TenentProfile
  pub move_out_requests : Table MoveOutRequest
  pub room_shift_requests : Table RoomShiftRequest
  pub move_in_trackers : Table MoveInTracker
  pub complaints : Table Complaint
  pub property_metrics : List PropertyMetrics
  pub other_metrics : List PropertyOtherMetrics
  pub dashboard : List DashEntry
  pub complaint_logs : Table ComplaintLog
  pub complaint_photos : Table ComplaintPhoto
  pub employee_books : List EmployeeBook
  pub daily_reminders : List DailyReminder
  pub property_readings : List PropertyReading
  pub room_readings : List RoomReading
  pub billing_runs : List BillingRun
  pub locks : List (List ℕ × ℕ)
  pub events : List Event

-- The exceptions of the services, by what they report.
pub data Fault : Type 0 where
  invalid_tenant invalid_room no_billable_tenancy due_not_found already_cleared bad_amount : Fault
  no_dues zero_amount total_mismatch dues_not_found mixed_properties above_balance : Fault
  payment_in_progress invalid_user tenant_not_found gateway_not_configured gateway_disabled : Fault
  gateway_failed not_your_due no_outstanding_balance duplicate_key dangling_reference : Fault
  property_not_found already_collected main_meter_missing missing_reading readings_exceed_main :
      Fault
  tenancy_not_found profile_incomplete bad_date date_in_past not_after_joining : Fault
  request_not_found tenancy_not_active record_missing : Fault
  access_denied room_not_found wrong_room same_room room_full not_exited not_waiting
        already_moved_in :
      Fault
  email_taken blocked_user not_a_tenant has_tenancy too_far bad_move_out lock_in_too_long : Fault
  open_dues request_pending out_of_fuel room_occupied room_has_history not_editable not_deletable :
      Fault
  two_assignees no_assignee staff_not_found upload_failed too_many_photos no_photos : Fault
  complaint_not_found future_month wrong_previous reading_below bad_price rooms_missing : Fault
  no_meter still_referenced : Fault

pub data Result {ℓ} (A : Type ℓ) : Type ℓ where
  ok : A → Result A
  err : Fault → Result A

abbrev pub Action {ℓ} : Type ℓ → Type ℓ
Action A = World → Result A × World

module _ {ℓ} {A : Type ℓ} where
  abbrev pub pure : A → Action A
  pure a w = (ok a, w)

  abbrev pub throw : Fault → Action A
  throw e w = (err e, w)

  abbrev pub gets : (World → A) → Action A
  gets f w = (ok (f w), w)

  abbrev pub or_throw : Option A → Fault → Action A
  or_throw none e = throw e
  or_throw (some a) e = pure a

abbrev continue {ℓ κ} :
    {A : Type ℓ} {B : Type κ} → Result A → (A → Action B) → World → Result B × World
continue (ok a) f w = f a w
continue (err e) f w = (err e, w)

infixl 5 ◌>>=◌ ◌>>◌
abbrev pub ◌>>=◌ {ℓ κ} : {A : Type ℓ} {B : Type κ} → Action A → (A → Action B) → Action B
◌>>=◌ m f w = let (r, w') = m w in continue r f w'

abbrev pub ◌>>◌ {ℓ κ} : {A : Type ℓ} {B : Type κ} → Action A → Action B → Action B
m >> k = m >>= λ _. k

abbrev pub throw_if : Bool → Fault → Action (Unit {0})
throw_if b e w = (if b then err e else ok tt, w)

abbrev pub modify : (World → World) → Action (Unit {0})
modify f w = (ok tt, f w)

abbrev pub emit : Event → Action (Unit {0})
emit e w = (ok tt, record w { events = w.events ++ e ∷ [] })

pub Result-cases {ℓ} :
    {A : Type ℓ} (r : Result A) → ((e : Fault) × (r ≡ err e)) ⊎ ((a : A) × (r ≡ ok a))
Result-cases (ok a) = inr (a, refl)
Result-cases (err e) = inl (e, refl)

-- What only reads throws or returns, and changes nothing.
pub read-outcome {ℓ} :
    {A : Type ℓ} (m : Action A) (w : World)
    → (m w).1 ≡ w
    → ((e : Fault) × (m w ≡ (err e, w))) ⊎ ((a : A) × (m w ≡ (ok a, w)))
read-outcome m w same = elim (Result-cases (m w).0) [
  | inl (e, threw) ↦ inl (e, λ i. (threw i, same i))
  | inr (a, returned) ↦ inr (a, λ i. (returned i, same i))
]

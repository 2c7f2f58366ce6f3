-- ===== src/Tenancy/MoveIn.antt =====
-- `confirmMoveIn` of src/modules/tenancy/tenancy.service.ts.
use pg_master_backend.Prelude.{
  ℕ, Bool, true, false, not, ◌&&◌, ◌||◌, Option, none, some, ltb, ◌==◌, if◌then◌else◌,
}
use pg_master_backend.Due.{ist_month, ist_year}
use pg_master_backend.Proration.{now_ist, to_date_only, today_ist}
use pg_master_backend.Store.Rows.{find_first, create, update_many, update_rows}
use pg_master_backend.Store.Requests.{MoveInStatus, MoveInTracker}
use pg_master_backend.Store.Metrics.{
  increment, decrement, PropertyMetrics, PropertyOtherMetrics, at_month, empty_metrics, upsert,
}
use pg_master_backend.Store.Schema.{TenancyStatus, active, Tenancy, is_none}
use pg_master_backend.Store.World.{
  World, Action, pure, gets, or_throw, throw_if, modify, ◌>>=◌, ◌>>◌, tenancy_not_found,
  not_waiting, already_moved_in,
}
use pg_master_backend.Tenancy.Notice.{is_active, tenancy_where, set_tenancy_status}

abbrev pub is_pending : TenancyStatus → Bool
is_pending TenancyStatus.pending = true
is_pending _ = false

-- `notIn: [EXITED, EVICTED, NOTICE_PERIOD]`
abbrev pub may_move_in : TenancyStatus → Bool
may_move_in status = is_active status || is_pending status

abbrev is_waiting : MoveInStatus → Bool
is_waiting MoveInStatus.waiting = true
is_waiting MoveInStatus.moved_in = false

abbrev pub tracker_of : ℕ → Bool → World → Option MoveInTracker
tracker_of tenancy_id waits w =
    find_first
      (λ (m : MoveInTracker).
        m.tenancy_id == tenancy_id
        && (if waits then is_waiting m.status else not (is_waiting m.status)))
      w.move_in_trackers.rows

-- The tracker that waits is brought up to date, or one is made.
unfoldable pub track_moved_in : ℕ → Tenancy → World → World
track_moved_in now t w = by_tracker (tracker_of t.id true w)
  where
    by_tracker : Option MoveInTracker → World
    by_tracker (some m) = record w {
      move_in_trackers =
          update_rows (λ (x : MoveInTracker). x.id == m.id)
            (λ x. record x {
              moved_in_date = some (now_ist now);
              status = MoveInStatus.moved_in;
              month = ist_month now;
              year = ist_year now;
            })
            w.move_in_trackers;
    }
    by_tracker none = record w {
      move_in_trackers =
          create
            (λ id. record {
              id = id;
              property_id = t.property_id;
              tenancy_id = t.id;
              month = ist_month now;
              year = ist_year now;
              move_in_date = t.joined_at;
              moved_in_date = some (now_ist now);
              status = MoveInStatus.moved_in;
            })
            w.move_in_trackers;
    }

unfoldable pub count_moved_in : ℕ → Tenancy → World → World
count_moved_in now t w = record w {
  other_metrics =
      update_many (λ (m : PropertyOtherMetrics). m.property_id == t.property_id)
        (λ m. record m {
          total_tenants_ready_to_move_in = decrement 1 m.total_tenants_ready_to_move_in;
          total_active_tenants = increment 1 m.total_active_tenants;
        })
        w.other_metrics;
  property_metrics =
      upsert (at_month t.property_id (ist_month now) (ist_year now))
        (empty_metrics t.property_id (ist_month now) (ist_year now))
        (λ (m : PropertyMetrics). record m { active_tenants = increment 1 m.active_tenants })
        w.property_metrics;
}

-- The transaction.
unfoldable pub move_in : ℕ → Tenancy → World → World
move_in now t w =
    let tracked = track_moved_in now t (set_tenancy_status t.id active w) in
    if is_pending t.tenancy_status then count_moved_in now t tracked else tracked

unfoldable pub confirm_move_in : ℕ → ℕ → ℕ → Action ℕ
confirm_move_in now tenancy_id owner_id = do
  found ← gets (tenancy_where tenancy_id owner_id may_move_in)
  tenancy ← or_throw found tenancy_not_found
  let is_future_join = ltb (today_ist now) (to_date_only tenancy.joined_at)
  throw_if (not (is_pending tenancy.tenancy_status || is_future_join)) not_waiting
  moved ← gets (tracker_of tenancy_id false)
  throw_if (not (is_none moved)) already_moved_in
  modify (move_in now tenancy)
  pure tenancy_id

-- ===== src/Store/Samples.antt =====
-- A small database for the tests: one property, one room with two tenants, two dues, and two
-- transactions under way.
use pg_master_backend.Prelude.{ℕ, true, false, none, some, [], ◌∷◌}
use pg_master_backend.Store.Schema.{
  RequestStatus, rent, water, unpaid, initiated, active, UserRole, Due, Tenancy, GatewayConfig,
  Transaction,
}
use pg_master_backend.Store.World.{World}

abbrev pub rent_due : Due
rent_due = record {
  id = 1;
  tenancy_id = 10;
  property_id = 5;
  due_type = rent;
  custom_due_type = none;
  month = 3;
  year = 2026;
  total_amount = 500000;
  paid_amount = 0;
  balance_amount = 500000;
  status = unpaid;
  period_start = none;
  period_end = none;
  due_date = 0;
}

-- 300.50 rupees
abbrev pub water_due : Due
water_due = record {
  id = 2;
  tenancy_id = 10;
  property_id = 5;
  due_type = water;
  custom_due_type = none;
  month = 3;
  year = 2026;
  total_amount = 30050;
  paid_amount = 0;
  balance_amount = 30050;
  status = unpaid;
  period_start = none;
  period_end = none;
  due_date = 0;
}

abbrev pub sample_tenancy : ℕ → ℕ → Tenancy
sample_tenancy id user_id = record {
  id = id;
  room_id = 7;
  tenent_id = user_id;
  property_id = 5;
  tenancy_status = active;
  rent_amount = 500000;
  security_deposit = 0;
  billing_cycle_day = 5;
  joined_at = 0;
  left_at = none;
  deleted_at = none;
  next_billing_date = none;
}

abbrev pub both_dues : Transaction
both_dues = record {
  id = 1;
  due_id = none;
  tenancy_id = 10;
  property_id = 5;
  txn_id = "T1";
  amount = 530050;
  status = initiated;
  access_key = none;
  easepay_id = none;
  payment_source = none;
}

-- 1000 rupees more than the rent
abbrev pub too_much : Transaction
too_much = record {
  id = 2;
  due_id = some 1;
  tenancy_id = 10;
  property_id = 5;
  txn_id = "T2";
  amount = 600000;
  status = initiated;
  access_key = none;
  easepay_id = none;
  payment_source = none;
}

abbrev pub sample_config : GatewayConfig
sample_config = record {
  property_id = 5;
  merchant_key = "k";
  merchant_salt = "s";
  is_active = true;
}

abbrev pub sample_world : World
sample_world = record {
  dues = record { rows = rent_due ∷ water_due ∷ []; next_id = 3 };
  due_payments = record { rows = []; next_id = 1 };
  tenancies = record { rows = sample_tenancy 10 20 ∷ sample_tenancy 11 21 ∷ []; next_id = 12 };
  rooms = record {
    rows =
        record {
          id = 7;
          property_id = 5;
          total_beds = 2;
          occupied_beds = 2;
          has_meter = true;
          initial_meter_reading = none;
        }
        ∷ [];
    next_id = 8;
  };
  properties = record { id = 5; owner_id = 1 } ∷ [];
  users = record {
    rows =
        record {
          id = 20;
          role = UserRole.tenant;
          is_active = true;
          is_blocked_by_admin = false;
          phone_number = 57 ∷ 56 ∷ [];
          email = none;
          deleted_at = none;
        }
        ∷ [];
    next_id = 22;
  };
  gateway_configs = sample_config ∷ [];
  transactions = record { rows = both_dues ∷ too_much ∷ []; next_id = 3 };
  transaction_dues = record {
    rows =
        record { id = 1; transaction_id = 1; due_id = 1; amount = 500000 }
        ∷ record { id = 2; transaction_id = 1; due_id = 2; amount = 30050 }
        ∷ [];
    next_id = 3;
  };
  settlements = record { rows = []; next_id = 1 };
  ledgers = [];
  profiles = record { user_id = 20; move_out_date = none } ∷ [];
  move_out_requests = record {
    rows =
        record {
          id = 1;
          tenant_id = 20;
          tenancy_id = 10;
          property_id = 5;
          status = RequestStatus.pending;
          requested_move_out_date = 0;
        }
        ∷ [];
    next_id = 2;
  };
  room_shift_requests = record { rows = []; next_id = 1 };
  move_in_trackers = record { rows = []; next_id = 1 };
  complaints = record { rows = []; next_id = 1 };
  property_metrics = [];
  other_metrics = [];
  dashboard = [];
  complaint_logs = record { rows = []; next_id = 1 };
  complaint_photos = record { rows = []; next_id = 1 };
  employee_books = [];
  daily_reminders = [];
  property_readings =
      record {
        property_id = 5;
        month = 3;
        year = 2026;
        previous_reading = 0;
        current_reading = 10000;
        unit_consumed = 10000;
        unit_price = 80000;
        submitted = true;
      }
      ∷ [];
  room_readings =
      record {
        room_id = 7;
        property_id = 5;
        month = 3;
        year = 2026;
        previous_reading = 0;
        current_reading = 6000;
        unit_consumed = 6000;
      }
      ∷ [];
  billing_runs = [];
  locks = [];
  events = [];
}

-- ===== src/Due/Tests.antt =====
-- Dues of the sample database.
use pg_master_backend.Prelude.{
  ℕ, ◌+◌, ◌*◌, ◌≤◌, ◌<◌, ◌≡◌, ◌≢◌, refl, none, List, map, All, ◌++◌, [], ◌∷◌, arith, ◌%◌,
}
use pg_master_backend.Store.Schema.{Due, Tenancy, upi, electricity, paid}
use pg_master_backend.Store.World.{ok, err, bad_amount}
use pg_master_backend.Store.Samples.{water_due, sample_tenancy, sample_world}
use pg_master_backend.Due.{
  CollectDue, CreateDueForRoom, CreateDueForTenant, collect_due, record_collection, add_due_to_room,
  add_due_to_tenant, ceil_rupee, create_room_dues, emit_all, individual_amount, set_collected,
  new_due,
}
use pg_master_backend.Due.Invariant.{IsConsistent, outstanding, collected}
use pg_master_backend.Due.Sample.{sample_world-IsConsistent}
use pg_master_backend.Due.Collect.{collect_due_atomic}
use pg_master_backend.Due.Ledger.{collect_due_conserves}
use pg_master_backend.Due.Fraction.{collect_all-not_paid}
use pg_master_backend.Due.Create.{
  add_due_to_room-IsConsistent, add_due_to_room_shares, add_due_to_tenant_owes, room_tenancies,
  room_share,
}

-- Of 300.50 rupees, 300 and 1 in one request
abbrev collection : ℕ → ℕ → CollectDue
collection due_id amount = record {
  due_id = due_id;
  amount = amount;
  paid_at = 0;
  payment_mode = upi;
  transaction_id = none;
}

part_collected :
    (collect_due (collection 2 29950) 1 sample_world).0
    ≡ ok (set_collected 30000 water_due water_due)
unfolding collect_due record_collection
part_collected = refl

-- The whole balance cannot be collected.
whole_refused : (collect_due (collection 2 30050) 1 sample_world).0 ≡ err bad_amount
unfolding collect_due record_collection
whole_refused = refl

collect_due_atomic_example : (collect_due (collection 2 30050) 1 sample_world).1 ≡ sample_world
collect_due_atomic_example =
    collect_due_atomic (collection 2 30050) 1 sample_world bad_amount whole_refused

collect_due_conserves_example :
    IsConsistent (collect_due (collection 2 29950) 1 sample_world).1
    × (outstanding (collect_due (collection 2 29950) 1 sample_world).1
          + collected (collect_due (collection 2 29950) 1 sample_world).1
        ≡ outstanding sample_world + collected sample_world)
collect_due_conserves_example =
    collect_due_conserves (collection 2 29950) 1 sample_world sample_world-IsConsistent

-- Both collections that a 300.50 balance admits leave 50 paise.
collect_all-not_paid_example :
    (50 % 100 ≢ 0) × ((set_collected 30000 water_due water_due).status ≢ paid)
unfolding collect_due record_collection
collect_all-not_paid_example =
    collect_all-not_paid 1 2 (collection 2 29950 ∷ collection 2 50 ∷ []) sample_world
      (set_collected 30000 water_due water_due) (ground arith) refl

abbrev for_room : CreateDueForRoom
for_room = record {
  due_type = electricity;
  custom_due_type = none;
  room_id = 7;
  total_amount = 100001;
  dues_to_date = 0;
}

abbrev for_tenant : CreateDueForTenant
for_tenant = record {
  due_type = electricity;
  custom_due_type = none;
  tenant_id = 20;
  amount = 12345;
  dues_to_date = 0;
}

add_due_to_room-IsConsistent_example : IsConsistent (add_due_to_room 0 for_room 5 sample_world).1
add_due_to_room-IsConsistent_example =
    add_due_to_room-IsConsistent 0 for_room 5 sample_world sample_world-IsConsistent

abbrev room_made : List Due
room_made =
    new_due 0 (sample_tenancy 10 20) electricity none 50100 0 3
    ∷ new_due 0 (sample_tenancy 11 21) electricity none 50100 0 4
    ∷ []

room_charged : (add_due_to_room 0 for_room 5 sample_world).0 ≡ ok room_made
unfolding add_due_to_room create_room_dues emit_all individual_amount
room_charged = refl

add_due_to_room_shares_example :
    ((add_due_to_room 0 for_room 5 sample_world).1.dues.rows ≡ sample_world.dues.rows ++ room_made)
    × (map (λ (d : Due). d.tenancy_id) room_made
        ≡ map (λ (t : Tenancy). t.id) (room_tenancies for_room 5 sample_world))
    × All (λ (d : Due). d.balance_amount ≡ room_share for_room 5 sample_world) room_made
    × (outstanding (add_due_to_room 0 for_room 5 sample_world).1
        ≡ outstanding sample_world + 2 * room_share for_room 5 sample_world)
    × (100001 ≤ 2 * room_share for_room 5 sample_world)
    × (2 * room_share for_room 5 sample_world < 100001 + 100 * 2)
add_due_to_room_shares_example =
    add_due_to_room_shares 0 for_room 5 sample_world sample_world-IsConsistent room_charged

add_due_to_tenant_owes_example :
    IsConsistent (add_due_to_tenant 0 for_tenant 5 sample_world).1
    × (outstanding (add_due_to_tenant 0 for_tenant 5 sample_world).1
        ≡ outstanding sample_world + 12400)
    × (ceil_rupee 12345 ≡ 12400)
unfolding add_due_to_tenant
add_due_to_tenant_owes_example =
    add_due_to_tenant_owes 0 5 sample_world sample_world-IsConsistent for_tenant refl

-- ===== src/Due/Sample.antt =====
-- The sample database is consistent.
use pg_master_backend.Prelude.{arith}
use pg_master_backend.Store.Samples.{sample_world}
use pg_master_backend.Due.Invariant.{IsConsistent}

pub sample_world-IsConsistent : IsConsistent sample_world
sample_world-IsConsistent = record {
  balanced = ground arith;
  dues_keyed = ground arith;
  payments_keyed = ground arith;
}

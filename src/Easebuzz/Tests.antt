-- ===== src/Easebuzz/Tests.antt =====
-- The status texts of the gateway.
use pg_master_backend.Prelude.{◌≡◌, refl, true, false}
use pg_master_backend.Easebuzz.{same_lowercase}

status_texts :
    (same_lowercase "userCancelled" "usercancelled" ≡ true)
    × (same_lowercase "SUCCESS" "success" ≡ true)
    × (same_lowercase "failure" "success" ≡ false)
unfolding same_lowercase
status_texts = (refl, refl, refl)

-- ===== src/Payment/Lock.antt =====
-- src/modules/payment/cache/payment.cache.service.ts: one lock in redis for each set of dues that
-- is being paid. An entry holds the sorted ids, which make up the key, and when it expires.
pub mod Keys
use pg_master_backend.Prelude.{
  ℕ, ◌+◌, ◌*◌, Bool, true, false, ◌&&◌, ◌||◌, List, [], ◌∷◌, leb, ltb, ◌==◌, if◌then◌else◌,
}
use pg_master_backend.Store.Rows.{delete_many}
use pg_master_backend.Store.World.{World}

unfoldable pub insert_id : ℕ → List ℕ → List ℕ
insert_id x [] = x ∷ []
insert_id x (y ∷ ys) = if leb x y then x ∷ y ∷ ys else y ∷ insert_id x ys

-- `dueIds.sort((a, b) => a - b)`
unfoldable pub sort_ids : List ℕ → List ℕ
sort_ids [] = []
sort_ids (x ∷ xs) = insert_id x (sort_ids xs)

-- Two keys are one text exactly when they list the same numbers.
abbrev pub same_key : List ℕ → List ℕ → Bool
same_key [] [] = true
same_key (x ∷ xs) (y ∷ ys) = x == y && same_key xs ys
same_key _ _ = false

-- `840`, in seconds
abbrev pub lock_ttl_ms : ℕ
lock_ttl_ms = 840 * 1000

unfoldable pub lock_payment : ℕ → List ℕ → World → World
lock_payment now due_ids w = record w {
  locks =
      (sort_ids due_ids, now + lock_ttl_ms)
      ∷ delete_many (λ (l : List ℕ × ℕ). same_key l.0 (sort_ids due_ids)) w.locks;
}

unfoldable pub unlock_payment : List ℕ → World → World
unlock_payment due_ids w = record w {
  locks = delete_many (λ (l : List ℕ × ℕ). same_key l.0 (sort_ids due_ids)) w.locks;
}

unfoldable pub has_lock : ℕ → List ℕ → List (List ℕ × ℕ) → Bool
has_lock now key [] = false
has_lock now key ((k, expires) ∷ rest) =
    (same_key k key && ltb now expires) || has_lock now key rest

unfoldable pub is_payment_locked : ℕ → List ℕ → World → Bool
is_payment_locked now due_ids w = has_lock now (sort_ids due_ids) w.locks

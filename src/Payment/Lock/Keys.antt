-- ===== src/Payment/Lock/Keys.antt =====
-- The lock on a set of dues.
use pg_master_backend.Prelude.{ℕ, ◌+◌, ◌<◌, ◌≡◌, refl, ap, ◌∙◌, true, List, [], ◌∷◌, ltb, arith}
use mathlib.Core.Logic.{∥∥₁_elim}
use mathlib.Core.List.{Perm, Permᴰ}
use pg_master_backend.Store.World.{World}
use pg_master_backend.Payment.Lock.{
  insert_id, sort_ids, same_key, lock_ttl_ms, lock_payment, has_lock, is_payment_locked,
}

pub same_key_refl : (xs : List ℕ) → same_key xs xs ≡ true
same_key_refl [] = refl
same_key_refl (x ∷ xs) = ground (arith, same_key_refl xs)

-- `sort` gives one list for all orders: an insertion can be swapped with the next.
insert_swap : (x y : ℕ) (zs : List ℕ) → insert_id x (insert_id y zs) ≡ insert_id y (insert_id x zs)
unfolding insert_id
insert_swap x y [] = ground arith
insert_swap x y (z ∷ zs) = ground (arith, insert_swap x y zs)

sort_ids-perm : {xs ys : List ℕ} → Permᴰ xs ys → sort_ids xs ≡ sort_ids ys
unfolding sort_ids
sort_ids-perm Permᴰ.nil = refl
sort_ids-perm (Permᴰ.cons {a = a} {b = b} {l₂ = l} same rest) =
    ap (insert_id a) (sort_ids-perm rest) ∙ ap (λ x. insert_id x (sort_ids l)) same
sort_ids-perm (Permᴰ.swap {a = a} {b = b} {a' = a'} {l = l} first second) =
    insert_swap a b (sort_ids l)
    ∙ ap (λ x. insert_id x (insert_id a (sort_ids l))) second
    ∙ ap (λ x. insert_id a' (insert_id x (sort_ids l))) first
sort_ids-perm (Permᴰ.trans one two) = sort_ids-perm one ∙ sort_ids-perm two

-- A lock on some dues locks the same dues, in any order, until its time is over.
pub lock_payment-locks :
    (now later : ℕ) (xs ys : List ℕ) (w : World)
    → Perm xs ys
    → later < now + lock_ttl_ms
    → is_payment_locked later ys (lock_payment now xs w) ≡ true
unfolding is_payment_locked lock_payment has_lock
lock_payment-locks now later xs ys w same early =
    let t : ltb later (now + lock_ttl_ms) ≡ true = ground arith in
    ∥∥₁_elim {P = is_payment_locked later ys (lock_payment now xs w) ≡ true} same (hlevel)
      (λ order. rw (sort_ids-perm order, same_key_refl (sort_ids ys), t) refl)

-- ===== src/Phone.antt =====
-- src/utils/phone.utils.ts: phone numbers as the lists of their characters' codes.
use pg_master_backend.Prelude.{
  ℕ, zero, suc, ◌-◌, Bool, true, false, ◌&&◌, List, [], ◌∷◌, leb, ltb, if◌then◌else◌, length,
}
use pg_master_backend.Store.Rows.{find_many}
use pg_master_backend.Payment.Lock.{same_key}

abbrev is_digit : ℕ → Bool
is_digit c = leb 48 c && leb c 57

abbrev drop_codes : ℕ → List ℕ → List ℕ
drop_codes zero s = s
drop_codes (suc n) [] = []
drop_codes (suc n) (c ∷ s) = drop_codes n s

-- `normalizePhoneNumber`: the last ten digits, or all of them where there are fewer
unfoldable pub normalize_phone_number : List ℕ → List ℕ
normalize_phone_number phone =
    let digits = find_many is_digit phone in
    if ltb (length digits) 10 then digits else drop_codes (length digits - 10) digits

-- `phoneSearchVariants`: as stored, with +91 and with 91 in front; none for no digits
unfoldable pub phone_search_variants : List ℕ → List (List ℕ)
phone_search_variants phone = variants_of (normalize_phone_number phone)
  where
    variants_of : List ℕ → List (List ℕ)
    variants_of [] = []
    variants_of normalized = normalized ∷ (43 ∷ 57 ∷ 49 ∷ normalized) ∷ (57 ∷ 49 ∷ normalized) ∷ []

-- `{ in: variants }`
abbrev pub is_one_of : List (List ℕ) → List ℕ → Bool
is_one_of [] phone = false
is_one_of (v ∷ vs) phone = if same_key v phone then true else is_one_of vs phone

unfoldable pub phone_numbers_equal : List ℕ → List ℕ → Bool
phone_numbers_equal a b = same_key (normalize_phone_number a) (normalize_phone_number b)

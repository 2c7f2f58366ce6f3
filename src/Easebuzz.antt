-- ===== src/Easebuzz.antt =====
-- src/infra/payment/easebuzz: the signature of the gateway's webhooks. SHA-512 is node's `crypto`,
-- a parameter here.
mod Tests
use Prim.Native.Char.{code}
use Prim.Native.String.{◌++◌}
use text.Mathlib.Text.{◌==◌ as str_eq}
use pg_master_backend.Prelude.{
  ℕ, ◌+◌, String, Bool, true, false, ◌&&◌, Option, none, some, List, [], ◌∷◌, leb, ◌==◌,
  if◌then◌else◌,
}

pub record WebhookPayload : Type 0 where
  pub txnid : String
  pub amount : String
  pub productinfo : String
  pub firstname : String
  pub email : String
  pub status : String
  pub hash : String
  pub easepayid : String
  pub payment_source : Option String
  pub udf1 : Option String
  pub udf2 : Option String
  pub udf3 : Option String
  pub udf4 : Option String
  pub udf5 : Option String
  pub udf6 : Option String
  pub udf7 : Option String
  pub udf8 : Option String
  pub udf9 : Option String
  pub udf10 : Option String

-- `?? ''`
abbrev pub or_empty : Option String → String
or_empty none = ""
or_empty (some s) = s

-- `parts.join('|')`
unfoldable pub join_bars : List String → String
join_bars [] = ""
join_bars (s ∷ []) = s
join_bars (s ∷ t ∷ rest) = s ++ "|" ++ join_bars (t ∷ rest)

unfoldable pub response_hash_string : String → String → WebhookPayload → String
response_hash_string key salt w = join_bars (
    salt
    ∷ w.status
    ∷ or_empty w.udf10
    ∷ or_empty w.udf9
    ∷ or_empty w.udf8
    ∷ or_empty w.udf7
    ∷ or_empty w.udf6
    ∷ or_empty w.udf5
    ∷ or_empty w.udf4
    ∷ or_empty w.udf3
    ∷ or_empty w.udf2
    ∷ or_empty w.udf1
    ∷ w.email
    ∷ w.firstname
    ∷ w.productinfo
    ∷ w.amount
    ∷ w.txnid
    ∷ key
    ∷ [])

unfoldable pub verify_response_hash : (String → String) → String → String → WebhookPayload → Bool
verify_response_hash sha512 key salt w = str_eq (sha512 (response_hash_string key salt w)) w.hash

-- `status?.toLowerCase()`, of ASCII letters
abbrev lower_code : ℕ → ℕ
lower_code c = if leb 65 c && leb c 90 then c + 32 else c

unfoldable pub same_lowercase : String → String → Bool
same_lowercase String.[] String.[] = true
same_lowercase (String.◌∷◌ c s) (String.◌∷◌ d t) =
    lower_code (code c) == code d && same_lowercase s t
same_lowercase _ _ = false

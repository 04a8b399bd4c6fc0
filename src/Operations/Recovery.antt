-- ===== src/Operations/Recovery.antt =====
-- The leases of packages/relaypay/provider_operations/recovery.py. The rows are those of the whole
-- table `provider_operations`, of the organisation if one is given; `now` is the clock, and `token`
-- gives each claim a new token.
pub mod Leases
use relaypay.Base.{
  ℕ, zero, suc, ◌+◌, Option, none, some, List, [], ◌∷◌, ◌++◌, map, Bool, true, false, not, ◌&&◌,
  ◌||◌, Result, ok, ◌>>=◌, ◌>>◌, raise_if, or_raise, lookup_not_available, operation_not_in_review,
  operation_terminal, lookup_in_progress, operation_not_found, ◌==◌, if◌then◌else◌, leb, ltb, find,
  where_rows, elem, is_some, is_none, is_at_most,
}
use relaypay.Rows.{is_terminal, is_processing, is_in_review, StableKey, Operation, put_operation}

pub record RecoveryClaim : Type 0 where
  pub operation_id : ℕ
  pub operation_public_id : ℕ
  pub stable_key : StableKey
  pub lease_token : ℕ

-- No lease is live.
abbrev pub is_free : ℕ → Operation → Bool
is_free now o = is_none o.lookup_lease_expires_at || is_at_most o.lookup_lease_expires_at now

abbrev pub is_due : ℕ → Operation → Bool
is_due now o =
    is_processing o.status
    && is_some o.last_sent_at
    && is_at_most o.next_lookup_at now
    && is_free now o

abbrev pub is_unsent : ℕ → ℕ → Operation → Bool
is_unsent now grace o =
    is_processing o.status
    && is_none o.last_sent_at
    && leb (o.created_at + grace) now
    && is_free now o

-- `ORDER BY key, id`
abbrev pub precedes : (Operation → ℕ) → Operation → Operation → Bool
precedes key a b = ltb (key a) (key b) || key a == key b && leb a.id b.id

unfoldable pub insert : (Operation → ℕ) → Operation → List Operation → List Operation
insert key o [] = o ∷ []
insert key o (p ∷ ps) =
    let rest = insert key o ps in if precedes key o p then o ∷ p ∷ ps else p ∷ rest

unfoldable pub order_by : (Operation → ℕ) → List Operation → List Operation
unfolding insert
order_by key [] = []
order_by key (o ∷ os) = insert key o (order_by key os)

-- `LIMIT n`
unfoldable pub limit : ℕ → List Operation → List Operation
limit zero os = []
limit (suc n) [] = []
limit (suc n) (o ∷ os) = o ∷ limit n os

-- The column `next_lookup_at` of a due row, which is not NULL.
abbrev pub due_at : Operation → ℕ
due_at o = elim o.next_lookup_at [ none ↦ 0 | some t ↦ t ]

unfoldable pub due_rows : ℕ → ℕ → List Operation → List Operation
unfolding order_by limit
due_rows now batch_size os = limit batch_size (order_by due_at (where_rows (is_due now) os))

unfoldable pub unsent_rows : ℕ → ℕ → ℕ → List Operation → List Operation
unfolding order_by limit
unsent_rows now grace batch_size os =
    limit batch_size (order_by (λ o. o.created_at) (where_rows (is_unsent now grace) os))

abbrev pub leased : ℕ → ℕ → Operation → Operation
leased token expires o = record o {
  lookup_lease_token = some token;
  lookup_lease_expires_at = some expires;
}

-- The rows of the ids given take a lease.
unfoldable pub lease_rows : (ℕ → ℕ) → ℕ → List ℕ → List Operation → List Operation
lease_rows token expires ids [] = []
lease_rows token expires ids (o ∷ os) =
    (if elem o.id ids then leased (token o.id) expires o else o) ∷ lease_rows token expires ids os

abbrev pub claim_of : (ℕ → ℕ) → Operation → RecoveryClaim
claim_of token o = record {
  operation_id = o.id;
  operation_public_id = o.public_id;
  stable_key = o.stable_provider_key;
  lease_token = token o.id;
}

abbrev pub ids_of : List Operation → List ℕ
ids_of = map (λ o. o.id)

unfoldable pub claim_due_operations :
    ℕ → ℕ → ℕ → (ℕ → ℕ) → List Operation → List RecoveryClaim × List Operation
unfolding due_rows lease_rows
claim_due_operations now batch_size lease_seconds token os = (
  map (claim_of token) (due_rows now batch_size os),
  lease_rows token (now + lease_seconds) (ids_of (due_rows now batch_size os)) os,
)

-- The claims hold the public ids.
unfoldable pub claim_unsent_operations :
    ℕ → ℕ → ℕ → ℕ → (ℕ → ℕ) → List Operation → List ℕ × List Operation
unfolding unsent_rows lease_rows
claim_unsent_operations now grace batch_size lease_seconds token os = (
  map (λ o. o.public_id) (unsent_rows now grace batch_size os),
  lease_rows token (now + lease_seconds) (ids_of (unsent_rows now grace batch_size os)) os,
)

abbrev pub has_live_lease : ℕ → Operation → Bool
has_live_lease now o = elim o.lookup_lease_expires_at [
  | none ↦ false
  | some expires ↦ ltb now expires
]

unfoldable pub claim_specific_operation :
    ℕ → ℕ → ℕ → Bool → (ℕ → ℕ) → List Operation → Result (RecoveryClaim × List Operation)
claim_specific_operation operation_public_id now lease_seconds require_review token os = do
  operation ← or_raise (find (λ o. o.public_id == operation_public_id) os) operation_not_found
  raise_if (is_none operation.last_sent_at) lookup_not_available
  raise_if (require_review && not (is_in_review operation.status)) operation_not_in_review
  raise_if (is_terminal operation.status) operation_terminal
  raise_if (has_live_lease now operation) lookup_in_progress
  ok (
    claim_of token operation,
    put_operation (leased (token operation.id) (now + lease_seconds) operation) os,
  )

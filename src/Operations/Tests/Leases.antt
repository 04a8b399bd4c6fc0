-- ===== src/Operations/Tests/Leases.antt =====
-- Two pollers and two administrators at one operation.
use relaypay.Base.{
  ℕ, ◌+◌, ◌≡◌, refl, some, List, [], ◌∷◌, map, false, err, lookup_in_progress, All, elem, arith,
}
use relaypay.Rows.{Operation, put_operation}
use relaypay.Operations.Recovery.{
  ids_of, unsent_rows, claim_unsent_operations, claim_of, insert, order_by, limit, due_rows,
  lease_rows, claim_due_operations, claim_specific_operation, leased,
}
use relaypay.Operations.Recovery.Leases.{
  claim_unsent_operations-exclusive, claim_due_operations-exclusive,
  claim_specific_operation-exclusive,
}
use relaypay.Operations.Tests.{unsent}

abbrev waiting : ℕ → ℕ → Operation
waiting id due = record unsent {
  id = id;
  public_id = 100 + id;
  last_sent_at = some 10;
  next_lookup_at = some due;
}

abbrev table : List Operation
table = waiting 1 40 ∷ waiting 2 20 ∷ waiting 3 30 ∷ []

abbrev token : ℕ → ℕ
token id = 500 + id

-- The earliest come first.
first_batch :
    (claim_due_operations 50 2 30 token table).0
    ≡ claim_of token (waiting 2 20) ∷ claim_of token (waiting 3 30) ∷ []
unfolding claim_due_operations due_rows order_by insert limit
first_batch = refl

second_batch :
    (claim_due_operations 60 9 30 token ((claim_due_operations 50 2 30 token table).1)).0
    ≡ claim_of token (waiting 1 40) ∷ []
unfolding claim_due_operations due_rows order_by insert limit lease_rows
second_batch = refl

claim_due_operations-exclusive_example :
    All
      (λ c.
        elem c.operation_id
          (map (λ d. d.operation_id) ((claim_due_operations 50 2 30 token table).0))
        ≡ false)
      ((claim_due_operations 60 9 30 token ((claim_due_operations 50 2 30 token table).1)).0)
claim_due_operations-exclusive_example =
    claim_due_operations-exclusive 50 60 2 9 30 30 token token table (omega arith)

abbrev claimed_table : List Operation
claimed_table = waiting 1 40 ∷ leased 502 80 (waiting 2 20) ∷ waiting 3 30 ∷ []

claim_specific_operation-exclusive_example :
    claim_specific_operation 102 60 30 false token claimed_table ≡ err lookup_in_progress
unfolding claim_specific_operation put_operation
claim_specific_operation-exclusive_example =
    claim_specific_operation-exclusive 102 50 60 30 30 false token token table claimed_table
      (claim_of token (waiting 2 20)) refl (omega arith)

abbrev unsent_table : List Operation
unsent_table = record unsent { id = 1 } ∷ record unsent { id = 2; created_at = 10 } ∷ []

claim_unsent_operations-exclusive_example :
    All
      (λ o. elem o.id (ids_of (unsent_rows 100 30 1 unsent_table)) ≡ false)
      (unsent_rows 110 30 9 ((claim_unsent_operations 100 30 1 30 token unsent_table).1))
claim_unsent_operations-exclusive_example =
    claim_unsent_operations-exclusive 100 110 30 30 1 9 30 token unsent_table (omega arith)

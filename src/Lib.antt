-- ===== src/Lib.antt =====
-- RelayPay, a payment platform: a merchant's payment is authorized, captured, voided or refunded at
-- an external provider, and every effect is booked in a double-entry ledger. The program is the
-- Python package packages/relaypay; paths below are within it unless they say otherwise.
--
-- The parts, and how they interact. A command of a merchant commits an operation for the provider.
-- A dispatcher claims its one send, and what the provider answers, then or to a later lookup or in
-- a webhook, is classified and recorded as an attempt. The finalizer takes one verified attempt and
-- in one transaction closes the operation, moves the payment, posts the journal, appends the
-- merchant's event and completes the idempotency keys. A payout reserves a part of the merchant's
-- available balance in the same books until the bank's answer consumes or releases it.
--
--   Base          tests, lists, signed amounts over native numbers (Base.Int), and exceptions as
--                 values (Base.Results): a transaction that raises is rolled back, so it has no state
--   Fees          fees/: Calculator is calculator.py and types.py, Schedule is service.py and
--                 models.py; Split and Versions prove
--   Ledger        ledger/: Books are the rows of models.py, with the balance transactions, settlement
--                 items and payout reservations its queries read; Posting, Capture and Refund are
--                 the functions of service.py; Balances, Balanced, Reconciled, Keeps and Sources prove
--   Rows          payments/models.py and provider_operations/models.py: the state `World` holds the
--                 rows of one payment with the books of its environment
--   Payments      payments/transitions.py: Status is the table, Transitions the writer of the status,
--                 Transitions.Chain proves
--   Operations    provider_operations/: Resources are the branches of finalizer.py on the resource,
--                 Finalizer is the rest of it, Validation is validation.py, Service.Sends, Records and
--                 Apply are service.py, and Recovery is the claims of recovery.py, over the rows of
--                 the table. Dispatch is the calls over the transport, of service.py and
--                 recovery.py. Trace puts the transactions together in any order, with the claims
--                 of recovery.py and the evidence that psp/applier.py inserts for a webhook. Frame,
--                 Finalizer.Once, Twice and Effects, Validation.Sound, Service.Sending, Lookups and
--                 Evidence, Recovery.Leases, Dispatch.Sent and the children of Trace prove
--   Psp           psp/: Ordering is ordering.py with types.py; Ordering.Replay proves
--   Commands      payments/service.py and payments/expiry.py: Requests are the parts that the commands
--                 share, Initiate and Reverse the four commands, Any all of them as one, and Expiry
--                 the sweep. Splits, Replay, Repeat, Recovering, Again, Finalized, Expired, Links and
--                 Orderly prove; Orderly.Runs puts commands, sweeps and transactions in any order
--   Payouts       payouts/: Tables are the rows of models.py; Reserve (with derive_balances of
--                 merchant_balances/service.py), Create, Retry, Send, Settle and Bank are service.py:
--                 create_payout, create_retry, prepare_attempt_send, record_bank_observation and
--                 _classify with dispatch_payout_attempt. The state `Treasury` holds the payouts of an
--                 environment with its books. Solvent and Verified prove; Solvent.Runs puts the
--                 transactions in any order
--   Tests modules hold runs at fixed inputs and the theorems applied to them.
--
-- How the code is modelled. A transaction under its row locks is one function from the state to a
-- result; interleavings are sequences of such functions. Ids, times and digests are numbers, and a
-- new id or the clock is an argument; a batch of claims is a function of the whole table. Amounts
-- are signed, and subtraction is that of the integers; Python's integers do not overflow. The
-- organisation and environment of a row are those of the payment in every row, and the currency is
-- INR. Canonical JSON is kept as the record that it encodes. The reading of a provider's body, the
-- hash and the keyed hash are the fields of the record `Codec`, for the bank `BankCodec`, and a fee
-- calculator that is passed in is any function. No function of the model needs fuel: every loop is
-- over a list of rows.
--
-- Database rules that a function relies on are written out where it writes: the unique constraints
-- of journals, attempts, operations, payouts and idempotency keys; the checks on the amounts of a
-- new row, on the deltas of a balance transaction and on the rates and bounds of a fee schedule
-- version; the trigger that sets the expiry of an authorization
-- (migrations/relaypay/versions/0023_authorization_expiry.py); and the trigger that refuses a payout
-- reservation that the balance does not cover. That trigger is of 0020_payout_overdraft_guard.py
-- beside it; it is one atomic check at the commit since 0030_coverage_check_lock.py, which takes an
-- advisory lock first, so that two commits do not miss each other's reservations. Left out are the
-- unique journal of a balance transaction (merchant_balances/models.py), whose journal is new in the
-- same transaction, and the first row of a payment history that the migration of that table wrote
-- for an older payment (BACKFILL_V2).
--
-- A violated constraint is the failure `integrity_error`, or `check_violation` for a check on the
-- books or on the terms of fees. After an `integrity_error` a command looks for the winner of the race
-- in a second state. Likewise a finalization that failed is rolled back, and the transaction that
-- counts the failure runs on a second state.
--
-- A command's idempotency key is looked up among the keys of the payment. A key of another payment
-- has another fingerprint, which covers the path, so the code refuses it; such keys are not in the state.
--
-- The transports are the records `ProviderTransport` and `BankTransport`, whose answers are any.
--
-- Not modelled: the creation of customers and payments, the views of payments/service.py, the
-- batches of the sweep and of the recovery, the webhook inbox, the settlement run, the batch of
-- payouts, the delivery of events, subscriptions and disputes; and what is input and output,
-- rendering or glue: the HTTP applications, the worker, the console, the simulators, the reports of
-- language models and the generated client.
pub mod Base
pub mod Fees
pub mod Ledger
pub mod Rows
pub mod Payments
pub mod Operations
pub mod Psp
pub mod Commands
pub mod Payouts

-- ===== src/Lib.antt =====
-- The money manager's core: a REST API that keeps accounts and transactions, and splits expenses
-- with other people (README.md, docs/architecture/overview.md).
--
-- Prelude (library names, tests, lists, integers) and Sorting (a stable sort) serve every module.
-- Errors models src/shared/errors.ts: a throw is an `err` value with its status and code.
-- Concurrency models src/shared/concurrency.ts and src/shared/clientMintedId.ts.
-- Money models src/shared/money.ts and src/shared/currency.ts. An amount is a whole number of
-- hundredths, as the request schemas demand (src/app/validation/schemas.ts refuses a third
-- decimal); it stands for the double nearest to it, from which toCents gives the hundredths back for
-- every amount up to MAX_AMOUNT, so it is the identity here. Only hasValidPrecision looks at the
-- doubles themselves (Money.Doubles). Split models src/shared/splitShares.ts: resolveShares is Split.resolve_shares, its
-- modes are the *_shares functions. Imputation models src/shared/sharedImputation.ts: impute_one
-- is one round of the loop of impute, cover its inner loop, impute_counterparty the whole.
-- Splitting models src/app/services/sharedSplitting.ts, a split as it is stated and as it is stored,
-- above Split.resolve_shares; Restated is about a stored split stated again,
-- Defaults models the default split of a group, and Totals what each person is down for.
--
-- Accounts models src/domain/entities/Account.ts and src/shared/transactionRules.ts, and its
-- Repository the statements of AccountRepository.ts; Service and Requests are
-- src/app/services/AccountService.ts, and Sound, Kept, Edited, Served, Archive and Room what its requests leave.
-- Transactions models
-- src/domain/entities/Transaction.ts; its children are Validity (what assertValid lets through),
-- Journal (src/app/services/restamps.ts), Rows (TransactionRepository.ts), Balances (moveBalances
-- of src/app/services/TransactionService.ts, with what it does to every account in Net, what it
-- asks of them in Checks, and the loans in Loans and LoanCap) and Service (the requests of
-- TransactionService.ts: Create and Edit, and the invariant of the balances in Booked,
-- Inserted, Edited and Removed). A request is a function from a store to a result: an error aborts the database
-- transaction, so the store stays as it was. What other requests write between two reads of one
-- request is an argument.
--
-- Invitations models src/domain/entities/SharedInvitation.ts and the writes of
-- src/infrastructure/repositories/sharedInvitation/SharedInvitationRepository.ts, with the rows
-- that its unique index allows in Open; Service and Joined are
-- src/app/services/SharedInvitationService.ts.
--
-- Sync models src/shared/syncCursor.ts and src/infrastructure/repositories/changeFeed.ts: the order
-- of changes (Order), the text of a cursor (Cursor), and a page of getChanges of
-- src/app/services/SyncService.ts (Feed), out of sources that are each cut to one row more than a
-- page. Inserts, Merge and Late are what holds of sorted arrays, Keys, Page, Answer and Positions what a
-- page holds, and Walk the whole feed against it.
--
-- Sessions models src/infrastructure/repositories/refreshSession/RefreshSessionRepository.ts, and its
-- Service the refresh tokens of src/app/services/AuthService.ts. A call that throws leaves what it wrote,
-- since these calls are not in a database transaction; what other requests write between two of its
-- calls is an argument, or, in Tip, steps of their own. Expiry, Reissue, Logout and Crossing are about how
-- long pairs last, how many are given again, what ends a family, and a logout that
-- crosses a refresh (with the rows it ends in Ended).
--
-- Codes models src/infrastructure/repositories/authCode/AuthCodeRepository.ts and the redemption of a
-- reset in src/app/services/PasswordResetService.ts, and RateCounters
-- src/infrastructure/repositories/rateCounter/RateCounterRepository.ts with
-- src/app/middlewares/authRateLimitMiddleware.ts.
--
-- An interface stands for the group's side of a movement (SharedLedgerService.ts, which the
-- service calls on an edit and a deletion), and a parameter for the calendar of luxon. Ids and
-- instants are numbers, since they are only compared. The time, a fresh id and the ids of the
-- collection are arguments.
--
-- Fuel: Imputation.skip_closed has as much as there are lines, which ends its loop by the loop's
-- own test.
-- A run of Sync.Walk is a finite sequence of pages, so it needs no fuel.
-- Not modelled: the signing of tokens and the forms of instants and base64url, which are parameters, the text of messages, the list of restamped rows in an answer, HTTP, mail, and
-- MongoDB itself.
pub mod Prelude
pub mod Errors
pub mod Money
pub mod Sorting
pub mod Split
pub mod Imputation
pub mod Accounts
pub mod Codes
pub mod Concurrency
pub mod Invitations
pub mod RateCounters
pub mod Sessions
pub mod Splitting
pub mod Sync
pub mod Transactions

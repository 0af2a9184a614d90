-- ===== src/Lib.antt =====
-- A verification library of the lending platform's services (src/apps). Users ask one another for loans,
-- borrowers accept or refuse, installments are created and paid, payments are matched with bank
-- transactions, families see what their members owe one another, and users are notified.
--
-- Parts, and how they correspond to the code:
-- Platform: what the services share. Platform.World is the state: the tables, their sequences, the
--   Django cache with its times, the tasks given to the queue, the hooks of the open transaction and the
--   events published. An action maps a state to a result and a state; `atomic` is `transaction.atomic`: an
--   exception restores the tables, while sequences, cache and queue keep what they were given, and hooks
--   run after the commit. Platform.Rows has the models' columns (src/apps/*/models.py), Platform.Table a
--   table as rows under keys in the order of insertion, Platform.Order the order of a query's rows, Platform.Errors the exceptions, Platform.Post
--   the rules for postconditions.
-- Loans.Validation: `full_clean` and `save` of Loan and Repayment (src/apps/loans/models.py).
-- Loans.LoanService: src/apps/loans/services/loan_service.py; its private methods stand in Helpers.
--   Acceptance and Replay are about calls one after the other.
-- Loans.RepaymentService and Loans.Reminders: src/apps/loans/services/repayment_service.py.
-- Loans.History: the specification that the loan services refine, as a relation of writes; a call that fails
--   leaves the tables as they were. Loans.Calls
--   has the calls in any order, with time that passes and a queue that goes away and comes back.
-- Loans.Sockets: the groups that a user's WebSocket is in, src/apps/loans/consumers.py.
-- Payments.Reconciliation: src/apps/payments/services/reconciliation_service.py. Payments.Records:
--   `full_clean` and `save` of src/apps/payments/models.py. Payments.Transactions and Payments.Accounts:
--   transaction_service.py and discovered_account_service.py beside it; Payments.Accounts.Calls has the
--   account calls in any order.
-- Payments.Gmail: src/apps/payments/services/gmail_parsers in Fields (patterns and description), Ignored and
--   Parsers; gmail_ingestion_service.py in Ingestion, and the text of a message in Body. Prelude.Regex has
--   what the patterns use of `re`, as the ways through a pattern in the order of backtracking.
-- Accounts: the connection of a Gmail account and the refresh of its tokens in
--   src/apps/accounts/services/gmail_oauth_service.py; Google's answers are arguments.
-- Family: src/apps/family/services/family_service.py, in Access (roles), Membership and Positions;
--   Family.Requests has the requests in any order.
-- Notifications: src/apps/notifications/services/notification_service.py, with the model's `clean`.
-- Prelude: lists, integers and texts over the native numbers.
--
-- Numbers: amounts of money and rates are integers in hundredths; a DecimalField's bounds are checked where
-- `full_clean` does. Dates count days and times count microseconds. Loops are recursion
-- on the rows; `show` alone has fuel, one more than the number, and Prelude.Numerals shows that it is enough.
--
-- Parameters: `Env` holds the functions of the libraries (sha256 of the JSON text of a request, case
-- of texts, `isdigit`, `isoformat`); the theorems hold for any such functions. `MailEnv` holds `parseaddr` and
-- the banks' domains of the settings. That `upper` leaves the banks' names alone is a named hypothesis.
--
-- Not modelled: HTTP views and serializers, the events that a WebSocket passes on, sign-in, the calls of Google and the loop that
-- lists the mails of a mailbox, administration, configuration and migrations. `Decimal` is read for the texts
-- that the patterns give it.
-- A row lock is not modelled either: calls run one after the other, which is what the locks are for.
pub mod Prelude
pub mod Platform
pub mod Accounts
pub mod Payments
pub mod Loans
pub mod Family
pub mod Notifications
mod Tests

-- ===== src/Platform/Errors.antt =====
-- The exceptions. A service error carries the place that raises it in place of its message.
use nance_peer_lend_borrow_p.Prelude.{◌≡◌, refl, ◌⊎◌, inl, inr}

pub data Reason : Type 0 where
  -- loans/services/loan_service.py
  not_borrower_accept not_borrower_reject not_lender_cancel : Reason
  not_pending_accept not_pending_reject not_cancellable : Reason
  amount_not_positive same_parties mobile_required key_required key_reused : Reason
  -- loans/services/repayment_service.py
  due_not_positive installment_not_positive loan_ended installment_differs : Reason
  invalid_repayment payment_not_positive loan_refused already_paid overpayment : Reason
  -- family/services/family_service.py
  not_in_current_family name_required already_owner self_invitation no_such_user : Reason
  already_member already_invited not_own_invitation owner_not_removable not_member : Reason
  no_family not_manager not_viewer not_pending_invitation : Reason
  -- payments/services/transaction_service.py and discovered_account_service.py
  invalid_direction invalid_account_type invalid_source : Reason
  -- accounts/services/gmail_oauth_service.py
  not_configured call_failed no_access_token profile_incomplete other_users_gmail : Reason
  no_refresh_token token_expired : Reason

pub data Error : Type 0 where
  -- `InvalidLoanOperationError`, `InvalidRepaymentOperationError`, `InvalidFamilyOperationError`,
  -- `InvalidGmailOAuthOperationError`,
  -- and the errors of the payment services about their arguments
  invalid_operation : Reason → Error
  -- `FamilyNotFoundError`, `NotificationServiceError`, and `DiscoveredAccountServiceError` of no account
  not_found : Error
  -- Django's `DoesNotExist` and `ValidationError`
  does_not_exist validation_error : Error
  -- the database's refusals
  integrity_error data_error : Error
  -- Python's `ValueError`
  value_error : Error
  -- the task queue's broker cannot be reached
  broker_error : Error

pub data Result {ℓ} (A : Type ℓ) : Type ℓ where
  ok : A → Result A
  err : Error → Result A

pub Result-cases :
    {A : Type 0} (r : Result A) → ((a : A) × (r ≡ ok a)) ⊎ ((e : Error) × (r ≡ err e))
Result-cases (ok a) = inl (a, refl)
Result-cases (err e) = inr (e, refl)

-- ===== src/Billing/Types.antt =====
-- admin-dashboard/lib/admin/billing-types.ts. Days are natural numbers.
use telecam.Prelude.{ℕ, Bool, Option}
use telecam.Text.{Text, text}

pub data SubscriptionStatus : Type 0 where
  active trial expired cancelled past_due blocked disabled unknown : SubscriptionStatus

pub data PaymentStatus : Type 0 where
  pending approved rejected refunded unknown : PaymentStatus

pub data InvoiceStatus : Type 0 where
  open_invoice paid void voided overdue unknown : InvoiceStatus

pub data PaymentMethod : Type 0 where
  bank_transfer telebirr cash manual unknown : PaymentMethod

-- The texts that the types stand for.
abbrev pub subscription_status_name : SubscriptionStatus → Text
subscription_status_name active = text "ACTIVE"
subscription_status_name trial = text "TRIAL"
subscription_status_name expired = text "EXPIRED"
subscription_status_name cancelled = text "CANCELLED"
subscription_status_name past_due = text "PAST_DUE"
subscription_status_name blocked = text "BLOCKED"
subscription_status_name disabled = text "DISABLED"
subscription_status_name unknown = text "UNKNOWN"

abbrev pub payment_status_name : PaymentStatus → Text
payment_status_name pending = text "PENDING"
payment_status_name approved = text "APPROVED"
payment_status_name rejected = text "REJECTED"
payment_status_name refunded = text "REFUNDED"
payment_status_name unknown = text "UNKNOWN"

abbrev pub invoice_status_name : InvoiceStatus → Text
invoice_status_name open_invoice = text "OPEN"
invoice_status_name paid = text "PAID"
invoice_status_name void = text "VOID"
invoice_status_name voided = text "VOIDED"
invoice_status_name overdue = text "OVERDUE"
invoice_status_name unknown = text "UNKNOWN"

abbrev pub payment_method_name : PaymentMethod → Text
payment_method_name bank_transfer = text "BANK_TRANSFER"
payment_method_name telebirr = text "TELEBIRR"
payment_method_name cash = text "CASH"
payment_method_name manual = text "MANUAL"
payment_method_name unknown = text "UNKNOWN"

pub record BillingFilters : Type 0 where
  pub school_id : Option Text
  pub parent_id : Option Text
  pub status : Option Text
  pub method : Option Text
  pub search : Option Text

pub record NormalizedSubscription : Type 0 where
  pub id : Text
  pub parent_id : Option Text
  pub parent_name : Option Text
  pub parent_email : Option Text
  pub school_id : Option Text
  pub school_name : Option Text
  pub child_id : Option Text
  pub child_name : Option Text
  pub status : SubscriptionStatus
  pub plan : Option Text
  pub starts_at : Option Text
  pub ends_at : Option Text
  pub days_remaining : Option ℕ
  pub playback_allowed : Option Bool
  pub created_at : Option Text
  pub updated_at : Option Text

pub record NormalizedPayment (N : Type 0) : Type 0 where
  pub id : Text
  pub parent_id : Option Text
  pub parent_name : Option Text
  pub parent_email : Option Text
  pub school_id : Option Text
  pub school_name : Option Text
  pub subscription_id : Option Text
  pub invoice_id : Option Text
  pub amount_cents : N
  pub currency : Text
  pub method : PaymentMethod
  pub status : PaymentStatus
  pub reference : Option Text
  pub notes : Option Text
  pub paid_at : Option Text
  pub approved_at : Option Text
  pub rejected_at : Option Text
  pub created_at : Option Text
  pub updated_at : Option Text

pub record NormalizedInvoice (N : Type 0) : Type 0 where
  pub id : Text
  pub invoice_number : Option Text
  pub parent_id : Option Text
  pub parent_name : Option Text
  pub parent_email : Option Text
  pub school_id : Option Text
  pub school_name : Option Text
  pub subscription_id : Option Text
  pub amount_cents : N
  pub currency : Text
  pub status : InvoiceStatus
  pub description : Option Text
  pub due_date : Option Text
  pub paid_at : Option Text
  pub voided_at : Option Text
  pub created_at : Option Text
  pub updated_at : Option Text

-- What the search of any of the three reads.
pub record BillingItem : Type 0 where
  pub parent_name : Option Text
  pub parent_email : Option Text
  pub school_name : Option Text
  pub reference : Option Text
  pub invoice_number : Option Text
  pub status : Option Text

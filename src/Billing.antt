-- ===== src/Billing.antt =====
-- The decisions of the billing function, supabase/functions/_shared/billing-logic.mjs, in three
-- parts: which charges to make, how a batch is settled, and with which payment method.
-- Amounts are integers; one that JavaScript reads as no number is `none`.
pub mod Charges
pub mod Settle
pub mod Method

-- ===== src/Stripe.antt =====
-- How a file's bytes are spread over devices and over object storage targets.
pub mod Raid0
pub mod Lov

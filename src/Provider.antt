-- ===== src/Provider.antt =====
-- The verifiers of provider/github and provider/stripe.
pub mod Github
pub mod Stripe
pub mod Laws

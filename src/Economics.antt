-- ===== src/Economics.antt =====
-- The economics plane (glc/economics and the ledger of glc/db.py).
pub mod Ledger
pub mod Pricing
pub mod Principals
pub mod Budget

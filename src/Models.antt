-- ===== src/Models.antt =====
-- The data that the parts exchange: pkg/models.
pub mod Order
pub mod Market

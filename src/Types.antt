-- ===== src/Types.antt =====
-- lib/types: the SQL values, their comparisons, their arithmetic and their bytes.
pub mod Word
pub mod Float
pub mod Value

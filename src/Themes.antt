-- ===== src/Themes.antt =====
-- internal/themes: themed collections, which show their artwork only while a rule is active.
pub mod Types
pub mod Calendar
pub mod Select
pub mod Members
pub mod Examples

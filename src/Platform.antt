-- ===== src/Platform.antt =====
-- What the services stand on: the database tables (src/apps/*/models.py), the cache, the task
-- queue and `transaction.atomic`.
pub mod Table
pub mod Order
pub mod Errors
pub mod Rows
pub mod World
pub mod Post

-- ===== src/Config.antt =====
-- Agent configuration: app/config/resolver.py and the profiles of app/config/schema.py. A layer is a
-- JSON object; `deep_merge` is in Merge, the cache of resolved configurations in Cache.
pub mod Merge
pub mod Cache
mod Examples

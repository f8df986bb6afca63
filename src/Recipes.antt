-- ===== src/Recipes.antt =====
-- src/domain/recipes: changes of recipe files.
pub mod Edits
pub mod Pieces
pub mod Replace
pub mod Readiness
pub mod Waiting
mod Tests

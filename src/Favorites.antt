-- ===== src/Favorites.antt =====
-- core/model/RegisterDefinition.h, app-lib/models/FavoritesModel.h and
-- app-lib/models/FavoritesModel.cpp: the list of pinned registers with their last values.
pub mod Entries
pub mod Operations
pub mod View
pub mod Keeping
pub mod Invariant
pub mod History
mod Tests

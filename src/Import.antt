-- ===== src/Import.antt =====
-- core/importer/TagRowParser.cpp, core/importer/CsvTagParser.cpp and app-lib/models/TagDatabaseModel.cpp:
-- reading tags, and the list of those read.
pub mod Rows
pub mod Csv
pub mod Database
pub mod Accounting
mod Tests

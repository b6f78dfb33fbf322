-- ===== src/Table/Rows/Insertion.antt =====
-- storage/tablefile.go: InsertRow where the last data page has room.
use xxldb.Value.{Value}
use xxldb.Page.{Page}

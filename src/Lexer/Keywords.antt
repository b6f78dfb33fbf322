-- ===== src/Lexer/Keywords.antt =====
-- parser/lexer.go: the SQL keywords.
use Prim.Native.Nat.{ℕ}
use mathlib.Core.List.{List, [], ◌∷◌}
use xxldb.Base.Text.{codes}

unfoldable pub keywords : List (List ℕ)
keywords =
    codes "CREATE"
    ∷ codes "DROP"
    ∷ codes "ALTER"
    ∷ codes "TABLE"
    ∷ codes "INDEX"
    ∷ codes "SELECT"
    ∷ codes "INSERT"
    ∷ codes "UPDATE"
    ∷ codes "DELETE"
    ∷ codes "INTO"
    ∷ codes "VALUES"
    ∷ codes "SET"
    ∷ codes "FROM"
    ∷ codes "WHERE"
    ∷ codes "AND"
    ∷ codes "OR"
    ∷ codes "NOT"
    ∷ codes "ORDER"
    ∷ codes "BY"
    ∷ codes "GROUP"
    ∷ codes "HAVING"
    ∷ codes "LIMIT"
    ∷ codes "OFFSET"
    ∷ codes "ASC"
    ∷ codes "DESC"
    ∷ codes "DISTINCT"
    ∷ codes "ALL"
    ∷ codes "JOIN"
    ∷ codes "INNER"
    ∷ codes "LEFT"
    ∷ codes "RIGHT"
    ∷ codes "OUTER"
    ∷ codes "CROSS"
    ∷ codes "ON"
    ∷ codes "USING"
    ∷ codes "UNION"
    ∷ codes "INTERSECT"
    ∷ codes "EXCEPT"
    ∷ codes "SEQ"
    ∷ codes "INT"
    ∷ codes "INTEGER"
    ∷ codes "BIGINT"
    ∷ codes "SMALLINT"
    ∷ codes "FLOAT"
    ∷ codes "DOUBLE"
    ∷ codes "DECIMAL"
    ∷ codes "NUMERIC"
    ∷ codes "CHAR"
    ∷ codes "CHARACTER"
    ∷ codes "VARCHAR"
    ∷ codes "TEXT"
    ∷ codes "CLOB"
    ∷ codes "DATE"
    ∷ codes "TIME"
    ∷ codes "DATETIME"
    ∷ codes "TIMESTAMP"
    ∷ codes "BLOB"
    ∷ codes "BINARY"
    ∷ codes "FILE"
    ∷ codes "BOOLEAN"
    ∷ codes "BOOL"
    ∷ codes "PRIMARY"
    ∷ codes "KEY"
    ∷ codes "FOREIGN"
    ∷ codes "REFERENCES"
    ∷ codes "UNIQUE"
    ∷ codes "NULL"
    ∷ codes "DEFAULT"
    ∷ codes "CHECK"
    ∷ codes "CONSTRAINT"
    ∷ codes "AUTO_INCREMENT"
    ∷ codes "AUTOINCREMENT"
    ∷ codes "AS"
    ∷ codes "IN"
    ∷ codes "BETWEEN"
    ∷ codes "LIKE"
    ∷ codes "IS"
    ∷ codes "EXISTS"
    ∷ codes "CASE"
    ∷ codes "WHEN"
    ∷ codes "THEN"
    ∷ codes "ELSE"
    ∷ codes "END"
    ∷ codes "IF"
    ∷ codes "NULLIF"
    ∷ codes "COALESCE"
    ∷ codes "TRUE"
    ∷ codes "FALSE"
    ∷ codes "SHOW"
    ∷ codes "TABLES"
    ∷ codes "DATABASES"
    ∷ codes "COLUMNS"
    ∷ codes "DESCRIBE"
    ∷ codes "FULL"
    ∷ codes "VARIABLES"
    ∷ codes "STATUS"
    ∷ codes "WARNINGS"
    ∷ codes "GRANTS"
    ∷ codes "PROCESSLIST"
    ∷ codes "INDEXES"
    ∷ codes "GLOBAL"
    ∷ codes "SESSION"
    ∷ codes "FUNCTION"
    ∷ codes "PROCEDURE"
    ∷ codes "TRIGGERS"
    ∷ codes "TRIGGER"
    ∷ codes "COLLATION"
    ∷ codes "OPEN"
    ∷ codes "EVENTS"
    ∷ codes "EVENT"
    ∷ codes "ENGINES"
    ∷ codes "ENGINE"
    ∷ codes "KEYS"
    ∷ codes "USE"
    ∷ codes "DATABASE"
    ∷ codes "SCHEMA"
    ∷ codes "LOAD"
    ∷ codes "OUTFILE"
    ∷ codes "FOLDER"
    ∷ codes "BACKUP"
    ∷ codes "RESTORE"
    ∷ codes "USER"
    ∷ codes "PASSWORD"
    ∷ codes "LOG"
    ∷ codes "LEVEL"
    ∷ codes "BEGIN"
    ∷ codes "COMMIT"
    ∷ codes "ROLLBACK"
    ∷ codes "TRANSACTION"
    ∷ codes "START"
    ∷ codes "FULLTEXT"
    ∷ codes "MATCH"
    ∷ codes "AGAINST"
    ∷ codes "WITH"
    ∷ []

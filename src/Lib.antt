-- ===== src/Lib.antt =====
-- xxldb, a relational database in Go: verification of its storage, its SQL and its MySQL protocol.
--
-- The program keeps tables in files of 16 KB pages, encodes rows into the pages, caches pages, logs
-- changes, encrypts files, and speaks SQL and the MySQL protocol. The modules follow its files:
--
--   Value        types/types.go: data types, values, their conversions and Compare
--   Row          storage/page.go, "Row encoding": EncodeRow, DecodeRow, EstimateRowSize
--   Page         storage/page.go: PageV2, its bytes, checksum, cell pointers and rows
--   Cipher       storage/crypto/crypto.go: the TXDEF cipher on slices and streams
--   Cache        storage/pagecache.go: the LRU cache of pages
--   Table        storage/tablefile.go: pages read and written through the cache, InsertRow
--   Wal          storage/wal.go: writeWAL and ReadAll on the bytes of the log
--   Protocol     mysql/protocol.go: packets, length-encoded data, numbers and the server's packets
--   Auth         auth/auth.go: the credentials, with SET USER and SET PASSWORD of
--                executor/executor_dml.go
--   Handshake    mysql/server.go, handleAuth and the password checks: how a connection is let in
--   Prepared     mysql/server.go: prepared statements and the parameters put into their text
--   Lexer        parser/lexer.go: the tokens of SQL, from the bytes of a statement
--   Parser       parser/parser.go, parser_dml.go and ast.go: the statements, from the tokens
--   Executor     executor/executor.go: expressions on rows, and the rows of a SELECT of one table
--   Store        storage/storage.go, delete_callback.go and update_callback.go: tables, row ids,
--                sequences, and rows in memory or in table files
--
-- A function of the program keeps its name in snake_case, and a method takes its receiver first (a
-- Method of Table takes the whole state last). What changes its receiver returns the new one. An
-- error is a value of the module's Error, and a run-time panic (an index or a slice out of range)
-- is a result of its own, so that a theorem can say that there is none. Machine integers are
-- natural numbers with their wrap-around written out; an int64 or a float64 in a row is its bit
-- pattern. Float conversions, fmt.Sprintf("%v") and CRC-32 are fields of Runtime, a parameter. The
-- content of a page is a function of the offset.
--
-- A table (Table) reads and writes its pages through a cache (Cache) that all tables of a Storage
-- share; a page holds cells (Page), and a cell is an encoded row (Row) of values (Value). Cipher
-- and Protocol stand apart: the log and the files are encrypted with the one, and the server writes
-- its answers with the other. The server's login (Handshake) checks a response against the hashes
-- that Auth keeps. The hash functions are parameters, so that the theorems hold for any.
--
-- The loops of the lexer are rounds (Base.Loop) run on one more than the bytes that are left: a
-- round that goes on takes a byte at least. The parser's loops run on one more than the tokens
-- that are left, and its recursion on two calls for each token and two more: a call of parseSelect
-- may call parseExpression on the same tokens, and no other nested call keeps them all. Fuel
-- bounds four more loops: the evictions of the cache (one more than the length of its LRU list,
-- since an eviction shortens it), the chunks of a large packet (the length of the data, since a
-- chunk takes a byte at least), the digits of a number (twenty, enough for 64 bits) and the
-- records of the log (one more than its bytes, since a record takes 16 at least).
--
-- The executor evaluates the trees of the parser on rows of values (Executor, Value.Convert). What it
-- takes from Go's float64, strconv, time and fmt is a field of Library; the scalar functions, the
-- system variables and MATCH are fields of Engine, so that the theorems hold for any.
--
-- Store has the tables of a Storage by name, each map of Go as a list of pairs (Base.Assoc), in one
-- run that begins with no table. Of a table file it has the rows that GetRows reads in it, and what
-- an insertion or a truncation makes of these, in all files since they share a cache, is a parameter
-- (TableFiles): the pages of a file, and the cache, are in Table.
--
-- Not modelled: locks (each operation is one step), the file systems, write errors, the replay of
-- the log, the metadata file, large blobs and the migration in the storage engine, the
-- printing of SQL trees, groups, aggregates and the statements other than SELECT in the executor,
-- the scalar functions, full-text search, the server's results and information schema, TLS and
-- RSA, import, scripts and logging.
pub mod Base
pub mod Value
pub mod Row
pub mod Page
pub mod Cipher
pub mod Protocol
pub mod Cache
pub mod Table
pub mod Wal
pub mod Lexer
pub mod Auth
pub mod Handshake
pub mod Parser
pub mod Prepared
pub mod Executor
pub mod Store

-- ===== src/Prepared/Sessions.antt =====
-- mysql/server.go: the prepared statements of a client, from COM_STMT_PREPARE to COM_STMT_CLOSE.
use xxldb.Base.{
  ℕ, ◌+◌, ◌%◌, ◌^◌, ◌≤◌, ◌≡◌, refl, false, ◌&&◌, none, some, List, [], ◌∷◌, err, if◌then◌else◌, ltb,
  leb, ◌==◌, length, arith, replicate,
}
use xxldb.Base.Words.{le_value}
use xxldb.Prepared.{
  Statement, Statements, find_statement, remove_statement, count_marks, handle_prepare,
  handle_close, handle_execute, execute_statement, unknown_statement,
}

find_statement-remove_statement :
    (j id : ℕ) (es : Statements)
    → find_statement j (remove_statement id es) ≡ (if j == id then none else find_statement j es)
unfolding find_statement remove_statement
find_statement-remove_statement j id [] = ground arith
find_statement-remove_statement j id (e ∷ es) =
    ground (arith, find_statement-remove_statement j id es)

abbrev pub prepared : List ℕ → Statement
prepared query = record {
  query = query;
  num_params = count_marks query;
  types = replicate (count_marks query) 0;
}

-- The statements are a map by their ids: handleStmtPrepare sets the next id, handleStmtClose, on a
-- packet of four bytes at least, removes the id that it holds, and neither changes another id.
pub find_statement_lem :
    (counter : ℕ) (es : Statements) (query bytes : List ℕ) (j : ℕ)
    → (find_statement j (handle_prepare counter es query).1
        ≡ (if j == (counter + 1) % 2 ^ 32 then some (prepared query) else find_statement j es))
      × (find_statement j (handle_close es bytes)
          ≡ (if leb 4 (length bytes) && j == le_value 4 bytes then none else find_statement j es))
unfolding find_statement handle_prepare handle_close
find_statement_lem counter es query bytes j =
    (ground arith, ground (arith, find_statement-remove_statement j (le_value 4 bytes) es))

-- A statement that was closed is unknown: handleStmtExecute answers its id, in a packet of nine bytes
-- at least, with an error.
handle_execute-handle_close :
    (format_float : ℕ → List ℕ) (es : Statements) (bytes packet : List ℕ)
    → 4 ≤ length bytes
    → 9 ≤ length packet
    → le_value 4 packet ≡ le_value 4 bytes
    → handle_execute format_float (handle_close es bytes) packet
      ≡ err (unknown_statement (le_value 4 packet))
unfolding handle_execute execute_statement
handle_execute-handle_close format_float es bytes packet h k same =
    let long : ltb (length packet) 9 ≡ false = ground (arith, k) in
    let gone : find_statement (le_value 4 packet) (handle_close es bytes) ≡ none =
      ground (arith, (find_statement_lem 0 es [] bytes (le_value 4 packet)).1, h, same) in
    rw (long, gone) refl

-- ===== src/Http/Stream.antt =====
-- src/sql_handlers.cpp: the chunked provider of a streamed /sql response, `EmitStreamingErrorSafe` and
-- `WriteOneLine`. The lines of the encoder stand for what they say.
pub mod Shape
pub mod Rows
use duckdb_flock.Base.{
  ℕ, zero, suc, ◌+◌, ◌-◌, ◌%◌, ◌^◌, Bool, true, false, not, ◌&&◌, ◌||◌, List, [], ◌∷◌, ◌++◌, Bytes,
  codes, ltb, ◌==◌, if◌then◌else◌, replicate,
}
use duckdb_flock.Duckdb.{StringUtil}
use duckdb_flock.Session.{InterruptCause, no_cause, timeout, user_cancel, disconnect}
use duckdb_flock.Http.Sql.{classify_error}

-- What is handed to the sink: the records of the NDJSON protocol. In chunk mode one line has all rows
-- of a chunk.
pub data Line : Type 0 where
  schema_line row_line : Line
  chunk_line : ℕ → Line
  end_line : ℕ → Bool → Line
  error_line : Bytes → Bytes → Line

-- The fields of `StreamingCtx` that the provider reads and writes.
pub record StreamingCtx : Type 0 where
  pub row_count : ℕ
  pub max_rows : ℕ
  pub truncated : Bool
  pub schema_emitted : Bool
  pub end_emitted : Bool
  pub error_emitted : Bool
  pub chunk_mode : Bool

unfoldable pub new_ctx : ℕ → Bool → StreamingCtx
new_ctx max_rows chunk_mode = record {
  row_count = 0;
  max_rows = max_rows;
  truncated = false;
  schema_emitted = false;
  end_emitted = false;
  error_emitted = false;
  chunk_mode = chunk_mode;
}

-- What `Fetch` gives: the text of an exception, or a chunk of so many rows. No chunk is one of none.
pub data Fetched : Type 0 where
  threw : Bytes → Fetched
  chunk : ℕ → Fetched

-- What a call of the provider meets: the fetch, the cause of an interrupt that is seen, whether the
-- encoder writes its lines or throws `what`, and whether the sink takes them.
pub record Turn : Type 0 where
  pub fetched : Fetched
  pub cause : InterruptCause
  pub encodes_schema : Bool
  pub encodes_rows : Bool
  pub encodes_end : Bool
  pub encodes_error : Bool
  pub what : Bytes
  pub written : Bool

-- How a call ends: whether the provider wants to be called again, and the lines it wrote.
pub record Step : Type 0 where
  pub go : Bool
  pub ctx : StreamingCtx
  pub lines : List Line

abbrev stop : StreamingCtx → List Line → Step
stop ctx lines = record { go = false; ctx = ctx; lines = lines }

-- `EmitStreamingErrorSafe`, behind the lines that are out already.
unfoldable pub emit_streaming_error_safe : List Line → StreamingCtx → Turn → Bytes → Bytes → Step
emit_streaming_error_safe lines ctx t error_code message =
    stop (record ctx { error_emitted = true })
      (lines ++ (if t.encodes_error then error_line error_code message ∷ [] else []))

-- The two `catch` blocks, which do the same, at the cause that is seen.
unfoldable pub catch_cause :
    StringUtil → List Line → StreamingCtx → Turn → Bytes → InterruptCause → Step
unfolding emit_streaming_error_safe classify_error
catch_cause u lines ctx t what timeout =
    emit_streaming_error_safe lines ctx t (codes "QUERY_TIMEOUT")
      (codes "query exceeded harbor_query_timeout_s")
catch_cause u lines ctx t what user_cancel =
    emit_streaming_error_safe lines ctx t (codes "QUERY_CANCELLED")
      (codes "query was cancelled by /sql/cancel or /interrupt")
catch_cause u lines ctx t what _ =
    emit_streaming_error_safe lines ctx t (classify_error u what) what

unfoldable pub catch_exception : StringUtil → List Line → StreamingCtx → Turn → Bytes → Step
unfolding catch_cause
catch_exception u lines ctx t what = catch_cause u lines ctx t what t.cause

-- `EmitEnd`, in the `try`.
unfoldable pub emit_end : StringUtil → List Line → StreamingCtx → Turn → Bool → Step
unfolding catch_exception
emit_end u lines ctx t truncated =
    if t.encodes_end
    then stop (record ctx { end_emitted = true }) (lines ++ end_line ctx.row_count truncated ∷ [])
    else catch_exception u lines ctx t t.what

-- An empty chunk is the end of the result, or an interrupt.
unfoldable pub end_cause : StringUtil → StreamingCtx → Turn → InterruptCause → Step
unfolding emit_streaming_error_safe emit_end
end_cause u ctx t timeout =
    emit_streaming_error_safe [] ctx t (codes "QUERY_TIMEOUT")
      (codes "query exceeded harbor_query_timeout_s")
end_cause u ctx t user_cancel =
    emit_streaming_error_safe [] ctx t (codes "QUERY_CANCELLED")
      (codes "query was cancelled by /sql/cancel or /interrupt")
end_cause u ctx t disconnect = stop ctx []
end_cause u ctx t no_cause = emit_end u [] ctx t ctx.truncated

unfoldable pub end_of_result : StringUtil → StreamingCtx → Turn → Step
unfolding end_cause
end_of_result u ctx t = end_cause u ctx t t.cause

unfoldable pub is_over : StreamingCtx → ℕ → Bool
is_over ctx size = ltb 0 ctx.max_rows && ltb ctx.max_rows ((ctx.row_count + size) % 2 ^ 64)

-- The rows that are written of a chunk, an `idx_t`.
unfoldable pub emit_size : StreamingCtx → ℕ → ℕ
unfolding is_over
emit_size ctx size =
    if is_over ctx size then (2 ^ 64 + ctx.max_rows - ctx.row_count) % 2 ^ 64 else size

unfoldable pub data_lines : Bool → ℕ → List Line
data_lines true size = chunk_line size ∷ []
data_lines false size = replicate size row_line

-- Behind the write of the rows of a chunk.
unfoldable pub after_rows : StringUtil → List Line → StreamingCtx → Turn → Step
unfolding emit_end
after_rows u lines ctx t =
    if ctx.truncated
    then emit_end u lines ctx t true
    else record { go = true; ctx = ctx; lines = lines }

unfoldable pub emit_rows : StringUtil → StreamingCtx → Turn → ℕ → Step
unfolding is_over emit_size data_lines after_rows
emit_rows u ctx t size =
    let n = emit_size ctx size in
    let capped = record ctx { truncated = is_over ctx size || ctx.truncated } in
    let lines = data_lines ctx.chunk_mode n in
    if not t.encodes_rows
    then catch_exception u [] capped t t.what
    else if not t.written
    then stop capped lines
    else after_rows u lines (record capped { row_count = (ctx.row_count + n) % 2 ^ 64 }) t

unfoldable pub fetch_rows : StringUtil → StreamingCtx → Turn → Fetched → Step
unfolding catch_exception end_of_result emit_rows
fetch_rows u ctx t (threw what) = catch_exception u [] ctx t what
fetch_rows u ctx t (chunk zero) = end_of_result u ctx t
fetch_rows u ctx t (chunk (suc n)) = emit_rows u ctx t (suc n)

-- One call of the provider.
unfoldable pub provide : StringUtil → StreamingCtx → Turn → Step
unfolding fetch_rows
provide u ctx t =
    if not ctx.schema_emitted
    then (if t.encodes_schema
        then record {
          go = t.written;
          ctx = record ctx { schema_emitted = t.written };
          lines = schema_line ∷ [];
        }
        else catch_exception u [] ctx t t.what)
    else if not ctx.end_emitted && not ctx.error_emitted
    then fetch_rows u ctx t t.fetched
    else stop ctx []

-- The calls of httplib, up to the one that ends the stream: all lines.
unfoldable pub stream : StringUtil → StreamingCtx → List Turn → List Line
unfolding provide
stream u ctx [] = []
stream u ctx (t ∷ turns) =
    let s = provide u ctx t in
    let later = stream u s.ctx turns in if s.go then s.lines ++ later else s.lines

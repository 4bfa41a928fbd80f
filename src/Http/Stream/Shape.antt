-- ===== src/Http/Stream/Shape.antt =====
-- The order of the lines of a stream, and what an end record says.
use duckdb_flock.Base.{
  ℕ, zero, suc, ◌+◌, ◌%◌, ◌^◌, ◌||◌, ◌≡◌, refl, Bool, true, false, not, ◌&&◌, List, [], ◌∷◌, ◌++◌,
  Bytes, if◌then◌else◌, arith, Bool-cases, inl, inr,
}
use duckdb_flock.Duckdb.{StringUtil}
use duckdb_flock.Session.{InterruptCause, no_cause, timeout, user_cancel, disconnect}
use duckdb_flock.Http.Stream.{
  Line, schema_line, row_line, chunk_line, end_line, error_line, StreamingCtx, new_ctx, Fetched,
  threw, chunk, Turn, Step, emit_streaming_error_safe, catch_cause, catch_exception, emit_end,
  end_cause, end_of_result, is_over, emit_size, data_lines, after_rows, emit_rows, fetch_rows,
  provide, stream,
}

-- Rows, and at most one record behind them, which ends the list.
abbrev pub IsTail : List Line → Type 0
IsTail [] = Unit
IsTail (row_line ∷ lines) = IsTail lines
IsTail (chunk_line n ∷ lines) = IsTail lines
IsTail (end_line n truncated ∷ lines) = lines ≡ []
IsTail (error_line code message ∷ lines) = lines ≡ []
IsTail (schema_line ∷ lines) = ⊥

-- The protocol: the schema, rows, and one record that ends the stream; or an error at once.
abbrev pub IsProtocol : List Line → Type 0
IsProtocol [] = Unit
IsProtocol (schema_line ∷ lines) = IsTail lines
IsProtocol (error_line code message ∷ lines) = lines ≡ []
IsProtocol (row_line ∷ lines) = ⊥
IsProtocol (chunk_line n ∷ lines) = ⊥
IsProtocol (end_line n truncated ∷ lines) = ⊥

-- Rows only.
abbrev IsRows : List Line → Type 0
IsRows [] = Unit
IsRows (row_line ∷ lines) = IsRows lines
IsRows (chunk_line n ∷ lines) = IsRows lines
IsRows (_ ∷ lines) = ⊥

IsTail-append : (lines more : List Line) → IsRows lines → IsTail more → IsTail (lines ++ more)
IsTail-append [] more h k = k
IsTail-append (row_line ∷ lines) more h k = IsTail-append lines more h k
IsTail-append (chunk_line n ∷ lines) more h k = IsTail-append lines more h k
IsTail-append (end_line n t ∷ lines) more h k = absurd h
IsTail-append (error_line c m ∷ lines) more h k = absurd h
IsTail-append (schema_line ∷ lines) more h k = absurd h

IsRows-IsTail : (lines : List Line) → IsRows lines → IsTail lines
IsRows-IsTail [] h = tt
IsRows-IsTail (row_line ∷ lines) h = IsRows-IsTail lines h
IsRows-IsTail (chunk_line n ∷ lines) h = IsRows-IsTail lines h
IsRows-IsTail (end_line n t ∷ lines) h = absurd h
IsRows-IsTail (error_line c m ∷ lines) h = absurd h
IsRows-IsTail (schema_line ∷ lines) h = absurd h

data_lines-IsRows : (mode : Bool) (n : ℕ) → IsRows (data_lines mode n)
unfolding data_lines
data_lines-IsRows true n = tt
data_lines-IsRows false zero = tt
data_lines-IsRows false (suc n) = data_lines-IsRows false n

-- A call that goes on wrote rows, and still may; one that does not ended the list.
abbrev Goes : Step → Type 0
Goes s = (s.go ≡ true → IsRows s.lines × (s.ctx.schema_emitted ≡ true)) × IsTail s.lines

-- A property of the branches is one of the test.
pub either :
    (Q : Step → Type 0) (b : Bool) (x y : Step)
    → (b ≡ true → Q x)
    → (b ≡ false → Q y)
    → Q (if b then x else y)
either Q true x y h k = h refl
either Q false x y h k = k refl

emit_streaming_error_safe-Goes :
    (lines : List Line) (ctx : StreamingCtx) (t : Turn) (c m : Bytes)
    → IsRows lines
    → Goes (emit_streaming_error_safe lines ctx t c m)
unfolding emit_streaming_error_safe
emit_streaming_error_safe-Goes lines ctx t c m h = (
  (λ g. cc),
  elim (Bool-cases t.encodes_error) [
    | inl e ↦ rw e (IsTail-append lines _ h refl)
    | inr e ↦ rw e (IsTail-append lines _ h tt)
  ],
)

catch_cause-Goes :
    (u : StringUtil) (lines : List Line) (ctx : StreamingCtx) (t : Turn) (what : Bytes)
    (c : InterruptCause)
    → IsRows lines
    → Goes (catch_cause u lines ctx t what c)
unfolding catch_cause
catch_cause-Goes u lines ctx t what timeout h = emit_streaming_error_safe-Goes lines ctx t _ _ h
catch_cause-Goes u lines ctx t what user_cancel h = emit_streaming_error_safe-Goes lines ctx t _ _ h
catch_cause-Goes u lines ctx t what disconnect h = emit_streaming_error_safe-Goes lines ctx t _ _ h
catch_cause-Goes u lines ctx t what no_cause h = emit_streaming_error_safe-Goes lines ctx t _ _ h

catch_exception-Goes :
    (u : StringUtil) (lines : List Line) (ctx : StreamingCtx) (t : Turn) (what : Bytes)
    → IsRows lines
    → Goes (catch_exception u lines ctx t what)
unfolding catch_exception
catch_exception-Goes u lines ctx t what h = catch_cause-Goes u lines ctx t what t.cause h

emit_end-Goes :
    (u : StringUtil) (lines : List Line) (ctx : StreamingCtx) (t : Turn) (b : Bool)
    → IsRows lines
    → Goes (emit_end u lines ctx t b)
unfolding emit_end
emit_end-Goes u lines ctx t b h = elim (Bool-cases t.encodes_end) [
  | inl e ↦ rw e ((λ g. cc), IsTail-append lines _ h refl)
  | inr e ↦ rw e (catch_exception-Goes u lines ctx t t.what h)
]

end_cause-Goes :
    (u : StringUtil) (ctx : StreamingCtx) (t : Turn) (c : InterruptCause)
    → Goes (end_cause u ctx t c)
unfolding end_cause
end_cause-Goes u ctx t timeout = emit_streaming_error_safe-Goes [] ctx t _ _ tt
end_cause-Goes u ctx t user_cancel = emit_streaming_error_safe-Goes [] ctx t _ _ tt
end_cause-Goes u ctx t disconnect = ((λ g. cc), tt)
end_cause-Goes u ctx t no_cause = emit_end-Goes u [] ctx t ctx.truncated tt

after_rows-Goes :
    (u : StringUtil) (lines : List Line) (ctx : StreamingCtx) (t : Turn)
    → IsRows lines
    → ctx.schema_emitted ≡ true
    → Goes (after_rows u lines ctx t)
unfolding after_rows
after_rows-Goes u lines ctx t h k =
    either Goes ctx.truncated _ _ (λ _. emit_end-Goes u lines ctx t true h)
      (λ _. ((λ g. (h, k)), IsRows-IsTail lines h))

emit_rows-Goes :
    (u : StringUtil) (ctx : StreamingCtx) (t : Turn) (size : ℕ)
    → ctx.schema_emitted ≡ true
    → Goes (emit_rows u ctx t size)
unfolding emit_rows
emit_rows-Goes u ctx t size k =
    let n = emit_size ctx size in
    let lines = data_lines ctx.chunk_mode n in
    let rows = data_lines-IsRows ctx.chunk_mode n in
    let capped = record ctx { truncated = is_over ctx size || ctx.truncated } in
    elim (Bool-cases t.encodes_rows) [
      | inr e ↦ rw e (catch_exception-Goes u [] capped t t.what tt)
      | inl e ↦ elim (Bool-cases t.written) [
        | inr w ↦ rw (e, w) ((λ g. cc), IsRows-IsTail lines rows)
        | inl w ↦
            rw (e, w)
              (after_rows-Goes u lines (record capped { row_count = (ctx.row_count + n) % 2 ^ 64 })
                t rows k)
      ]
    ]

fetch_rows-Goes :
    (u : StringUtil) (ctx : StreamingCtx) (t : Turn) (f : Fetched)
    → ctx.schema_emitted ≡ true
    → Goes (fetch_rows u ctx t f)
unfolding fetch_rows end_of_result
fetch_rows-Goes u ctx t (threw what) k = catch_exception-Goes u [] ctx t what tt
fetch_rows-Goes u ctx t (chunk zero) k = end_cause-Goes u ctx t t.cause
fetch_rows-Goes u ctx t (chunk (suc n)) k = emit_rows-Goes u ctx t (suc n) k

provide-Goes :
    (u : StringUtil) (ctx : StreamingCtx) (t : Turn)
    → ctx.schema_emitted ≡ true
    → Goes (provide u ctx t)
unfolding provide
provide-Goes u ctx t k =
    either Goes (not ctx.schema_emitted) _ _ (λ e. absurd (ground arith))
      (λ _.
        either Goes (not ctx.end_emitted && not ctx.error_emitted) _ _
          (λ _. fetch_rows-Goes u ctx t t.fetched k) (λ _. ((λ g. cc), tt)))

stream-IsTail :
    (u : StringUtil) (ctx : StreamingCtx) (turns : List Turn)
    → ctx.schema_emitted ≡ true
    → IsTail (stream u ctx turns)
unfolding stream
stream-IsTail u ctx [] k = tt
stream-IsTail u ctx (t ∷ turns) k =
    let s = provide u ctx t in
    let (goes, ends) = provide-Goes u ctx t k in
    elim (Bool-cases s.go) [
      | inl e ↦
          let (rows, again) = goes e in
          rw e (IsTail-append s.lines _ rows (stream-IsTail u s.ctx turns again))
      | inr e ↦ rw e ends
    ]

-- The lines from a call on.
abbrev lines_from : StringUtil → List Turn → Step → List Line
lines_from u turns s = if s.go then s.lines ++ stream u s.ctx turns else s.lines

error_alone :
    (u : StringUtil) (ctx : StreamingCtx) (t : Turn) (turns : List Turn) (c m : Bytes)
    → IsProtocol (lines_from u turns (emit_streaming_error_safe [] ctx t c m))
unfolding emit_streaming_error_safe
error_alone u ctx t turns c m = elim (Bool-cases t.encodes_error) [
  | inl e ↦ rw e refl
  | inr e ↦ rw e tt
]

no_schema :
    (u : StringUtil) (ctx : StreamingCtx) (t : Turn) (turns : List Turn) (c : InterruptCause)
    → IsProtocol (lines_from u turns (catch_cause u [] ctx t t.what c))
unfolding catch_cause
no_schema u ctx t turns timeout = error_alone u ctx t turns _ _
no_schema u ctx t turns user_cancel = error_alone u ctx t turns _ _
no_schema u ctx t turns disconnect = error_alone u ctx t turns _ _
no_schema u ctx t turns no_cause = error_alone u ctx t turns _ _

schema_first :
    (u : StringUtil) (ctx : StreamingCtx) (turns : List Turn) (written : Bool)
    → IsProtocol (
        lines_from u turns (record {
          go = written;
          ctx = record ctx { schema_emitted = written };
          lines = schema_line ∷ [];
        }))
schema_first u ctx turns true = stream-IsTail u (record ctx { schema_emitted = true }) turns refl
schema_first u ctx turns false = tt

-- Whatever happens at the calls, the lines of a response are the schema, rows, and behind them at most
-- one record, of the end or of an error, with nothing behind it; or they are an error alone.
pub stream-IsProtocol :
    (u : StringUtil) (max_rows : ℕ) (chunk_mode : Bool) (turns : List Turn)
    → IsProtocol (stream u (new_ctx max_rows chunk_mode) turns)
unfolding stream provide new_ctx catch_exception
stream-IsProtocol u max_rows chunk_mode [] = tt
stream-IsProtocol u max_rows chunk_mode (t ∷ turns) =
    let ctx = new_ctx max_rows chunk_mode in
    either (λ s. IsProtocol (lines_from u turns s)) t.encodes_schema _ _
      (λ _. schema_first u ctx turns t.written) (λ _. no_schema u ctx t turns t.cause)

-- ===== src/Http/Stream/Rows.antt =====
-- How many rows a stream has, and what its end record says of them.
use duckdb_flock.Base.{
  ℕ, zero, suc, ◌+◌, ◌-◌, ◌%◌, ◌^◌, ◌≤◌, ◌<◌, ◌≡◌, refl, Bool, true, false, not, ◌&&◌, ◌||◌, List,
  [], ◌∷◌, ◌++◌, Bytes, arith, Bool-cases, inl, inr, All,
}
use mathlib.Core.Path.{subst}
use duckdb_flock.Duckdb.{StringUtil}
use duckdb_flock.Session.{InterruptCause, no_cause, timeout, user_cancel, disconnect}
use duckdb_flock.Http.Stream.{
  Line, schema_line, row_line, chunk_line, end_line, error_line, StreamingCtx, new_ctx, Fetched,
  threw, chunk, Turn, Step, emit_streaming_error_safe, catch_cause, catch_exception, emit_end,
  end_cause, end_of_result, is_over, emit_size, data_lines, after_rows, emit_rows, fetch_rows,
  provide, stream,
}
use duckdb_flock.Http.Stream.Shape.{either}

abbrev pub rows_in : List Line → ℕ
rows_in [] = 0
rows_in (row_line ∷ lines) = suc (rows_in lines)
rows_in (chunk_line n ∷ lines) = n + rows_in lines
rows_in (_ ∷ lines) = rows_in lines

-- Every end record has the number of rows in front of it, and of those that the count starts from.
abbrev pub Counts : ℕ → List Line → Type 0
Counts n [] = Unit
Counts n (row_line ∷ lines) = Counts (suc n) lines
Counts n (chunk_line k ∷ lines) = Counts (n + k) lines
Counts n (end_line c truncated ∷ lines) = (c ≡ n) × Counts n lines
Counts n (error_line c m ∷ lines) = Counts n lines
Counts n (schema_line ∷ lines) = Counts n lines

rows_in-append : (lines more : List Line) → rows_in (lines ++ more) ≡ rows_in lines + rows_in more
rows_in-append [] more = omega arith
rows_in-append (row_line ∷ lines) more = omega (arith, rows_in-append lines more)
rows_in-append (chunk_line n ∷ lines) more = omega (arith, rows_in-append lines more)
rows_in-append (end_line n t ∷ lines) more = rows_in-append lines more
rows_in-append (error_line c m ∷ lines) more = rows_in-append lines more
rows_in-append (schema_line ∷ lines) more = rows_in-append lines more

Counts-append :
    (n : ℕ) (lines more : List Line)
    → Counts n lines
    → Counts (n + rows_in lines) more
    → Counts n (lines ++ more)
Counts-append n [] more h k = subst (λ m. Counts m more) (omega arith) k
Counts-append n (row_line ∷ lines) more h k =
    Counts-append (suc n) lines more h (subst (λ m. Counts m more) (omega arith) k)
Counts-append n (chunk_line c ∷ lines) more h k =
    Counts-append (n + c) lines more h (subst (λ m. Counts m more) (omega arith) k)
Counts-append n (end_line c t ∷ lines) more h k = (h.0, Counts-append n lines more h.1 k)
Counts-append n (error_line c m ∷ lines) more h k = Counts-append n lines more h k
Counts-append n (schema_line ∷ lines) more h k = Counts-append n lines more h k

data_lines-rows : (mode : Bool) (n : ℕ) → rows_in (data_lines mode n) ≡ n
unfolding data_lines
data_lines-rows true n = omega arith
data_lines-rows false zero = refl
data_lines-rows false (suc n) = omega (arith, data_lines-rows false n)

data_lines-Counts : (mode : Bool) (n start : ℕ) → Counts start (data_lines mode n)
unfolding data_lines
data_lines-Counts true n start = tt
data_lines-Counts false zero start = tt
data_lines-Counts false (suc n) start = data_lines-Counts false n (suc start)

-- The count before a call, and the rows and the count after it, with the cap.
abbrev IsCapped : ℕ → ℕ → Step → Type 0
IsCapped start cap s =
    (start + rows_in s.lines ≤ cap)
    × Counts start s.lines
    × (s.go ≡ true → (s.ctx.row_count ≡ start + rows_in s.lines) × (s.ctx.max_rows ≡ cap))

-- Lines that go before what a call writes, of rows within the cap.
abbrev Behind : ℕ → ℕ → List Line → Type 0
Behind start cap lines = (start + rows_in lines ≤ cap) × Counts start lines

emit_streaming_error_safe-IsCapped :
    (start cap : ℕ) (lines : List Line) (ctx : StreamingCtx) (t : Turn) (c m : Bytes)
    → Behind start cap lines
    → IsCapped start cap (emit_streaming_error_safe lines ctx t c m)
unfolding emit_streaming_error_safe
emit_streaming_error_safe-IsCapped start cap lines ctx t c m h = elim (Bool-cases t.encodes_error) [
  | inl e ↦ rw e (
    omega (arith, rows_in-append lines (error_line c m ∷ []), h.0),
    Counts-append start lines (error_line c m ∷ []) h.1 tt,
    λ g. cc,
  )
  | inr e ↦
      rw e
        (omega (arith, rows_in-append lines [], h.0), Counts-append start lines [] h.1 tt, λ g. cc)
]

catch_cause-IsCapped :
    (u : StringUtil) (start cap : ℕ) (lines : List Line) (ctx : StreamingCtx) (t : Turn)
    (what : Bytes) (c : InterruptCause)
    → Behind start cap lines
    → IsCapped start cap (catch_cause u lines ctx t what c)
unfolding catch_cause
catch_cause-IsCapped u start cap lines ctx t what timeout h =
    emit_streaming_error_safe-IsCapped start cap lines ctx t _ _ h
catch_cause-IsCapped u start cap lines ctx t what user_cancel h =
    emit_streaming_error_safe-IsCapped start cap lines ctx t _ _ h
catch_cause-IsCapped u start cap lines ctx t what disconnect h =
    emit_streaming_error_safe-IsCapped start cap lines ctx t _ _ h
catch_cause-IsCapped u start cap lines ctx t what no_cause h =
    emit_streaming_error_safe-IsCapped start cap lines ctx t _ _ h

emit_end-IsCapped :
    (u : StringUtil) (start cap : ℕ) (lines : List Line) (ctx : StreamingCtx) (t : Turn) (b : Bool)
    → Behind start cap lines
    → ctx.row_count ≡ start + rows_in lines
    → IsCapped start cap (emit_end u lines ctx t b)
unfolding emit_end catch_exception
emit_end-IsCapped u start cap lines ctx t b h k =
    let written : List Line = end_line ctx.row_count b ∷ [] in
    either (IsCapped start cap) t.encodes_end _ _
      (λ _. (
        omega (arith, rows_in-append lines written, h.0),
        Counts-append start lines written h.1 (k, tt),
        λ g. cc,
      ))
      (λ _. catch_cause-IsCapped u start cap lines ctx t t.what t.cause h)

end_cause-IsCapped :
    (u : StringUtil) (ctx : StreamingCtx) (t : Turn) (c : InterruptCause)
    → ctx.row_count ≤ ctx.max_rows
    → IsCapped ctx.row_count ctx.max_rows (end_cause u ctx t c)
unfolding end_cause
end_cause-IsCapped u ctx t timeout h =
    emit_streaming_error_safe-IsCapped _ _ [] ctx t _ _ (omega arith, tt)
end_cause-IsCapped u ctx t user_cancel h =
    emit_streaming_error_safe-IsCapped _ _ [] ctx t _ _ (omega arith, tt)
end_cause-IsCapped u ctx t disconnect h = (omega arith, tt, λ g. cc)
end_cause-IsCapped u ctx t no_cause h =
    emit_end-IsCapped u _ _ [] ctx t ctx.truncated (omega arith, tt) (omega arith)

emit_size-cap :
    (ctx : StreamingCtx) (size limit : ℕ)
    → 0 < ctx.max_rows
    → ctx.max_rows + limit < 2 ^ 64
    → size ≤ limit
    → ctx.row_count ≤ ctx.max_rows
    → ctx.row_count + emit_size ctx size ≤ ctx.max_rows
unfolding emit_size is_over
emit_size-cap ctx size limit p q r h =
    let fits : (ctx.row_count + size) % 2 ^ 64 ≡ ctx.row_count + size = omega arith in
    let room : (2 ^ 64 + ctx.max_rows - ctx.row_count) % 2 ^ 64 ≡ ctx.max_rows - ctx.row_count =
      omega arith in
    ground arith

after_rows-IsCapped :
    (u : StringUtil) (start cap : ℕ) (lines : List Line) (ctx : StreamingCtx) (t : Turn)
    → Behind start cap lines
    → ctx.row_count ≡ start + rows_in lines
    → ctx.max_rows ≡ cap
    → IsCapped start cap (after_rows u lines ctx t)
unfolding after_rows
after_rows-IsCapped u start cap lines ctx t h k m =
    either (IsCapped start cap) ctx.truncated _ _
      (λ _. emit_end-IsCapped u start cap lines ctx t true h k) (λ _. (h.0, h.1, λ g. (k, m)))

emit_rows-IsCapped :
    (u : StringUtil) (ctx : StreamingCtx) (t : Turn) (size limit : ℕ)
    → 0 < ctx.max_rows
    → ctx.max_rows + limit < 2 ^ 64
    → size ≤ limit
    → ctx.row_count ≤ ctx.max_rows
    → IsCapped ctx.row_count ctx.max_rows (emit_rows u ctx t size)
unfolding emit_rows catch_exception
emit_rows-IsCapped u ctx t size limit p q r h =
    let n = emit_size ctx size in
    let lines = data_lines ctx.chunk_mode n in
    let cap = emit_size-cap ctx size limit p q r h in
    let behind : Behind ctx.row_count ctx.max_rows lines = (
      omega (arith, data_lines-rows ctx.chunk_mode n, cap),
      data_lines-Counts ctx.chunk_mode n ctx.row_count,
    ) in
    let capped = record ctx { truncated = is_over ctx size || ctx.truncated } in
    let counted = record capped { row_count = (ctx.row_count + n) % 2 ^ 64 } in
    either (IsCapped ctx.row_count ctx.max_rows) (not t.encodes_rows) _ _
      (λ _.
        catch_cause-IsCapped u ctx.row_count ctx.max_rows [] capped t t.what t.cause
          (omega arith, tt))
      (λ _.
        either (IsCapped ctx.row_count ctx.max_rows) (not t.written) _ _
          (λ _. (behind.0, behind.1, λ g. cc))
          (λ _.
            after_rows-IsCapped u ctx.row_count ctx.max_rows lines counted t behind
              (omega (arith, data_lines-rows ctx.chunk_mode n, cap)) refl))

-- A chunk is not larger than a bound.
abbrev pub IsSized : ℕ → Turn → Type 0
IsSized limit t = (n : ℕ) → t.fetched ≡ chunk n → n ≤ limit

fetch_rows-IsCapped :
    (u : StringUtil) (ctx : StreamingCtx) (t : Turn) (f : Fetched) (limit : ℕ)
    → 0 < ctx.max_rows
    → ctx.max_rows + limit < 2 ^ 64
    → ((n : ℕ) → f ≡ chunk n → n ≤ limit)
    → ctx.row_count ≤ ctx.max_rows
    → IsCapped ctx.row_count ctx.max_rows (fetch_rows u ctx t f)
unfolding fetch_rows catch_exception end_of_result
fetch_rows-IsCapped u ctx t (threw what) limit p q r h =
    catch_cause-IsCapped u _ _ [] ctx t what t.cause (omega arith, tt)
fetch_rows-IsCapped u ctx t (chunk zero) limit p q r h = end_cause-IsCapped u ctx t t.cause h
fetch_rows-IsCapped u ctx t (chunk (suc n)) limit p q r h =
    emit_rows-IsCapped u ctx t (suc n) limit p q (r (suc n) refl) h

provide-IsCapped :
    (u : StringUtil) (ctx : StreamingCtx) (t : Turn) (limit : ℕ)
    → 0 < ctx.max_rows
    → ctx.max_rows + limit < 2 ^ 64
    → IsSized limit t
    → ctx.row_count ≤ ctx.max_rows
    → IsCapped ctx.row_count ctx.max_rows (provide u ctx t)
unfolding provide catch_exception
provide-IsCapped u ctx t limit p q r h =
    let Q = IsCapped ctx.row_count ctx.max_rows in
    either Q (not ctx.schema_emitted) _ _
      (λ _.
        either Q t.encodes_schema _ _ (λ _. (omega arith, tt, λ g. (omega arith, refl)))
          (λ _. catch_cause-IsCapped u _ _ [] ctx t t.what t.cause (omega arith, tt)))
      (λ _.
        either Q (not ctx.end_emitted && not ctx.error_emitted) _ _
          (λ _. fetch_rows-IsCapped u ctx t t.fetched limit p q r h)
          (λ _. (omega arith, tt, λ g. cc)))

stream_from :
    (u : StringUtil) (ctx : StreamingCtx) (turns : List Turn) (limit : ℕ)
    → 0 < ctx.max_rows
    → ctx.max_rows + limit < 2 ^ 64
    → All (IsSized limit) turns
    → ctx.row_count ≤ ctx.max_rows
    → (ctx.row_count + rows_in (stream u ctx turns) ≤ ctx.max_rows)
      × Counts ctx.row_count (stream u ctx turns)
unfolding stream
stream_from u ctx [] limit p q r h = (omega arith, tt)
stream_from u ctx (t ∷ turns) limit p q r h =
    let s = provide u ctx t in
    let (within, counted, goes) = provide-IsCapped u ctx t limit p q r.0 h in
    elim (Bool-cases s.go) [
      | inr e ↦ rw e (within, counted)
      | inl e ↦
          let (count, cap) = goes e in
          let (later, more) =
            stream_from u s.ctx turns limit (omega arith) (omega arith) r.1 (omega arith) in
          rw e (
            omega (arith, rows_in-append s.lines (stream u s.ctx turns)),
            Counts-append ctx.row_count s.lines (stream u s.ctx turns) counted
                (subst (λ m. Counts m (stream u s.ctx turns)) count more),
          )
    ]

-- With a cap on the rows, a stream has no more rows than the cap allows, in row mode and in chunk
-- mode, and an end record tells the number of rows in front of it, whatever is fetched, interrupted or
-- thrown. The chunks are of a bounded size, and the cap leaves that much room below 2^64.
pub stream-rows :
    (u : StringUtil) (max_rows limit : ℕ) (chunk_mode : Bool) (turns : List Turn)
    → 0 < max_rows
    → max_rows + limit < 2 ^ 64
    → All (IsSized limit) turns
    → (rows_in (stream u (new_ctx max_rows chunk_mode) turns) ≤ max_rows)
      × Counts 0 (stream u (new_ctx max_rows chunk_mode) turns)
unfolding new_ctx
stream-rows u max_rows limit chunk_mode turns p q r =
    let (bounded, counted) =
      stream_from u (new_ctx max_rows chunk_mode) turns limit p q r (omega arith) in
    (omega arith, counted)

-- ===== src/Sql/JsonWriter.antt =====
-- src/sql_json_writer.cpp: the streaming `JsonWriter`.
pub mod Escaping
pub mod Printable
pub mod Tree
use duckdb_flock.Base.{
  ℕ, zero, suc, ◌+◌, ◌*◌, ◌/◌, ◌%◌, ◌≡◌, Bool, true, false, not, ◌&&◌, ◌||◌, Option, none, some,
  List, [], ◌∷◌, ◌++◌, Bytes, codes, length, take, drop, get_or, ltb, leb, ◌==◌, if◌then◌else◌,
}
use duckdb_flock.Crypto.Hex.{hex_char}
use duckdb_flock.Sql.Utf8.{validate_utf8}

-- `EmitReplacement`.
unfoldable pub replacement : Bytes
replacement = 239 ∷ 191 ∷ 189 ∷ []

-- One turn of the loop of `WriteEscapedString`: what it appends, and by how much `i` grows.
unfoldable pub escape_step : ℕ → Bytes → Bytes × ℕ
unfolding hex_char
escape_step byte rest =
    if leb 32 byte && ltb byte 128 && not (byte == b'"') && not (byte == 92)
    then (byte ∷ [], 1)
    else (if byte == b'"'
        then (92 ∷ b'"' ∷ [], 1)
        else (if byte == 92
            then (92 ∷ 92 ∷ [], 1)
            else (if byte == 8
                then (92 ∷ b'b' ∷ [], 1)
                else (if byte == 12
                    then (92 ∷ b'f' ∷ [], 1)
                    else (if byte == 10
                        then (92 ∷ b'n' ∷ [], 1)
                        else (if byte == 13
                            then (92 ∷ b'r' ∷ [], 1)
                            else (if byte == 9
                                then (92 ∷ b't' ∷ [], 1)
                                else (if ltb byte 32
                                    then (
                                      92
                                          ∷ b'u'
                                          ∷ b'0'
                                          ∷ b'0'
                                          ∷ hex_char (byte / 16 % 16)
                                          ∷ hex_char (byte % 16)
                                          ∷ [],
                                      1,
                                    )
                                    else (let consumed = validate_utf8 byte rest in
                                        if consumed == 0
                                        then (replacement, 1)
                                        else (take consumed (byte ∷ rest), consumed))))))))))

-- The loop, on fuel; the length of the text is enough.
unfoldable pub escape_loop : ℕ → Bytes → Bytes
unfolding escape_step
escape_loop zero s = []
escape_loop (suc fuel) [] = []
escape_loop (suc fuel) (byte ∷ rest) =
    let (piece, consumed) = escape_step byte rest in
    piece ++ escape_loop fuel (drop consumed (byte ∷ rest))

unfoldable pub write_escaped_string : Bytes → Bytes
unfolding escape_loop
write_escaped_string s = b'"' ∷ escape_loop (length s) s ++ b'"' ∷ []

-- `Frame`; the writer never stores `ROOT`.
pub data Frame : Type 0 where
  root object_key object_value array : Frame

-- `frames` with its last character first.
pub record JsonWriter : Type 0 where
  pub buf : Bytes
  pub frames : List Frame
  pub first_in_frame : Bool

-- The initial state, and what `Reset` leaves.
unfoldable pub reset : JsonWriter
reset = record { buf = []; frames = []; first_in_frame = true }

-- `Take`: the text, and the writer it leaves.
unfoldable pub take_text : JsonWriter → Bytes × JsonWriter
unfolding reset
take_text w = (w.buf, reset)

unfoldable pub append : Bytes → JsonWriter → JsonWriter
append s w = record w { buf = w.buf ++ s }

unfoldable pub comma_unless_first : JsonWriter → JsonWriter
comma_unless_first w = if w.first_in_frame then w else append (b',' ∷ []) w

unfoldable pub before_value : JsonWriter → JsonWriter
unfolding append comma_unless_first
before_value w = elim w.frames [
  | [] ↦ w
  | array ∷ _ ↦ record (comma_unless_first w) { first_in_frame = false }
  | object_value ∷ outer ↦ record w { frames = object_key ∷ outer; first_in_frame = false }
  | _ ↦ w
]

unfoldable pub before_key : JsonWriter → JsonWriter
unfolding append comma_unless_first
before_key w = elim w.frames [
  | object_key ∷ _ ↦ record (comma_unless_first w) { first_in_frame = false }
  | _ ↦ w
]

unfoldable pub open_frame : ℕ → Frame → JsonWriter → JsonWriter
unfolding append before_value
open_frame c f w =
    let v = append (c ∷ []) (before_value w) in
    record v { frames = f ∷ v.frames; first_in_frame = true }

unfoldable pub close_frame : ℕ → JsonWriter → JsonWriter
unfolding append
close_frame c w = elim w.frames [
  | [] ↦ w
  | _ ∷ outer ↦ record (append (c ∷ []) w) { frames = outer; first_in_frame = false }
]

unfoldable pub begin_object : JsonWriter → JsonWriter
unfolding open_frame
begin_object = open_frame b'{' object_key

unfoldable pub end_object : JsonWriter → JsonWriter
unfolding close_frame
end_object = close_frame b'}'

unfoldable pub begin_array : JsonWriter → JsonWriter
unfolding open_frame
begin_array = open_frame b'[' array

unfoldable pub end_array : JsonWriter → JsonWriter
unfolding close_frame
end_array = close_frame b']'

-- `frames.back() = ...` needs a frame; without one the model leaves the writer as it is.
unfoldable pub key : Bytes → JsonWriter → JsonWriter
unfolding append before_key write_escaped_string
key name w =
    let v = append (b':' ∷ []) (append (write_escaped_string name) (before_key w)) in
    elim v.frames [ [] ↦ v | _ ∷ outer ↦ record v { frames = object_value ∷ outer } ]

-- `Raw` and `RawNumber`.
unfoldable pub raw : Bytes → JsonWriter → JsonWriter
unfolding append before_value
raw token w = append token (before_value w)

unfoldable pub null_value : JsonWriter → JsonWriter
unfolding raw
null_value = raw (codes "null")

unfoldable pub bool_value : Bool → JsonWriter → JsonWriter
unfolding raw
bool_value v = raw (if v then codes "true" else codes "false")

unfoldable pub string_value : Bytes → JsonWriter → JsonWriter
unfolding raw write_escaped_string
string_value s = raw (write_escaped_string s)

unfoldable pub key_null : Bytes → JsonWriter → JsonWriter
unfolding key null_value
key_null name w = null_value (key name w)

unfoldable pub key_bool : Bytes → Bool → JsonWriter → JsonWriter
unfolding key bool_value
key_bool name v w = bool_value v (key name w)

unfoldable pub key_string : Bytes → Bytes → JsonWriter → JsonWriter
unfolding key string_value
key_string name v w = string_value v (key name w)

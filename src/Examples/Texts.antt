-- ===== src/Examples/Texts.antt =====
-- Texts that the JSON writer writes.
use duckdb_flock.Base.{All, ℕ, ◌<◌, ◌≡◌, [], ◌∷◌, codes, arith}
use duckdb_flock.Sql.Utf8.{IsScalar}
use duckdb_flock.Sql.JsonWriter.{write_escaped_string, take_text, reset}
use duckdb_flock.Sql.JsonWriter.Printable.{IsVisible, write_escaped_string-IsVisible}
use duckdb_flock.Sql.JsonWriter.Tree.{
  Json, null, number, array_of, object_of, element, no_element, member, no_member, write, text,
  take_text-write,
}

scalar : (cp : ℕ) → cp < 55296 → IsScalar cp
scalar cp h = record { in_range = omega arith; no_surrogate = λ k. absurd (omega arith) }

abbrev row : Json
row = object_of (
    member (codes "rows") (array_of (element null (element (number (codes "1")) no_element)))
      no_member)

take_text-write_example : take_text (write row reset) ≡ (text row, reset)
take_text-write_example = take_text-write row

write_escaped_string-IsVisible_example :
    All IsVisible (write_escaped_string (0 ∷ 195 ∷ 10 ∷ 255 ∷ []))
write_escaped_string-IsVisible_example = write_escaped_string-IsVisible (0 ∷ 195 ∷ 10 ∷ 255 ∷ [])

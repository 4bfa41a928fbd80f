-- ===== src/Sql.antt =====
-- src/sql_json_writer.cpp and the text encoding of src/sql_param_decoder.cpp, by part.
pub mod Utf8
pub mod JsonWriter
pub mod Params

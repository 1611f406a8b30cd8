-- ===== src/Lib.antt =====
-- The core logic of exarrow-rs, an ADBC driver for Exasol in Rust, modelled and proved.
--
-- A query starts as a SQL text. `Statement` (src/query/statement.rs) finds its `?` placeholders and
-- puts literals of the bound parameters in their place; `PreparedStatement` (src/query/prepared.rs)
-- sends parameters beside the text, as columns of JSON values. A `Session`
-- (src/connection/session.rs) guards transactions and knows the server's version
-- (src/connection/version.rs). The native transport frames each message with a header
-- (src/transport/native/framing.rs) and with typed attributes
-- (src/transport/native/attributes.rs), and reads messages and column metadata back
-- (src/transport/native/result_parser.rs); a batch of parameters that is too large for one message is
-- split (src/transport/native/mod.rs). Results come back in pages, which src/query/results.rs
-- collects or iterates over. For imports, src/types/infer.rs and src/types/mapping.rs name and type
-- the columns of created tables, and rows go to and fro as CSV text (src/import/csv.rs,
-- src/export/csv.rs), or as ranges of a Parquet file, through an HTTP tunnel in which Exasol is the
-- client (src/transport/http_transport.rs).
--
-- A `Connection` (src/adbc/connection.rs) puts these together: it holds a session and the transport
-- behind its lock (src/transport/protocol.rs), and before each statement it makes the limit on the time
-- of a query that the server has agree with the one asked for. `FfiConnection` (src/adbc_ffi.rs) maps
-- the option AutoCommit of the ADBC interface to the transactions of a connection.
--
-- Which module models what:
--   Prelude           Rust's Result and Option, bytes and words in little endian, two's complement,
--                     `str` as code points with its UTF-8 bytes and their decoder, decimal and
--                     hexadecimal text; Prelude.Call, the methods of `&mut self` that return a
--                     Result, with the rules that carry an invariant through them
--   Query.Scan        `ScanState`, `scan_step` and `scan_placeholders` of src/query/statement.rs
--   Query.Parameter   `Parameter::to_sql_literal`, `contains_sql_injection_pattern`
--   Query.Statement   `StatementType::from_sql`, `Statement` with `bind`, `bind_all`, `build_sql`
--   Query.Prepared    `PreparedStatement`, `build_batch_parameters_data`, `build_parameters_data`
--   Query.Results     `fetch_page_after`, `paginate_remaining`, `fetch_all` and the iterator's
--                     `fetch_next_batch` and `next_batch`, of src/query/results.rs
--   Native.Constants  src/transport/native/constants.rs
--   Native.Framing    `MessageHeader` and `SerialCounter` of src/transport/native/framing.rs
--   Native.Attributes `AttributeSet` and `serialize`; the child Reader has `parse_attributes`
--   Native.Batches    the payload of CMD_EXECUTE_PREPARED, of src/transport/native/mod.rs; the child
--                     Split has `split_parameter_rows`
--   Native.Response   the readers, `parse_message_part` and `parse_column_meta` of
--                     src/transport/native/result_parser.rs
--   Connection        `Session` (src/connection/session.rs) and src/connection/version.rs;
--                     Connection.Transport, `TransportProtocol` and `QueryResult` of
--                     src/transport/protocol.rs
--   Adbc.Connection   `execute_statement` with the limit it pushes to the server, and
--                     the other statements of src/adbc/connection.rs; Adbc.Prepared, its prepared
--                     statements and batches; Adbc.Control, transactions, the schema and closing;
--                     Adbc.Connect, `connect_with_transport`
--   Adbc.Options      the option AutoCommit, commit and rollback of src/adbc_ffi.rs
--   Http              the stream of the tunnel: `read_exact`, `read_line`, `write_all`; its children
--                     have chunked and sized bodies (Chunks), requests (Request), responses (Response)
--                     and the byte ranges of a Parquet file (Ranges)
--   Types.Mapping     `ExasolType` and `TypeMapper` of src/types/mapping.rs
--   Types.Infer       column names, `widen_type` and `to_ddl` of src/types/infer.rs
--   Csv               `format_csv_row` of src/import/csv.rs; `CsvRows` and `parse_csv` of
--                     src/export/csv.rs
--   Tests             runs on concrete inputs
--
-- Conventions. A method that changes `&mut self` returns the new record. A machine integer is a number
-- with its wrap-around written out, `% 2 ^ 32`. A panic of an index or of a slice is a result of its
-- own, `panic`, where the code has such an index. A text is the list of its code points; byte offsets
-- are sums of `len_utf8`. Text of error messages is left out, but the values that a message names are
-- kept.
--
-- Outside the repository, and so parameters: floats, `char::to_uppercase` and hex (`Platform`), JSON
-- values (`Json`), the transport and the Arrow conversion behind a page (`Server`), and Arrow's
-- `is_dictionary_key_type`. A connection takes the transport as a `TransportProtocol`, an interface of
-- operations on a state of its own; requests of the tunnel take `str::to_lowercase`; a batch
-- of parameters takes the tests on a JSON value (`JsonView`).
--
-- Fuel. `paginate_remaining` and what calls it take fuel, because the server decides when the pages
-- end: with a known total and no empty batches, any fuel above the total is enough. `parse_csv` gives
-- `parse_rows` one more fuel than the text has characters, which is enough for every text. In the
-- tunnel, the loops over chunks, header lines and requests get one more fuel than there are bytes of
-- input, since each round reads at least one byte; a copy loop gets the number of bytes to copy, since
-- each round copies at least one. All other loops recurse on their data.
--
-- Not modelled: the bytes of one bound value (Native.Batches holds for any); sockets, TLS, WebSocket
-- and deadlines; the packets that open the tunnel; the envelope of result parts and the building of
-- Arrow arrays; the streams of CSV and Parquet import and export; the metadata queries and the import
-- and export methods of a connection; the rest of the C interface. The streams, sockets and builders
-- are I/O or wrappers of libraries.
pub mod Prelude
pub mod Native
pub mod Query
pub mod Adbc
pub mod Connection
pub mod Types
pub mod Csv
pub mod Http
mod Tests

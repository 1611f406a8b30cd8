-- ===== src/Native/Constants.antt =====
-- src/transport/native/constants.rs: command codes, response codes, attribute ids and wire types.
use exarrow_rs.Prelude.{ℕ, ◌*◌}
use exarrow_rs.Prelude.Int.{ℤ, pos, negsuc}

abbrev pub login_magic : ℕ
login_magic = 0x0112_1201

abbrev pub protocol_version : ℕ
protocol_version = 21

abbrev pub min_protocol_version : ℕ
min_protocol_version = 14

abbrev pub change_date : ℕ
change_date = 200131112

abbrev pub cmd_create_prepared : ℕ
cmd_create_prepared = 10

abbrev pub cmd_execute_prepared : ℕ
cmd_execute_prepared = 11

abbrev pub cmd_execute : ℕ
cmd_execute = 12

abbrev pub cmd_close_resultset : ℕ
cmd_close_resultset = 13

abbrev pub cmd_close_prepared : ℕ
cmd_close_prepared = 18

abbrev pub cmd_disconnect : ℕ
cmd_disconnect = 32

abbrev pub cmd_get_attributes : ℕ
cmd_get_attributes = 34

abbrev pub cmd_set_attributes : ℕ
cmd_set_attributes = 35

abbrev pub cmd_fetch2 : ℕ
cmd_fetch2 = 36

abbrev pub r_row_count : ℤ
r_row_count = pos 0

abbrev pub r_result_set : ℤ
r_result_set = pos 1

abbrev pub r_handle : ℤ
r_handle = pos 2

abbrev pub r_column_count : ℤ
r_column_count = pos 3

abbrev pub r_warning : ℤ
r_warning = pos 4

abbrev pub r_still_executing : ℤ
r_still_executing = pos 5

abbrev pub r_more_rows : ℤ
r_more_rows = pos 6

abbrev pub r_exception : ℤ
r_exception = negsuc 0

abbrev pub r_empty : ℤ
r_empty = negsuc 1

abbrev pub small_resultset : ℤ
small_resultset = negsuc 2

abbrev pub parameter_description : ℤ
parameter_description = negsuc 4

abbrev pub attr_username : ℕ
attr_username = 1

abbrev pub attr_clientname : ℕ
attr_clientname = 2

abbrev pub attr_clientos : ℕ
attr_clientos = 3

abbrev pub attr_drivername : ℕ
attr_drivername = 4

abbrev pub attr_sessionid : ℕ
attr_sessionid = 6

abbrev pub attr_autocommit : ℕ
attr_autocommit = 7

abbrev pub attr_clientversion : ℕ
attr_clientversion = 10

abbrev pub attr_transaction_state : ℕ
attr_transaction_state = 17

abbrev pub attr_protocol_version : ℕ
attr_protocol_version = 19

abbrev pub attr_current_schema : ℕ
attr_current_schema = 22

abbrev pub attr_data_message_size : ℕ
attr_data_message_size = 26

abbrev pub attr_public_key : ℕ
attr_public_key = 32

abbrev pub attr_random_phrase : ℕ
attr_random_phrase = 33

abbrev pub attr_encoded_password : ℕ
attr_encoded_password = 34

abbrev pub attr_query_timeout : ℕ
attr_query_timeout = 35

abbrev pub attr_timezone : ℕ
attr_timezone = 47

abbrev pub attr_tsutc_enabled : ℕ
attr_tsutc_enabled = 51

abbrev pub attr_query_cache_access : ℕ
attr_query_cache_access = 52

abbrev pub attr_client_receive_key : ℕ
attr_client_receive_key = 53

abbrev pub attr_client_send_key : ℕ
attr_client_send_key = 54

abbrev pub attr_snapshot_transactions_enabled : ℕ
attr_snapshot_transactions_enabled = 55

abbrev pub attr_client_keys_len : ℕ
attr_client_keys_len = 56

abbrev pub attr_encryption_required : ℕ
attr_encryption_required = 57

abbrev pub attr_release_version : ℕ
attr_release_version = 8

abbrev pub attr_database_name : ℕ
attr_database_name = 37

abbrev pub attr_product_name : ℕ
attr_product_name = 38

abbrev pub attr_sql_text : ℕ
attr_sql_text = 200

abbrev pub attr_result_set_handle : ℕ
attr_result_set_handle = 201

abbrev pub attr_statement_handle : ℕ
attr_statement_handle = 202

abbrev pub attr_num_rows : ℕ
attr_num_rows = 203

abbrev pub t_smallint : ℕ
t_smallint = 4

abbrev pub t_integer : ℕ
t_integer = 5

abbrev pub smallint_decimal_precision : ℕ
smallint_decimal_precision = 9

abbrev pub integer_decimal_precision : ℕ
integer_decimal_precision = 18

abbrev pub t_decimal : ℕ
t_decimal = 6

abbrev pub t_real : ℕ
t_real = 7

abbrev pub t_double : ℕ
t_double = 8

abbrev pub t_char : ℕ
t_char = 10

abbrev pub t_date : ℕ
t_date = 14

abbrev pub t_binary : ℕ
t_binary = 15

abbrev pub t_interval_year : ℕ
t_interval_year = 16

abbrev pub t_interval_day : ℕ
t_interval_day = 17

abbrev pub t_timestamp : ℕ
t_timestamp = 21

abbrev pub t_boolean : ℕ
t_boolean = 9

abbrev pub t_geometry : ℕ
t_geometry = 123

abbrev pub t_timestamp_local_tz : ℕ
t_timestamp_local_tz = 124

abbrev pub t_timestamp_utc : ℕ
t_timestamp_utc = 125

abbrev pub t_hashtype : ℕ
t_hashtype = 126

abbrev pub t_smalldecimal : ℕ
t_smalldecimal = 63

abbrev pub t_bigdecimal : ℕ
t_bigdecimal = 64

abbrev pub is_varchar : ℕ
is_varchar = 0x01

abbrev pub is_utf8 : ℕ
is_utf8 = 0x10

abbrev pub max_data_message_size : ℕ
max_data_message_size = 64 * 1024 * 1024

abbrev pub chacha20_key_len : ℕ
chacha20_key_len = 32

abbrev pub timestamp_param_precision : ℕ
timestamp_param_precision = 9

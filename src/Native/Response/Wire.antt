-- ===== src/Native/Response/Wire.antt =====
-- Column metadata as the server writes it, and what the driver keeps of it.
use exarrow_rs.Native.Response.{NativeColumnMeta, bare, MetaKind, meta_kind}
use exarrow_rs.Prelude.Bytes.{Bytes, to_le_bytes}
use exarrow_rs.Prelude.Int.{ℤ, pos, Fits, to_bits}
use exarrow_rs.Prelude.Text.{Text, as_bytes, byte_len}
use exarrow_rs.Prelude.Utf8.{IsChar}
use exarrow_rs.Prelude.{ℕ, ◌%◌, ◌^◌, ◌<◌, Bool, [], ◌∷◌, ◌++◌, some, ◌≡◌, ◌==◌, All}

-- What follows a column's type id.
pub data Details : Type 0 where
  -- precision, scale
  decimal : ℤ → ℤ → Details
  -- flags, longest length, octet length
  text : ℕ → ℤ → ℤ → Details
  -- those and the leading precision
  interval_year : ℕ → ℤ → ℤ → ℤ → Details
  -- those and the precision of the fraction
  interval_day : ℕ → ℤ → ℤ → ℤ → ℤ → Details
  -- precision
  timestamp : ℤ → Details
  plain : Details

pub record Column : Type 0 where
  pub name : Text
  pub type_id : ℕ
  pub details : Details

abbrev pub kind_of : Details → MetaKind
kind_of (decimal p s) = MetaKind.decimal
kind_of (text f m o) = MetaKind.text
kind_of (interval_year f m o p) = MetaKind.interval_year
kind_of (interval_day f m o p q) = MetaKind.interval_day
kind_of (timestamp p) = MetaKind.timestamp
kind_of plain = MetaKind.plain

abbrev pub word32 : ℤ → Bytes
word32 z = to_le_bytes 4 (to_bits (2 ^ 31) z)

unfoldable pub print_details : Details → Bytes
print_details (decimal p s) = word32 p ++ word32 s
print_details (text f m o) = f ∷ (word32 m ++ word32 o)
print_details (interval_year f m o p) = f ∷ (word32 m ++ (word32 o ++ word32 p))
print_details (interval_day f m o p q) = f ∷ (word32 m ++ (word32 o ++ (word32 p ++ word32 q)))
print_details (timestamp p) = word32 p
print_details plain = []

unfoldable pub print_column : Column → Bytes
unfolding print_details
print_column c =
    word32 (pos (byte_len c.name))
    ++ (as_bytes c.name ++ (word32 (pos c.type_id) ++ print_details c.details))

abbrev pub is_odd : ℕ → Bool
is_odd f = f % 2 == 1

abbrev pub with_details : Details → NativeColumnMeta → NativeColumnMeta
with_details (decimal p s) c = record c { precision = some p; scale = some s }
with_details (text f m o) c = record c { is_varchar = is_odd f; max_len = some m }
with_details (interval_year f m o p) c = record c { is_varchar = is_odd f; max_len = some m }
with_details (interval_day f m o p q) c = record c {
  is_varchar = is_odd f;
  max_len = some m;
  interval_fraction = some q;
}
with_details (timestamp p) c = c
with_details plain c = c

-- The metadata that the driver keeps of a column.
abbrev pub meta_of : Column → NativeColumnMeta
meta_of c = with_details c.details (bare c.name c.type_id)

abbrev pub AreWords : Details → Type 0
AreWords (decimal p s) = Fits (2 ^ 31) p × Fits (2 ^ 31) s
AreWords (text f m o) = Fits (2 ^ 31) m × Fits (2 ^ 31) o
AreWords (interval_year f m o p) = Fits (2 ^ 31) m × Fits (2 ^ 31) o × Fits (2 ^ 31) p
AreWords (interval_day f m o p q) =
    Fits (2 ^ 31) m × Fits (2 ^ 31) o × Fits (2 ^ 31) p × Fits (2 ^ 31) q
AreWords (timestamp p) = Fits (2 ^ 31) p
AreWords plain = Unit

-- A column that the server may send: the details go with the type, and every word is an i32.
pub record IsColumn (c : Column) : Type 0 where
  pub chars : All IsChar c.name
  pub name_fits : byte_len c.name < 2 ^ 31
  pub id_fits : c.type_id < 2 ^ 31
  pub typed : meta_kind c.type_id ≡ kind_of c.details
  pub words : AreWords c.details

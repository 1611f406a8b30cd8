-- ===== src/Native/Attributes/Sound.antt =====
-- What `parse_attributes` returns when it succeeds.
use exarrow_rs.Native.Attributes.Reader.{
  AttributeError, take_bytes, read_attribute_id, read_length_prefixed, read_typed,
  read_attribute_value, parse_loop, parse_attributes,
}
use exarrow_rs.Native.Attributes.RoundTrip.{type_of}
use exarrow_rs.Native.Attributes.{
  AttributeValue, Attribute, AttributeSet, add, get, AttrType, str, bin, attribute_type,
}
use exarrow_rs.Prelude.Bytes.{Bytes}
use exarrow_rs.Prelude.{
  ℕ, zero, suc, ◌+◌, ◌*◌, ◌≤◌, ◌<◌, [], ◌∷◌, ◌++◌, append_assoc, append-nil, ◌≡◌, refl, sym, ap,
  ◌∙◌, arith, length, All, ok, none, some, if◌then◌else◌, ◌==◌, >>=-eq-ok,
}

take_bytes_sound :
    (bytes : Bytes) (o n : ℕ) (e : AttributeError) {b : Bytes} {o' : ℕ}
    → take_bytes bytes o n e ≡ ok (b, o')
    → (o' ≡ o + n) × (o' ≤ length bytes)
unfolding take_bytes
take_bytes_sound bytes o n e h = ground arith

read_length_prefixed_sound :
    (bytes : Bytes) (o : ℕ) {b : Bytes} {o' : ℕ}
    → read_length_prefixed bytes o ≡ ok (b, o')
    → (o + 4 ≤ o') × (o' ≤ length bytes)
unfolding read_length_prefixed take_bytes
read_length_prefixed_sound bytes o h = ground arith

read_typed_sound :
    (t : AttrType) (bytes : Bytes) (o id : ℕ) {v : AttributeValue} {o' : ℕ}
    → read_typed t bytes o id ≡ ok (v, o')
    → (type_of v ≡ t) × (o < o') × (o' ≤ length bytes)
unfolding read_typed take_bytes
read_typed_sound str bytes o id h = ground arith
read_typed_sound bin bytes o id h = ground arith
read_typed_sound _ bytes o id h = ground arith

read_attribute_id_sound :
    (bytes : Bytes) (o : ℕ) {id o' : ℕ}
    → read_attribute_id bytes o ≡ ok (id, o')
    → (o' ≡ o + 2) × (o' ≤ length bytes)
unfolding read_attribute_id take_bytes
read_attribute_id_sound bytes o h = ground arith

abbrev pub IsTyped : Attribute → Type 0
IsTyped a = attribute_type a.id ≡ type_of a.value

record Reads (count : ℕ) (bytes : Bytes) (done : AttributeSet) (o : ℕ) (set : AttributeSet)
    : Type 0 where
  tail : AttributeSet
  splits : set ≡ done ++ tail
  counted : length tail ≡ count
  typed : All IsTyped tail
  fits : o + 3 * count ≤ length bytes

parse_loop_sound :
    (count : ℕ) (bytes : Bytes) (done : AttributeSet) (o : ℕ) {set : AttributeSet}
    → o ≤ length bytes
    → parse_loop count bytes done o ≡ ok set
    → Reads count bytes done o set
unfolding parse_loop add read_attribute_value
parse_loop_sound zero bytes done o within h = record {
  tail = [];
  splits = ground (arith, append-nil done);
  counted = refl;
  typed = tt;
  fits = omega arith;
}
parse_loop_sound (suc count) bytes done o within h =
    let ((id, o₁), got_id, later) = >>=-eq-ok (read_attribute_id bytes o) _ h in
    let ((v, o₂), got_value, last) =
      >>=-eq-ok (read_typed (attribute_type id) bytes o₁ id) _ later in
    let id_read = read_attribute_id_sound bytes o got_id in
    let value_read = read_typed_sound (attribute_type id) bytes o₁ id got_value in
    let a : Attribute = record { id = id; value = v } in
    let r = parse_loop_sound count bytes (done ++ a ∷ []) o₂ value_read.2 last in
    record {
      tail = a ∷ r.tail;
      splits = r.splits ∙ append_assoc done (a ∷ []) r.tail;
      counted = ap suc r.counted;
      typed = (sym value_read.0, r.typed);
      fits = omega (arith, r.fits, id_read, value_read);
    }

-- A successful parse returns exactly `count` attributes, each with a value of the wire type of its
-- id, and the data held at least three bytes for each.
pub parse_attributes_sound :
    (bytes : Bytes) (count : ℕ) {set : AttributeSet}
    → parse_attributes bytes count ≡ ok set
    → (length set ≡ count) × All IsTyped set × (3 * count ≤ length bytes)
unfolding parse_attributes
parse_attributes_sound bytes count h =
    let r = parse_loop_sound count bytes [] 0 (omega arith) h in
    (omega (arith, ap length r.splits, r.counted), rw r.splits r.typed, omega (arith, r.fits))

-- `get` after `add`: an attribute added under an id that is taken does not hide the first one.
pub get-add :
    (set : AttributeSet) (id id' : ℕ) (v : AttributeValue)
    → get (add set id v) id'
      ≡ elim (get set id') [ some w ↦ some w | none ↦ if id == id' then some v else none ]
unfolding get add
get-add [] id id' v = refl
get-add (a ∷ set) id id' v = ground (arith, get-add set id id' v)

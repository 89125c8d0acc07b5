-- ===== src/Orm/Table.antt =====
-- The definition of a table with its fields (include/blockserver/database/orm/impl/table_impl.h and
-- orm/fields), and the filters of a query (src/block_server/database/orm/impl/query_impl.cpp), of which
-- those by a number have empty bodies. A field is a value, since the program changes none after it is
-- added; the settings of a table are a null pointer.
use myblockchain.Prelude.{
  ℕ, zero, suc, ◌+◌, ◌<◌, ◌≡◌, refl, sym, ap, ◌∙◌, List, [], ◌∷◌, ◌++◌, Bool, true, false, Option,
  none, some, if◌then◌else◌, String, length, length-append, arith, leb, inl, inr, Bool-cases,
}

pub data OrmFieldType : Type 0 where
  auto_field binary_field boolean_field integer_field positive_integer_field : OrmFieldType
  char_field text_field date_time_field float_field decimal_field : OrmFieldType
  foreign_key one_to_one_field many_to_many_field : OrmFieldType

-- A field; `max_length` is that of a CharField, and `none` for the others.
pub record OrmField : Type 0 where
  pub field_type : OrmFieldType
  pub column_name : String
  pub primary : Bool
  pub unique : Bool
  pub nil : Bool
  pub index : Bool
  pub max_length : Option ℕ

abbrev pub orm_field_base : OrmFieldType → String → OrmField
orm_field_base field_type column_name = record {
  field_type = field_type;
  column_name = column_name;
  primary = false;
  unique = false;
  nil = false;
  index = false;
  max_length = none;
}

abbrev pub set_primary : Bool → OrmField → OrmField
set_primary b f = record f { primary = b }

abbrev pub set_unique : Bool → OrmField → OrmField
set_unique b f = record f { unique = b }

abbrev pub set_null : Bool → OrmField → OrmField
set_null b f = record f { nil = b }

abbrev pub set_index : Bool → OrmField → OrmField
set_index b f = record f { index = b }

unfoldable pub make_char_field : String → ℕ → Bool → OrmField
make_char_field column_name max_length nil =
    set_null nil
      (record (orm_field_base OrmFieldType.char_field column_name) { max_length = some max_length })

-- The length is not used.
unfoldable pub make_int_field : OrmFieldType → String → ℕ → OrmField
make_int_field field_type column_name max_length = orm_field_base field_type column_name

pub record OrmTable : Type 0 where
  pub table_name : String
  pub field_list : List OrmField

abbrev pub orm_table : String → OrmTable
orm_table table_name = record { table_name = table_name; field_list = [] }

unfoldable pub add_field : OrmField → OrmTable → Bool × OrmTable
add_field f t = (true, record t { field_list = t.field_list ++ (f ∷ []) })

abbrev pub field_size : OrmTable → ℕ
field_size t = length t.field_list

abbrev pub nth_field : List OrmField → ℕ → Option OrmField
nth_field [] id = none
nth_field (f ∷ fs) zero = some f
nth_field (f ∷ fs) (suc id) = nth_field fs id

-- `none` is the null pointer.
unfoldable pub get_field : ℕ → OrmTable → Option OrmField
get_field id t = if leb (field_size t) id then none else nth_field t.field_list id

-- What InitFunc of the test chaincode does with the table that it creates.
unfoldable pub init_table : OrmTable → OrmTable
unfolding add_field make_char_field
init_table t =
    let (_, t1) = add_field (make_char_field "key" 200 true) t in
    (add_field (make_char_field "value" 200 true) t1).1

pub data StrFilter : Type 0 where
  equ contains start_with end_with : StrFilter

pub record QueryImpl : Type 0 where
  pub table : String
  pub col : String

abbrev pub new_query : String → QueryImpl
new_query table = record { table = table; col = "" }

-- Neither the attribute nor the relation is used.
abbrev pub filter_str : String → StrFilter → String → QueryImpl → QueryImpl
filter_str attr range arg q = record q { col = arg }

nth_field-old :
    (fs : List OrmField) (f : OrmField) (id : ℕ)
    → id < length fs
    → nth_field (fs ++ (f ∷ [])) id ≡ nth_field fs id
nth_field-old [] f id h = absurd (omega arith)
nth_field-old (g ∷ fs) f zero h = refl
nth_field-old (g ∷ fs) f (suc id) h = nth_field-old fs f id (omega arith)

nth_field-new :
    (fs : List OrmField) (f : OrmField) → nth_field (fs ++ (f ∷ [])) (length fs) ≡ some f
nth_field-new [] f = refl
nth_field-new (g ∷ fs) f = nth_field-new fs f

-- A field that is added is found behind the others, which stay, and behind it there is none.
get_field-add_field :
    (f : OrmField) (t : OrmTable) (id : ℕ)
    → get_field id (add_field f t).1 ≡ (
        if leb (field_size t) id
        then (if leb (field_size t + 1) id then none else some f)
        else get_field id t)
unfolding get_field add_field
get_field-add_field f t id =
    let grown : length (t.field_list ++ (f ∷ [])) ≡ field_size t + 1 =
      length-append t.field_list (f ∷ []) in
    elim (Bool-cases (leb (field_size t) id)) [
      | inr inside ↦
          let still : leb (length (t.field_list ++ (f ∷ []))) id ≡ false =
            ground (arith, inside, grown) in
          rw (inside, get_field, still) (nth_field-old t.field_list f id (ground (arith, inside)))
      | inl outside ↦ elim (Bool-cases (leb (field_size t + 1) id)) [
        | inl beyond ↦
            let still : leb (length (t.field_list ++ (f ∷ []))) id ≡ true =
              ground (arith, beyond, grown) in
            rw (outside, beyond, get_field, still) refl
        | inr at_end ↦
            let is_last : length t.field_list ≡ id = ground (arith, outside, at_end) in
            let still : leb (length (t.field_list ++ (f ∷ []))) id ≡ false =
              ground (arith, at_end, grown) in
            rw (outside, at_end, get_field, still)
              (ap (nth_field (t.field_list ++ (f ∷ []))) (sym is_last)
                ∙ nth_field-new t.field_list f)
      ]
    ]

-- ===== src/Files/Builder.antt =====
-- `string_builder_t` and `builder_reserve`, `builder_append_text` and `builder_append_char`, and
-- the two loops that append a text escaped (src/files.c). Whether `realloc` gives an array of a
-- size is a parameter. `none` is the result 0.
pub mod Grows
pub mod Appends
use mathlib.Core.Option
use final_system_progamming.Common.{
  ℕ, zero, suc, ◌+◌, ◌-◌, ◌*◌, ◌/◌, ◌%◌, Bool, true, false, [], ◌∷◌, ◌++◌, Option, none, some,
  Bytes, ltb, leb, ◌==◌, if◌then◌else◌, length, take, drop, replicate, size_mod, size_max, add_size,
  sub_size,
}
use final_system_progamming.Files.Escape.{url_escape_char, html_escape_char}

-- The bytes of the array, as many as its capacity; of them, `length` are text.
pub record StringBuilder : Type 0 where
  pub data_bytes : Bytes
  pub length_used : ℕ
  pub capacity : ℕ

-- `string_builder_t builder = {0};`
abbrev pub empty_builder : StringBuilder
empty_builder = record { data_bytes = []; length_used = 0; capacity = 0 }

-- The loop that doubles the capacity, on fuel for 64 rounds.
unfoldable pub grow_from : ℕ → ℕ → ℕ → ℕ
grow_from zero new_capacity required = new_capacity
grow_from (suc fuel) new_capacity required =
    let later = grow_from fuel (new_capacity * 2 % size_mod) required in
    if ltb new_capacity required
    then (if ltb (size_max / 2) new_capacity then required else later)
    else new_capacity

unfoldable pub grow_capacity : ℕ → ℕ → ℕ
grow_capacity capacity required = grow_from 64 (if capacity == 0 then 1024 else capacity) required

-- What `realloc` keeps of the array; the bytes behind it are not determined, here they are zeros.
abbrev pub resized : ℕ → Bytes → Bytes
resized size bytes = take size (bytes ++ replicate size 0)

abbrev grown : (ℕ → Bool) → StringBuilder → ℕ → Option StringBuilder
grown realloc builder new_capacity =
    if realloc new_capacity
    then some (record builder {
      data_bytes = resized new_capacity builder.data_bytes;
      capacity = new_capacity;
    })
    else none

unfoldable pub builder_reserve : (ℕ → Bool) → StringBuilder → ℕ → Option StringBuilder
unfolding grow_capacity
builder_reserve realloc builder additional =
    let required = add_size (add_size builder.length_used additional) 1 in
    if ltb (sub_size (sub_size size_max builder.length_used) 1) additional
    then none
    else if leb required builder.capacity
    then some builder
    else grown realloc builder (grow_capacity builder.capacity required)

-- The text and its terminator are written behind the bytes used.
abbrev pub put_text : Bytes → StringBuilder → StringBuilder
put_text text builder =
    let end = builder.length_used + length text in
    record builder {
      data_bytes =
          take builder.length_used builder.data_bytes
          ++ (text ++ 0 ∷ drop (end + 1) builder.data_bytes);
      length_used = add_size builder.length_used (length text);
    }

unfoldable pub builder_append_text : (ℕ → Bool) → StringBuilder → Bytes → Option StringBuilder
unfolding builder_reserve
builder_append_text realloc builder text =
    Option.map (put_text text) (builder_reserve realloc builder (length text))

unfoldable pub builder_append_char : (ℕ → Bool) → StringBuilder → ℕ → Option StringBuilder
unfolding builder_reserve
builder_append_char realloc builder ch =
    Option.map (put_text (ch ∷ [])) (builder_reserve realloc builder 1)

abbrev pub and_then :
    Option StringBuilder → (StringBuilder → Option StringBuilder) → Option StringBuilder
and_then none next = none
and_then (some builder) next = next builder

-- The loop of both escapes: one append for each byte.
unfoldable pub append_each : (ℕ → Bytes) → (ℕ → Bool) → Bytes → StringBuilder → Option StringBuilder
append_each escape realloc [] builder = some builder
append_each escape realloc (p ∷ text) builder =
    and_then (builder_append_text realloc builder (escape p)) (append_each escape realloc text)

abbrev pub builder_append_html_escaped : (ℕ → Bool) → Bytes → StringBuilder → Option StringBuilder
builder_append_html_escaped = append_each html_escape_char

abbrev pub builder_append_url_escaped : (ℕ → Bool) → Bytes → StringBuilder → Option StringBuilder
builder_append_url_escaped = append_each url_escape_char

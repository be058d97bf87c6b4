-- ===== src/Witnesses/Commands.antt =====
-- Commands that src/cbor/MessageEncoder.cpp and src/cbor/MessageDecoder.cpp pack and unpack.
use arduino_io_tcloud.Common.{
  ℕ, ◌≡◌, refl, ap, true, false, Option, none, some, List, [], ◌∷◌, ◌++◌, ℤ, length, ltb,
  if◌then◌else◌, arith,
}
use mathlib.Core.Path.{subst}
use arduino_io_tcloud.Messages.{ota_progress_cmd_up_id, unknown_cmd_id, timezone_command_down_id}
use arduino_io_tcloud.CommandCodec.{to_cbor_command_tag, to_command_id}
use arduino_io_tcloud.CommandCodec.Encoder.{ArrayEncoder, CommandUp, encode}
use arduino_io_tcloud.CommandCodec.Sending.{
  byte_string, simple_value, integer as signed, unsigned, write_command, encode-contents_of,
}
use arduino_io_tcloud.CommandCodec.Decoder.{
  Reader, CommandDown, decode, set_offset, set_until, int32,
}
use arduino_io_tcloud.CommandCodec.Params.{
  Param, bytes, text, integer, is_bytes, is_text, is_number, placed, Moves, Reads, IsPayload,
}
use arduino_io_tcloud.CommandCodec.Receiving.{decode-meaning_of}
use arduino_io_tcloud.CommandCodec.Rounds.{decode-Done}

-- An encoder that keeps what is written to it, up to 16 bytes.
abbrev add : List ℕ → List ℕ → Option (List ℕ)
add b e = if ltb 16 (length (e ++ b)) then none else some (e ++ b)

abbrev bounded : ArrayEncoder (List ℕ)
bounded = record {
  encoder_init = λ size. [];
  encode_tag = λ tag e. add (tag ∷ []) e;
  create_array = λ n e. some (e ++ n ∷ [], []);
  close_container = λ e a. add a e;
  encode_byte_string = λ b e. add (length b ∷ b) e;
  encode_text_stringz = λ s e. add (0 ∷ []) e;
  encode_simple_value = λ n e. add (n ∷ []) e;
  encode_int = λ i e. add (0 ∷ []) e;
  encode_uint = λ n e. add (n ∷ []) e;
  written_bytes = λ e. e;
}

abbrev progress : CommandUp
progress = record {
  id = ota_progress_cmd_up_id;
  lib_version = "2.0";
  thing_id = "";
  sha = [];
  ota_id = 7 ∷ 9 ∷ [];
  state = 3;
  state_data = ℤ.negsuc 4;
  time = 100;
}

encode-contents_of_example :
    encode bounded progress 256 []
    ≡ some (
        write_command bounded 0x010200
          (byte_string (7 ∷ 9 ∷ []) ∷ simple_value 3 ∷ signed (ℤ.negsuc 4) ∷ unsigned 100 ∷ [])
          [])
unfolding to_cbor_command_tag
encode-contents_of_example = encode-contents_of bounded progress 256 []

-- A parser of payloads that hold one tagged array.
data Cursor : Type 0 where
  at_tag at_array : ℕ → List Param → Cursor
  inside : List Param → Cursor
  outside : Cursor

abbrev step_over : Cursor → Option Cursor
step_over (at_tag tag xs) = some (at_array tag xs)
step_over (inside (x ∷ xs)) = some (inside xs)
step_over _ = none

abbrev left_of : Cursor → List Param
left_of (inside xs) = xs
left_of _ = []

abbrev copied : List Param → List ℕ → Option (List ℕ)
copied (bytes b ∷ xs) dest = placed b dest
copied (text b ∷ xs) dest = placed b dest
copied _ dest = none

abbrev duplicated : List Param → Option (List ℕ)
duplicated (bytes b ∷ xs) = some b
duplicated _ = none

abbrev int_of : List Param → Option ℤ
int_of (integer i n ∷ xs) = some i
int_of _ = none

abbrev uint_of : List Param → Option ℕ
uint_of (integer i n ∷ xs) = some n
uint_of _ = none

abbrev ended : List Param → Option Cursor
ended [] = some outside
ended _ = none

abbrev timezone : List Param
timezone = integer (ℤ.negsuc 3599) 3599 ∷ integer (ℤ.pos 1000) 1000 ∷ []

abbrev reader : Reader Cursor
reader = record {
  parser_init = λ payload. some (at_tag 0x010900 timezone);
  is_tag = λ it. elim it [ at_tag tag xs ↦ true | _ ↦ false ];
  get_tag = λ it. elim it [ at_tag tag xs ↦ some tag | _ ↦ none ];
  is_array = λ it. elim it [ at_array tag xs ↦ true | _ ↦ false ];
  is_text_string = λ it. is_text (left_of it);
  is_byte_string = λ it. is_bytes (left_of it);
  is_integer = λ it. is_number (left_of it);
  advance = step_over;
  enter_container = λ it. elim it [ at_array tag xs ↦ some (inside xs) | _ ↦ none ];
  leave_container = λ main it. ended (left_of it);
  get_int64 = λ it. int_of (left_of it);
  get_uint64 = λ it. uint_of (left_of it);
  copy_string = λ it dest. copied (left_of it) dest;
  dup_byte_string = λ it. duplicated (left_of it);
}

abbrev At : Cursor → List Param → Type 0
At (inside ys) xs = ys ≡ xs
At _ xs = ⊥

left_of-At : (it : Cursor) (xs : List Param) → At it xs → left_of it ≡ xs
left_of-At (inside ys) xs h = h
left_of-At (at_tag tag ys) xs h = absurd h
left_of-At (at_array tag ys) xs h = absurd h
left_of-At outside xs h = absurd h

moves : (ys : List Param) → Moves At (step_over (inside ys)) ys
moves [] = tt
moves (y ∷ ys) = refl

step_over-At : (it : Cursor) (xs : List Param) → At it xs → Moves At (step_over it) xs
step_over-At (inside ys) xs h = subst (Moves At (step_over (inside ys))) h (moves ys)
step_over-At (at_tag tag ys) xs h = absurd h
step_over-At (at_array tag ys) xs h = absurd h
step_over-At outside xs h = absurd h

reads : Reads reader At
reads = record {
  reads_text = λ it xs h. ap is_text (left_of-At it xs h);
  reads_bytes = λ it xs h. ap is_bytes (left_of-At it xs h);
  reads_number = λ it xs h. ap is_number (left_of-At it xs h);
  advances = step_over-At;
  leaves = λ main it h. (outside, ap ended (left_of-At it [] h));
  copies_text = λ it b xs dest h. ap (λ ys. copied ys dest) (left_of-At it _ h);
  copies_bytes = λ it b xs dest h. ap (λ ys. copied ys dest) (left_of-At it _ h);
  duplicates = λ it b xs h. ap duplicated (left_of-At it _ h);
  gets_int64 = λ it i n xs h. ap int_of (left_of-At it _ h);
  gets_uint64 = λ it i n xs h. ap uint_of (left_of-At it _ h);
}

abbrev memory : CommandDown
memory = record {
  id = unknown_cmd_id;
  thing_id = [];
  offset = 0;
  until = 0;
  last_values = [];
  ota_id = [];
  url = [];
  initial_sha256 = [];
  final_sha256 = [];
}

payload : IsPayload reader At (1 ∷ []) 0x010900 timezone
payload = record {
  main_iter = at_tag 0x010900 timezone;
  in_main = at_array 0x010900 timezone;
  in_array = inside timezone;
  parses = refl;
  is_tagged = refl;
  has_tag = refl;
  advances_to = refl;
  has_array = refl;
  enters = refl;
  at_params = refl;
}

-- An hour west of Greenwich.
decode-meaning_of_example :
    decode reader outside memory (1 ∷ [])
    ≡ some
        (some (record memory { id = timezone_command_down_id; offset = 4294963696; until = 1000 }))
unfolding to_command_id set_until set_offset int32
decode-meaning_of_example =
    decode-meaning_of reader At reads outside memory (1 ∷ []) 0x010900 timezone payload
      (omega arith)

decode-Done_example : (o : Option CommandDown) × (decode reader outside memory (2 ∷ []) ≡ some o)
decode-Done_example = decode-Done reader outside memory (2 ∷ [])

-- ===== src/CommandCodec/Params.antt =====
-- The parameters of a command from the cloud, as src/cbor/MessageDecoder.cpp finds them in its
-- payload, and the documented behaviour of the calls of tinycbor on a well-formed payload.
use arduino_io_tcloud.Common.{
  ℕ, suc, ◌≡◌, Bool, true, false, Option, none, some, List, [], ◌∷◌, ℤ, ◌>>=◌, length, leb, drop,
  ◌++◌, ltb, if◌then◌else◌,
}
use arduino_io_tcloud.Messages.{
  CommandId, thing_update_cmd_id, thing_detach_cmd_id, last_values_update_cmd_id,
  ota_update_cmd_down_id, timezone_command_down_id,
}
use arduino_io_tcloud.CommandCodec.Decoder.{Reader, CommandDown, set_offset, set_until}

-- A parameter in the payload; of an integer, what the two calls that read it give.
pub data Param : Type 0 where
  bytes text : List ℕ → Param
  integer : ℤ → ℕ → Param
  other_param : Param

abbrev pub is_bytes : List Param → Bool
is_bytes (bytes b ∷ _) = true
is_bytes _ = false

abbrev pub is_text : List Param → Bool
is_text (text b ∷ _) = true
is_text _ = false

abbrev pub is_number : List Param → Bool
is_number (integer i n ∷ _) = true
is_number _ = false

-- A string that is copied to an array: a terminator follows where there is room.
abbrev pub placed : List ℕ → List ℕ → Option (List ℕ)
placed b dest =
    if leb (length b) (length dest)
    then some (b ++ (if ltb (length b) (length dest) then 0 ∷ drop (suc (length b)) dest else []))
    else none

abbrev pub bytes_at : List Param → List ℕ → Option (List ℕ)
bytes_at (bytes b ∷ _) dest = placed b dest
bytes_at _ dest = none

abbrev pub text_at : List Param → List ℕ → Option (List ℕ)
text_at (text b ∷ _) dest = placed b dest
text_at _ dest = none

abbrev pub rest_of : List Param → Option (List Param)
rest_of [] = none
rest_of (x ∷ xs) = some xs

-- The message is complete if its last parameter is there.
abbrev pub if_present : List Param → CommandDown → Option CommandDown
if_present [] m = none
if_present (x ∷ xs) m = some m

abbrev pub offset_at : List Param → CommandDown → CommandDown
offset_at (integer i n ∷ _) m = set_offset (some i) m
offset_at _ m = m

abbrev pub until_at : List Param → CommandDown → CommandDown
until_at (integer i n ∷ _) m = set_until (some n) m
until_at _ m = m

abbrev pub last_values_at : List Param → CommandDown → CommandDown
last_values_at (bytes b ∷ _) m = record m { last_values = b }
last_values_at _ m = m

-- The message that parameters make of the memory `m`.
abbrev pub meaning : CommandId → List Param → CommandDown → Option CommandDown
meaning thing_update_cmd_id xs m =
    text_at xs m.thing_id >>= λ b. if_present xs (record m { thing_id = b })
meaning thing_detach_cmd_id xs m =
    text_at xs m.thing_id >>= λ b. if_present xs (record m { thing_id = b })
meaning timezone_command_down_id xs m =
    rest_of xs >>= λ ys. if_present ys (until_at ys (offset_at xs m))
meaning last_values_update_cmd_id xs m = if_present xs (last_values_at xs m)
meaning ota_update_cmd_down_id xs m = bytes_at xs m.ota_id >>= λ id. rest_of xs >>= λ ys.
    text_at ys m.url >>= λ url. rest_of ys >>= λ zs. bytes_at zs m.initial_sha256 >>= λ initial.
    rest_of zs >>= λ ws. bytes_at ws m.final_sha256 >>= λ final.
    if_present ws
      (record m { ota_id = id; url = url; initial_sha256 = initial; final_sha256 = final })
meaning _ xs m = none

-- How many parameters a command has.
abbrev pub arity : CommandId → ℕ
arity timezone_command_down_id = 2
arity ota_update_cmd_down_id = 4
arity _ = 1

-- Where an iterator stands after `cbor_value_advance`.
abbrev pub Moves : {I : Type 0} → (I → List Param → Type 0) → Option I → List Param → Type 0
Moves At none [] = Unit {0}
Moves At none (x ∷ xs) = ⊥
Moves At (some it) [] = ⊥
Moves At (some it) (x ∷ xs) = At it xs

-- `At it xs`: the iterator `it` stands in an array, with the parameters `xs` to come.
pub record Reads {I : Type 0} (r : Reader I) (At : I → List Param → Type 0) : Type 0 where
  pub reads_text : (it : I) (xs : List Param) → At it xs → r.is_text_string it ≡ is_text xs
  pub reads_bytes : (it : I) (xs : List Param) → At it xs → r.is_byte_string it ≡ is_bytes xs
  pub reads_number : (it : I) (xs : List Param) → At it xs → r.is_integer it ≡ is_number xs
  pub advances : (it : I) (xs : List Param) → At it xs → Moves At (r.advance it) xs
  pub leaves : (main it : I) → At it [] → (jt : I) × (r.leave_container main it ≡ some jt)
  pub copies_text :
      (it : I) (b : List ℕ) (xs : List Param) (dest : List ℕ)
      → At it (text b ∷ xs)
      → r.copy_string it dest ≡ placed b dest
  pub copies_bytes :
      (it : I) (b : List ℕ) (xs : List Param) (dest : List ℕ)
      → At it (bytes b ∷ xs)
      → r.copy_string it dest ≡ placed b dest
  pub duplicates :
      (it : I) (b : List ℕ) (xs : List Param) → At it (bytes b ∷ xs) → r.dup_byte_string it ≡ some b
  pub gets_int64 :
      (it : I) (i : ℤ) (n : ℕ) (xs : List Param)
      → At it (integer i n ∷ xs)
      → r.get_int64 it ≡ some i
  pub gets_uint64 :
      (it : I) (i : ℤ) (n : ℕ) (xs : List Param)
      → At it (integer i n ∷ xs)
      → r.get_uint64 it ≡ some n

-- A payload of a tag and an array of these parameters.
pub record IsPayload {I : Type 0} (r : Reader I) (At : I → List Param → Type 0) (payload : List ℕ)
    (tag : ℕ) (xs : List Param) : Type 0 where
  pub main_iter : I
  pub in_main : I
  pub in_array : I
  pub parses : r.parser_init payload ≡ some main_iter
  pub is_tagged : r.is_tag main_iter ≡ true
  pub has_tag : r.get_tag main_iter ≡ some tag
  pub advances_to : r.advance main_iter ≡ some in_main
  pub has_array : r.is_array in_main ≡ true
  pub enters : r.enter_container in_main ≡ some in_array
  pub at_params : At in_array xs

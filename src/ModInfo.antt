-- ===== src/ModInfo.antt =====
-- mod_info.h in server/src: the attributes of a module, packed in bytes.
pub mod Coding
mod Tests
use bootstrap.Prelude.{
  ℕ, zero, suc, ◌+◌, ◌-◌, ◌*◌, ◌/◌, ◌%◌, ◌^◌, Bool, true, false, ◌&&◌, Option, none, some, List, [],
  ◌∷◌, ◌++◌, Result, ok, err, ◌>>=◌, ltb, leb, ◌==◌, if◌then◌else◌, take, drop, bit_or, out_of_fuel,
}

-- `Mod_attr`
pub record ModAttr : Type 0 where
  pub key : List ℕ
  pub val : List ℕ

-- The head byte of a descriptor.
abbrev pub key_len_exp : ℕ → ℕ
key_len_exp d = d % 4

abbrev pub val_len_exp : ℕ → ℕ
val_len_exp d = d / 4 % 4

abbrev pub key_len_size : ℕ → ℕ
key_len_size d = 2 ^ key_len_exp d

abbrev pub val_len_size : ℕ → ℕ
val_len_size d = 2 ^ val_len_exp d

-- The byte at a pointer, with 0 behind the memory that is modelled.
abbrev pub head_byte : List ℕ → ℕ
head_byte [] = 0
head_byte (d ∷ ds) = d

-- `Descriptor::valid`
abbrev pub valid : List ℕ → Bool
valid bytes = head_byte bytes / 128 % 2 == 1

-- `operator ==` of strings.
unfoldable pub same_text : List ℕ → List ℕ → Bool
same_text [] [] = true
same_text [] (c ∷ cs) = false
same_text (b ∷ bs) [] = false
same_text (b ∷ bs) (c ∷ cs) = (b == c) && same_text bs cs

-- The loop of `Mod_attr_list::find` over the attributes.
unfoldable pub find_attr : List ℕ → List ModAttr → List ℕ
unfolding same_text
find_attr key [] = []
find_attr key (a ∷ others) =
    let rest = find_attr key others in if same_text a.key key then a.val else rest

-- `Mod_attr_list (kvs)`: the first descriptor, behind the magic letters.
abbrev pub attr_head : List ℕ → List ℕ
attr_head kvs = if same_text (take 4 kvs) (65 ∷ 84 ∷ 84 ∷ 82 ∷ []) then drop 4 kvs else []

-- The shift of an `int` is undefined from 32 bits on: the parameter is what the compiled code
-- computes there.
module _ (undefined_shift : ℕ → ℕ → ℕ) where
  -- `d[i] << (8 * i)` as `unsigned long`: the sign of the `int` is extended.
  abbrev pub shifted : ℕ → ℕ → ℕ
  shifted zero d = d
  shifted (suc zero) d = d * 2 ^ 8
  shifted (suc (suc zero)) d = d * 2 ^ 16
  shifted (suc (suc (suc zero))) d =
      if ltb d 128 then d * 2 ^ 24 else d * 2 ^ 24 + (2 ^ 64 - 2 ^ 32)
  shifted (suc (suc (suc (suc i)))) d = undefined_shift i d

  -- The loop of `key_size` and `val_size`: so many bytes from a pointer on, from the byte `i`.
  unfoldable pub size_loop : ℕ → ℕ → ℕ → List ℕ → ℕ
  size_loop zero i size bytes = size
  size_loop (suc n) i size bytes =
      size_loop n (suc i) (bit_or size (shifted i (head_byte bytes))) (drop 1 bytes)

  abbrev pub key_size : List ℕ → ℕ
  key_size bytes = size_loop (key_len_size (head_byte bytes)) 0 0 (drop 1 bytes)

  abbrev pub val_size : List ℕ → ℕ
  val_size bytes =
      size_loop (val_len_size (head_byte bytes)) 0 0
        (drop (1 + key_len_size (head_byte bytes)) bytes)

  abbrev pub header_size : List ℕ → ℕ
  header_size bytes = 1 + key_len_size (head_byte bytes) + val_len_size (head_byte bytes)

  -- `Descriptor::key`, `Descriptor::val` and `Descriptor::next`
  abbrev pub attr_key : List ℕ → List ℕ
  attr_key bytes = take (key_size bytes) (drop (header_size bytes) bytes)

  abbrev pub attr_val : List ℕ → List ℕ
  attr_val bytes = take (val_size bytes) (drop (header_size bytes + key_size bytes) bytes)

  abbrev pub next : List ℕ → List ℕ
  next bytes = drop (header_size bytes + key_size bytes + val_size bytes) bytes

  -- The attributes that the iterator visits, from a descriptor on.
  unfoldable pub visited : ℕ → List ℕ → Result (List ModAttr)
  unfolding size_loop
  visited zero bytes = err out_of_fuel
  visited (suc fuel) bytes =
      let rest = visited fuel (next bytes) >>= λ others.
      ok (record { key = attr_key bytes; val = attr_val bytes } ∷ others) in
      if valid bytes then rest else ok []

  -- `Mod_attr_list::find`
  unfoldable pub find_in_list : ℕ → List ℕ → List ℕ → Result (List ℕ)
  unfolding visited find_attr
  find_in_list fuel kvs key = visited fuel (attr_head kvs) >>= λ others. ok (find_attr key others)

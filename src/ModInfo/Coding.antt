-- ===== src/ModInfo/Coding.antt =====
-- What the packed attributes mean: they are read as they were written.
use bootstrap.Prelude.{
  ℕ, zero, suc, ◌+◌, ◌*◌, ◌/◌, ◌%◌, ◌^◌, ◌<◌, ◌≡◌, refl, sym, ap, ◌∙◌, true, List, [], ◌∷◌, ◌++◌,
  arith, ok, ltb, lt→ltb, length, take, drop, bit_or, le_bytes, length-le_bytes, drop-after,
  take-before, drop-append, append_assoc,
}
use bootstrap.GccLib.Bits.{or_below, or_zero}
use bootstrap.ModInfo.{
  ModAttr, size_loop, head_byte, visited, key_size, val_size, header_size, attr_key, attr_val, next,
  valid, key_len_exp, val_len_exp, key_len_size, val_len_size, find_in_list, find_attr, same_text,
}

-- An attribute with the widths chosen for its two lengths: one, two or four bytes, as powers of 2.
pub record Packed : Type 0 where
  pub key : List ℕ
  pub val : List ℕ
  pub key_exp : ℕ
  pub val_exp : ℕ

-- The bytes of an attribute, as the format has them.
abbrev pub pack : Packed → List ℕ
pack p =
    (128 + p.val_exp * 4 + p.key_exp)
    ∷ (le_bytes (2 ^ p.key_exp) (length p.key)
        ++ (le_bytes (2 ^ p.val_exp) (length p.val) ++ (p.key ++ p.val)))

-- Attributes in turn, with a byte behind them that is no descriptor.
abbrev pub pack_all : List Packed → List ℕ
pack_all [] = 0 ∷ []
pack_all (p ∷ ps) = pack p ++ pack_all ps

abbrev pub attr_of : Packed → ModAttr
attr_of p = record { key = p.key; val = p.val }

abbrev pub attrs_of : List Packed → List ModAttr
attrs_of [] = []
attrs_of (p ∷ ps) = attr_of p ∷ attrs_of ps

-- A length fits into a width of at most four bytes, and below the sign.
abbrev pub FitsIn : ℕ → ℕ → Type 0
FitsIn n e = (e < 3) × ((n < 256 ^ (2 ^ e)) × (n < 2 ^ 31))

abbrev pub AllFit : List Packed → Type 0
AllFit [] = Unit
AllFit (p ∷ ps) = (FitsIn (length p.key) p.key_exp × FitsIn (length p.val) p.val_exp) × AllFit ps

module _ (undefined_shift : ℕ → ℕ → ℕ) where
  -- A length is read as it was written.
  size_read :
      (e n : ℕ) (rest : List ℕ)
      → FitsIn n e
      → size_loop undefined_shift (2 ^ e) 0 0 (le_bytes (2 ^ e) n ++ rest) ≡ n
  unfolding size_loop le_bytes
  size_read zero n rest h = or_zero (n % 256) ∙ omega (arith, h.1)
  size_read (suc zero) n rest h =
      ap (λ b. bit_or b (n / 256 % 256 * 2 ^ 8)) (or_zero (n % 256))
      ∙ or_below 8 (n / 256 % 256) (n % 256) (omega arith)
      ∙ omega (arith, h.1)
  size_read (suc (suc zero)) n rest h =
      let b = n % 256 in
      let c = n / 256 % 256 in
      let d = n / 256 / 256 % 256 in
      let e = n / 256 / 256 / 256 % 256 in
      let one : bit_or (bit_or 0 b) (c * 2 ^ 8) ≡ b + c * 2 ^ 8 =
        ap (λ x. bit_or x (c * 2 ^ 8)) (or_zero b) ∙ or_below 8 c b (omega arith) in
      let two : bit_or (bit_or (bit_or 0 b) (c * 2 ^ 8)) (d * 2 ^ 16) ≡ b + c * 2 ^ 8 + d * 2 ^ 16 =
        ap (λ x. bit_or x (d * 2 ^ 16)) one ∙ or_below 16 d (b + c * 2 ^ 8) (omega arith) in
      let positive : ltb e 128 ≡ true = lt→ltb e 128 (omega (arith, h.1)) in
      rw (positive) (
        ap (λ x. bit_or x (e * 2 ^ 24)) two
        ∙ or_below 24 e (b + c * 2 ^ 8 + d * 2 ^ 16) (omega arith)
        ∙ omega (arith, h.1))
  size_read (suc (suc (suc e))) n rest h = absurd (omega (arith, h.0))

-- A list cut behind a part of known length.
drop-part :
    {A : Type 0} (n m : ℕ) (xs ys : List A) → length xs ≡ n → drop (n + m) (xs ++ ys) ≡ drop m ys
drop-part n m xs ys e =
    drop-append (n + m) xs ys (omega (arith, e)) ∙ ap (λ k. drop k ys) (omega (arith, e))

drop-exact : {A : Type 0} (n : ℕ) (xs ys : List A) → length xs ≡ n → drop n (xs ++ ys) ≡ ys
drop-exact n xs ys e = ap (λ k. drop k (xs ++ ys)) (sym e) ∙ drop-after xs ys

module _ (undefined_shift : ℕ → ℕ → ℕ) (p : Packed) (rest : List ℕ)
    (k : FitsIn (length p.key) p.key_exp) (v : FitsIn (length p.val) p.val_exp) where
  bytes : List ℕ
  bytes = pack p ++ rest

  key_field : List ℕ
  key_field = le_bytes (2 ^ p.key_exp) (length p.key)

  val_field : List ℕ
  val_field = le_bytes (2 ^ p.val_exp) (length p.val)

  parts : List ℕ
  parts = key_field ++ (val_field ++ (p.key ++ (p.val ++ rest)))

  behind_head : (m : ℕ) → drop (1 + m) bytes ≡ drop m parts
  unfolding bytes parts key_field val_field
  behind_head m =
      let e : 1 + m ≡ suc m = omega arith in
      ap (λ n. drop n bytes) e
      ∙ ap (drop m) (
          append_assoc key_field (val_field ++ (p.key ++ p.val)) rest
          ∙ ap (λ r. key_field ++ r)
              (append_assoc val_field (p.key ++ p.val) rest
                ∙ ap (λ r. val_field ++ r) (append_assoc p.key p.val rest)))

  key_exp_is : key_len_exp (head_byte bytes) ≡ p.key_exp
  unfolding bytes
  key_exp_is = omega (arith, k.0)

  val_exp_is : val_len_exp (head_byte bytes) ≡ p.val_exp
  unfolding bytes
  val_exp_is = omega (arith, k.0, v.0)

  is_valid : valid bytes ≡ true
  unfolding bytes
  is_valid = ground (arith, k.0, v.0)

  key_width : length key_field ≡ key_len_size (head_byte bytes)
  unfolding key_field
  key_width = length-le_bytes (2 ^ p.key_exp) (length p.key) ∙ ap (λ e. 2 ^ e) (sym key_exp_is)

  val_width : length val_field ≡ val_len_size (head_byte bytes)
  unfolding val_field
  val_width = length-le_bytes (2 ^ p.val_exp) (length p.val) ∙ ap (λ e. 2 ^ e) (sym val_exp_is)

  key_size_is : key_size undefined_shift bytes ≡ length p.key
  unfolding parts key_field
  key_size_is =
      ap (λ e. size_loop undefined_shift (2 ^ e) 0 0 (drop 1 bytes)) key_exp_is
      ∙ ap (size_loop undefined_shift (2 ^ p.key_exp) 0 0) (behind_head 0)
      ∙ size_read undefined_shift p.key_exp (length p.key) (val_field ++ (p.key ++ (p.val ++ rest)))
          k

  val_size_is : val_size undefined_shift bytes ≡ length p.val
  unfolding parts val_field
  val_size_is =
      ap
        (λ e.
          size_loop undefined_shift (2 ^ e) 0 0 (drop (1 + key_len_size (head_byte bytes)) bytes))
        val_exp_is
      ∙ ap (size_loop undefined_shift (2 ^ p.val_exp) 0 0) (
          behind_head (key_len_size (head_byte bytes))
          ∙ ap (λ n. drop n parts) (omega arith)
          ∙ drop-part (key_len_size (head_byte bytes)) 0 key_field
              (val_field ++ (p.key ++ (p.val ++ rest))) key_width)
      ∙ size_read undefined_shift p.val_exp (length p.val) (p.key ++ (p.val ++ rest)) v

  -- Behind the header and a number of bytes.
  behind_header :
      (m : ℕ)
      → drop (header_size undefined_shift bytes + m) bytes ≡ drop m (p.key ++ (p.val ++ rest))
  unfolding parts
  behind_header m =
      ap (λ n. drop n bytes) (omega arith)
      ∙ behind_head (key_len_size (head_byte bytes) + (val_len_size (head_byte bytes) + m))
      ∙ drop-part (key_len_size (head_byte bytes)) (val_len_size (head_byte bytes) + m) key_field
          (val_field ++ (p.key ++ (p.val ++ rest))) key_width
      ∙ drop-part (val_len_size (head_byte bytes)) m val_field (p.key ++ (p.val ++ rest)) val_width

  attr_key_is : attr_key undefined_shift bytes ≡ p.key
  attr_key_is =
      ap (λ n. take n (drop (header_size undefined_shift bytes) bytes)) key_size_is
      ∙ ap (take (length p.key)) (ap (λ n. drop n bytes) (omega arith) ∙ behind_header 0)
      ∙ take-before p.key (p.val ++ rest)

  attr_val_is : attr_val undefined_shift bytes ≡ p.val
  attr_val_is =
      ap
        (λ n.
          take n (drop (header_size undefined_shift bytes + key_size undefined_shift bytes) bytes))
        val_size_is
      ∙ ap (take (length p.val)) (
          behind_header (key_size undefined_shift bytes)
          ∙ drop-exact (key_size undefined_shift bytes) p.key (p.val ++ rest) (sym key_size_is))
      ∙ take-before p.val rest

  next_is : next undefined_shift bytes ≡ rest
  next_is =
      ap (λ n. drop n bytes) (omega arith)
      ∙ behind_header (key_size undefined_shift bytes + val_size undefined_shift bytes)
      ∙ drop-part (key_size undefined_shift bytes) (val_size undefined_shift bytes) p.key
          (p.val ++ rest) (sym key_size_is)
      ∙ drop-exact (val_size undefined_shift bytes) p.val rest (sym val_size_is)

-- The iterator visits exactly the attributes that were packed, in their order, and ends: the
-- lengths are below 2 GiB, each in a field of one, two or four bytes that it fits into, and a byte
-- that is no descriptor stands behind them.
pub visited-pack_all :
    (undefined_shift : ℕ → ℕ → ℕ) (fuel : ℕ) (ps : List Packed)
    → AllFit ps
    → length ps < fuel
    → visited undefined_shift fuel (pack_all ps) ≡ ok (attrs_of ps)
unfolding visited bytes
visited-pack_all u zero ps f h = absurd (omega arith)
visited-pack_all u (suc fuel) [] f h = refl
visited-pack_all u (suc fuel) (p ∷ ps) f h =
    let rest = pack_all ps in
    let v : valid (pack p ++ rest) ≡ true = is_valid u p rest f.0.0 f.0.1 in
    let n : next u (pack p ++ rest) ≡ rest = next_is u p rest f.0.0 f.0.1 in
    let k : attr_key u (pack p ++ rest) ≡ p.key = attr_key_is u p rest f.0.0 f.0.1 in
    let l : attr_val u (pack p ++ rest) ≡ p.val = attr_val_is u p rest f.0.0 f.0.1 in
    rw (v, n, k, l, visited-pack_all u fuel ps f.1 (omega arith)) refl

-- What `find` returns is the value of the first packed attribute with that key, or the empty text;
-- the conditions are the same.
pub find_in_list-pack_all :
    (undefined_shift : ℕ → ℕ → ℕ) (fuel : ℕ) (ps : List Packed) (key : List ℕ)
    → AllFit ps
    → length ps < fuel
    → find_in_list undefined_shift fuel (65 ∷ 84 ∷ 84 ∷ 82 ∷ pack_all ps) key
      ≡ ok (find_attr key (attrs_of ps))
unfolding find_in_list same_text
find_in_list-pack_all u fuel ps key f h = rw (visited-pack_all u fuel ps f h) refl

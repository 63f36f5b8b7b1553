-- ===== src/BootModules/Room.antt =====
-- Room for the regions of the modules in `regions`, which `_move_module` adds.
use bootstrap.Prelude.{
  ℕ, ◌+◌, ◌-◌, ◌≤◌, ◌<◌, ◌^◌, ◌≡◌, refl, ◌⊎◌, inl, inr, ◌∙◌, none, false, ok, ◌>>=◌, arith,
  word_max, length, Bool-cases, ltb,
}
use bootstrap.Align.{Align}
use bootstrap.Region.{Region, RegionType, start_size, region, size}
use bootstrap.RegionList.{RegionList, find, add, add_nolimitcheck, limit_address, limit_size}
use bootstrap.RegionList.Order.{Above, AllRanges-Above, covered, find-none_iff}
use bootstrap.RegionList.Insert.{insert_free, covered-place, length-place}
use bootstrap.RegionList.Add.{IsUnlimited, add_unlimited, add_nolimitcheck_free}

-- A list without limits and in order, with room for a number of regions of so many bytes.
pub record HasRoom (l : RegionList) (n bytes : ℕ) : Type 0 where
  pub unlimited : IsUnlimited l
  pub sorted : Above 0 l.regs
  pub slots : length l.regs + n ≤ l.max
  pub account : l.combined_size + bytes < word_max

-- What one more region leaves.
pub record Added (l l' : RegionList) (dest bytes n left : ℕ) : Type 0 where
  pub room : HasRoom l' n left
  pub outside : (x : ℕ) → (x < dest) ⊎ (dest + bytes ≤ x) → covered l'.regs x ≡ covered l.regs x

module _ (a : Align) where
  -- A region of one byte is dropped.
  add_drops :
      (l : RegionList) (r : Region)
      → IsUnlimited l
      → r.end < 2 ^ 64
      → r.begin ≡ r.end
      → l.combined_size + 1 ≤ word_max
      → add a l r false ≡ ok l
  unfolding add limit_address limit_size add_nolimitcheck size
  add_drops l r u w e c = ground (arith, u.address, u.combined)

  size_of_bytes :
      (r : Region) (bytes : ℕ)
      → r.end < 2 ^ 64
      → r.begin + bytes ≡ r.end + 1
      → 0 < bytes
      → bytes < 2 ^ 64
      → size r ≡ bytes
  unfolding size
  size_of_bytes r bytes w e z f = omega (arith, e, z, w)

  add_long :
      (l : RegionList) (r : Region) (bytes n left : ℕ)
      → HasRoom l (n + 1) (bytes + left)
      → r.end < 2 ^ 64
      → r.begin + bytes ≡ r.end + 1
      → r.begin < r.end
      → find l.regs r ≡ none
      → (l' : RegionList) × (add a l r false ≡ ok l') × Added l l' r.begin bytes n left
  add_long l r bytes n left h w e lt miss = (
    _,
    add_unlimited a l r false h.unlimited k lt (omega (arith, h.account))
          (omega (arith, h.account, sizes))
        ∙ add_nolimitcheck_free a l r false h.sorted k lt (omega (arith, h.slots)) miss,
    record {
      room = record {
        unlimited = record { address = h.unlimited.address; combined = h.unlimited.combined };
        sorted = (insert_free l.regs r false h.sorted k miss).1;
        slots = omega (arith, length-place l.regs r, h.slots);
        account = omega (arith, sizes, h.account);
      };
      outside = λ x out. covered-place l.regs r x ∙ ground (arith, out, e);
    },
  )
    where
      k : (r.begin ≤ r.end) × (r.end < 2 ^ 64)
      k = (omega (arith, lt), w)

      sizes : size r ≡ bytes
      sizes = size_of_bytes r bytes w e (omega (arith, lt, e)) (omega (arith, h.account))

  add_room :
      (l : RegionList) (r : Region) (bytes n left : ℕ)
      → HasRoom l (n + 1) (bytes + left)
      → r.end < 2 ^ 64
      → r.begin + bytes ≡ r.end + 1
      → 0 < bytes
      → ((x : ℕ) → r.begin ≤ x → x < r.begin + bytes → covered l.regs x ≡ false)
      → (l' : RegionList) × (add a l r false ≡ ok l') × Added l l' r.begin bytes n left
  add_room l r bytes n left h w e z free = elim (Bool-cases (ltb r.begin r.end)) [
    | inl lt ↦ add_long l r bytes n left h w e (ground (arith, lt)) (
        (find-none_iff l.regs r (AllRanges-Above 0 l.regs h.sorted) (omega (arith, e, z))).1
          (λ x hx. free x (ground (arith, hx)) (ground (arith, hx, e))))
    | inr ge ↦ (
      l,
      add_drops l r h.unlimited w (ground (arith, ge, e, z)) (omega (arith, h.account, z)),
      record {
        room = record {
          unlimited = h.unlimited;
          sorted = h.sorted;
          slots = omega (arith, h.slots);
          account = omega (arith, h.account);
        };
        outside = λ x out. refl;
      },
    )
  ]

  -- Adding the region of a module to a list with room, where nothing is covered, returns.
  pub place_room :
      (l : RegionList) (dest bytes name : ℕ) (type : RegionType) (subtype n left : ℕ)
      → HasRoom l (n + 1) (bytes + left)
      → dest + bytes < 2 ^ 64
      → 0 < bytes
      → ((x : ℕ) → dest ≤ x → x < dest + bytes → covered l.regs x ≡ false)
      → (l' : RegionList) × ((start_size dest bytes name type subtype false >>= λ r.
            add a l r false)
          ≡ ok l')
        × Added l l' dest bytes n left
  unfolding start_size region
  place_room l dest bytes name type subtype n left h w z free =
      rw made (add_room l new bytes n left h (omega (arith, w)) (omega (arith, z)) z free)
    where
      new : Region
      new = record {
        begin = dest;
        end = dest + bytes - 1;
        name = name;
        type = type;
        sub_type = subtype;
        eager = false;
      }

      made : start_size dest bytes name type subtype false ≡ ok new
      made = ground (arith, w, z)

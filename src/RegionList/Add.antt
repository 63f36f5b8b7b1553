-- ===== src/RegionList/Add.antt =====
-- `Region_list::add` and `add_nolimitcheck`: what is added, what is cut off, and what stops the
-- machine.
use bootstrap.Prelude.{
  ℕ, ◌+◌, ◌-◌, ◌≤◌, ◌<◌, ◌^◌, ◌%◌, ◌≡◌, refl, ◌⊎◌, inl, inr, ◌∙◌, Bool, false, ◌||◌, Option, none,
  some, ok, err, assertion, region_overlap, arith, word_max, Bool-cases, length, >>=-eq-ok, ap,
}
use bootstrap.Align.{Align}
use bootstrap.Region.{Region, holds, set_end, size, IsRange, invalid}
use bootstrap.RegionList.{
  RegionList, find, make_room, add_nolimitcheck, add, limit_address, limit_size, add_limited,
  add_placed,
}
use bootstrap.RegionList.Order.{Above, covered}
use bootstrap.RegionList.Insert.{place, insert_free, insert_overlap, covered-place}

-- A list that was set up without limits.
pub record IsUnlimited (l : RegionList) : Type 0 where
  pub address : l.address_limit ≡ word_max
  pub combined : l.max_combined_size ≡ word_max

module _ (a : Align) where
  -- With room in the store, a region of two bytes or more that overlaps none is inserted.
  pub add_nolimitcheck_free :
      (l : RegionList) (r : Region) (m : Bool)
      → Above 0 l.regs
      → IsRange r
      → r.begin < r.end
      → length l.regs < l.max
      → find l.regs r ≡ none
      → add_nolimitcheck a l r m
        ≡ ok (record l {
          regs = place l.regs r;
          combined_size = (l.combined_size + size r) % 2 ^ 64;
        })
  unfolding add_nolimitcheck make_room
  add_nolimitcheck_free l r m v k s room e = ground (arith, (insert_free l.regs r m v k e).0)

  pub add_nolimitcheck_overlap :
      (l : RegionList) (r z : Region)
      → Above 0 l.regs
      → r.begin < r.end
      → length l.regs < l.max
      → find l.regs r ≡ some z
      → add_nolimitcheck a l r false ≡ err region_overlap
  unfolding add_nolimitcheck make_room
  add_nolimitcheck_overlap l r z v s room e = ground (arith, insert_overlap l.regs r z v e)

  pub add_unlimited :
      (l : RegionList) (r : Region) (m : Bool)
      → IsUnlimited l
      → IsRange r
      → r.begin < r.end
      → l.combined_size < word_max
      → l.combined_size + size r < 2 ^ 64
      → add a l r m ≡ add_nolimitcheck a l r m
  unfolding add limit_address limit_size size
  add_unlimited l r m u k s c = ground arith

  -- For a region that begins exactly at an address limit that is set and ends behind it, `add`
  -- fails an assertion.
  add_at_limit :
      (l : RegionList) (r : Region) (m : Bool)
      → 0 < l.address_limit
      → l.address_limit < 2 ^ 64
      → r.begin ≡ l.address_limit
      → l.address_limit < r.end
      → add a l r m ≡ err assertion
  unfolding add limit_address set_end
  add_at_limit l r m h w e k = ground arith

  -- `add_nolimitcheck` accounts for the region, or drops it.
  combined-add_nolimitcheck :
      (l l' : RegionList) (r : Region) (m : Bool)
      → add_nolimitcheck a l r m ≡ ok l'
      → (l'.max_combined_size ≡ l.max_combined_size)
        × ((l'.combined_size ≡ l.combined_size)
            ⊎ (l'.combined_size ≡ (l.combined_size + size r) % 2 ^ 64))
  unfolding add_nolimitcheck make_room
  combined-add_nolimitcheck l l' r m e = ground arith

  -- What `limit_size` lets through fits under the limit, to the byte.
  limit_size-le :
      (l : RegionList) (r r' : Region)
      → IsRange r
      → l.max_combined_size < 2 ^ 64
      → l.combined_size + (r.end - r.begin + 1) < 2 ^ 64
      → limit_size l r ≡ ok (some r')
      → l.combined_size + size r' ≤ l.max_combined_size
  unfolding limit_size set_end size
  limit_size-le l r r' k w h e = ground arith

  limit_address-IsRange :
      (l : RegionList) (r r' : Region)
      → IsRange r
      → 0 < l.address_limit
      → l.address_limit < 2 ^ 64
      → l.combined_size + (r.end - r.begin + 1) < 2 ^ 64
      → limit_address l r ≡ ok (some r')
      → IsRange r' × (l.combined_size + (r'.end - r'.begin + 1) < 2 ^ 64)
  unfolding limit_address set_end
  limit_address-IsRange l r r' k z w h e = ground arith

  add_limited-le :
      (l l' : RegionList) (m : Bool) (o : Option Region)
      → l.combined_size ≤ l.max_combined_size
      → l.max_combined_size < 2 ^ 64
      → ((r : Region) → o ≡ some r → l.combined_size + size r ≤ l.max_combined_size)
      → add_limited a l m o ≡ ok l'
      → l'.combined_size ≤ l'.max_combined_size
  add_limited-le l l' m none c w h e = ground arith
  add_limited-le l l' m (some r) c w h e =
      ground (arith, h r refl, combined-add_nolimitcheck l l' r m e)

  add_placed-le :
      (l l' : RegionList) (m : Bool) (o : Option Region)
      → l.combined_size ≤ l.max_combined_size
      → l.max_combined_size < 2 ^ 64
      → ((r : Region) → o ≡ some r → IsRange r × (l.combined_size + (r.end - r.begin + 1) < 2 ^ 64))
      → add_placed a l m o ≡ ok l'
      → l'.combined_size ≤ l'.max_combined_size
  add_placed-le l l' m none c w h e = ground arith
  add_placed-le l l' m (some r) c w h e =
      let (o, p, q) = >>=-eq-ok (limit_size l r) (add_limited a l m) e in
      add_limited-le l l' m o c w
        (λ r' t. limit_size-le l r r' (h r refl).0 w (h r refl).1 (p ∙ ap ok t)) q

  -- If `add` of a region returns, with an address limit that is set and a word, a size limit that is
  -- a word, an account that does not wrap around and that is within its limit before, then the
  -- account is within its limit afterwards.
  pub combined-add :
      (l l' : RegionList) (r : Region) (m : Bool)
      → IsRange r
      → 0 < l.address_limit
      → l.address_limit < 2 ^ 64
      → l.max_combined_size < 2 ^ 64
      → l.combined_size + (r.end - r.begin + 1) < 2 ^ 64
      → l.combined_size ≤ l.max_combined_size
      → add a l r m ≡ ok l'
      → l'.combined_size ≤ l'.max_combined_size
  unfolding add
  combined-add l l' r m k az aw w h c e = elim (Bool-cases (invalid r)) [
    | inl t ↦ ground arith
    | inr t ↦
        let (o, p, q) = >>=-eq-ok (limit_address l r) (add_placed a l m) (ground (arith, e)) in
        add_placed-le l l' m o c w (λ r' u. limit_address-IsRange l r r' k az aw h (p ∙ ap ok u)) q
  ]

  -- Without limits and with room, `add` of a region of two bytes or more that overlaps none returns
  -- a list in order that covers the bytes of the region besides those covered before.
  pub add_covers :
      (l : RegionList) (r : Region) (m : Bool)
      → IsUnlimited l
      → Above 0 l.regs
      → IsRange r
      → r.begin < r.end
      → length l.regs < l.max
      → l.combined_size < word_max
      → l.combined_size + size r < 2 ^ 64
      → find l.regs r ≡ none
      → (l' : RegionList) × (add a l r m ≡ ok l')
        × Above 0 l'.regs
        × ((x : ℕ) → covered l'.regs x ≡ (holds r x || covered l.regs x))
  add_covers l r m u v k s room b c e = (
    _,
    add_unlimited l r m u k s b c ∙ add_nolimitcheck_free l r m v k s room e,
    (insert_free l.regs r m v k e).1,
    covered-place l.regs r,
  )

  -- Without limits and with room, `add` of a region of two bytes or more stops the machine if it
  -- overlaps a region of the list and overlaps are not allowed.
  pub add_overlap :
      (l : RegionList) (r z : Region)
      → IsUnlimited l
      → Above 0 l.regs
      → IsRange r
      → r.begin < r.end
      → length l.regs < l.max
      → l.combined_size < word_max
      → l.combined_size + size r < 2 ^ 64
      → find l.regs r ≡ some z
      → add a l r false ≡ err region_overlap
  add_overlap l r z u v k s room b c e =
      add_unlimited l r false u k s b c ∙ add_nolimitcheck_overlap l r z v s room e

-- ===== src/DeviceTree/BinarySearch.antt =====
-- `Parent_cache::get_parent` of server/src/dt.h finds every node that the scan has put into the cache.
use mathlib.Core.Path.{subst}
use bootstrap.Prelude.{
  ℕ, zero, suc, ◌+◌, ◌-◌, ◌/◌, ◌≤◌, ◌<◌, ◌≡◌, refl, sym, ◌∙◌, inl, inr, true, false, List, [], ◌∷◌,
  ok, arith, ltb, ◌==◌, Bool-cases, ==→eq, ==_refl, length,
}
use bootstrap.DeviceTree.{Fdt, CacheElem, push, scan_from, scan, elem_at, search_parent, get_parent}
use bootstrap.DeviceTree.ParentCache.{scan_from_kept, scan_from_deep, scan_from_full}

-- The offsets of the nodes rise from an offset on, as documented of `fdt_next_node`.
unfoldable pub Rises : ℕ → List (ℕ × ℕ) → Type 0
Rises lo [] = Unit {0}
Rises lo (n ∷ ns) = (lo ≤ n.0) × Rises (suc n.0) ns

-- The same of the elements of a cache.
unfoldable Ascends : ℕ → List CacheElem → Type 0
Ascends lo [] = Unit {0}
Ascends lo (c ∷ cs) = (lo ≤ c.node) × Ascends (suc c.node) cs

Ascends-le : (lo lo' : ℕ) (cs : List CacheElem) → lo ≤ lo' → Ascends lo' cs → Ascends lo cs
unfolding Ascends
Ascends-le lo lo' [] h v = tt
Ascends-le lo lo' (c ∷ cs) h (le, v) = (omega (arith, h, le), v)

Ascends-scan_from :
    (lo : ℕ) (ns : List (ℕ × ℕ)) (stack : ℕ → ℕ) (num : ℕ)
    → Rises lo ns
    → Ascends lo (scan_from ns stack num)
unfolding scan_from Rises Ascends
Ascends-scan_from lo [] stack num r = tt
Ascends-scan_from lo (n ∷ ns) stack num (le, r) = elim (Bool-cases (ltb num 1024)) [
  | inl room ↦ elim (Bool-cases (ltb n.1 16)) [
    | inl small ↦
        subst (Ascends lo) (sym (scan_from_kept n ns stack num room small))
          (le, Ascends-scan_from (suc n.0) ns (push stack n.1 n.0) (suc num) r)
    | inr deep ↦
        subst (Ascends lo) (sym (scan_from_deep n ns stack num room deep)) (
          Ascends-le lo (suc n.0) _ (omega (arith, le))
            (Ascends-scan_from (suc n.0) ns stack num r))
  ]
  | inr full ↦ subst (Ascends lo) (sym (scan_from_full n ns stack num full)) tt
]

elem_at-ge :
    (lo i : ℕ) (cs : List CacheElem) → Ascends lo cs → i < length cs → lo ≤ (elem_at cs i).node
unfolding Ascends elem_at
elem_at-ge lo i [] v h = absurd (omega (arith, h))
elem_at-ge lo zero (c ∷ cs) (le, v) h = le
elem_at-ge lo (suc i) (c ∷ cs) (le, v) h =
    omega (arith, le, elem_at-ge (suc c.node) i cs v (omega (arith, h)))

elem_at-lt :
    (lo i j : ℕ) (cs : List CacheElem)
    → Ascends lo cs
    → i < j
    → j < length cs
    → (elem_at cs i).node < (elem_at cs j).node
unfolding Ascends elem_at
elem_at-lt lo i j [] v lt h = absurd (omega (arith, h))
elem_at-lt lo i zero (c ∷ cs) (le, v) lt h = absurd (omega (arith, lt))
elem_at-lt lo zero (suc j) (c ∷ cs) (le, v) lt h = elem_at-ge (suc c.node) j cs v (omega (arith, h))
elem_at-lt lo (suc i) (suc j) (c ∷ cs) (le, v) lt h =
    elem_at-lt (suc c.node) i j cs v (omega (arith, lt)) (omega (arith, h))

-- A round of the search.
abbrev middle : ℕ → ℕ → ℕ
middle lo top = lo + (top - 1 - lo) / 2

search_hit :
    (fuel : ℕ) (cache : List CacheElem) (k lo top : ℕ)
    → ltb lo top ≡ true
    → middle lo top ≡ k
    → search_parent (suc fuel) cache (elem_at cache k).node lo top ≡ ok (elem_at cache k).parent
unfolding search_parent
search_hit fuel cache k lo top go e = rw (go, e, ==_refl (elem_at cache k).node) refl

search_right :
    (fuel : ℕ) (cache : List CacheElem) (node lo top : ℕ)
    → ltb lo top ≡ true
    → (elem_at cache (middle lo top)).node < node
    → search_parent (suc fuel) cache node lo top
      ≡ search_parent fuel cache node (middle lo top + 1) top
unfolding search_parent
search_right fuel cache node lo top go less = rw (go, apart, right) refl
  where
    apart : ((elem_at cache (middle lo top)).node == node) ≡ false
    apart = ground (arith, less)

    right : ltb node (elem_at cache (middle lo top)).node ≡ false
    right = ground (arith, less)

search_left :
    (fuel : ℕ) (cache : List CacheElem) (node lo top : ℕ)
    → ltb lo top ≡ true
    → node < (elem_at cache (middle lo top)).node
    → search_parent (suc fuel) cache node lo top ≡ search_parent fuel cache node lo (middle lo top)
unfolding search_parent
search_left fuel cache node lo top go less = rw (go, apart, left) refl
  where
    apart : ((elem_at cache (middle lo top)).node == node) ≡ false
    apart = ground (arith, less)

    left : ltb node (elem_at cache (middle lo top)).node ≡ true
    left = ground (arith, less)

-- The search between two indices finds the element at an index between them.
search_parent-at :
    (fuel : ℕ) (cache : List CacheElem) (k lo top : ℕ)
    → Ascends 0 cache
    → top < fuel + lo
    → lo ≤ k
    → k < top
    → top ≤ length cache
    → search_parent fuel cache (elem_at cache k).node lo top ≡ ok (elem_at cache k).parent
unfolding search_parent
search_parent-at zero cache k lo top v f le lt h = absurd (omega (arith, f, le, lt))
search_parent-at (suc fuel) cache k lo top v f le lt h = elim (Bool-cases (idx == k)) [
  | inl hit ↦ search_hit fuel cache k lo top go (==→eq idx k hit)
  | inr miss ↦ elim (Bool-cases (ltb idx k)) [
    | inl before ↦
        let less : (elem_at cache idx).node < (elem_at cache k).node =
          elem_at-lt 0 idx k cache v (ground (arith, before)) (omega (arith, lt, h)) in
        search_right fuel cache (elem_at cache k).node lo top go less
        ∙ search_parent-at fuel cache k (idx + 1) top v (omega (arith, f)) (ground (arith, before))
            lt h
    | inr behind ↦
        let less : (elem_at cache k).node < (elem_at cache idx).node =
          elem_at-lt 0 k idx cache v (ground (arith, behind, miss)) (omega (arith, le, lt, h)) in
        search_left fuel cache (elem_at cache k).node lo top go less
        ∙ search_parent-at fuel cache k lo idx v (omega (arith, f, le, lt)) le
            (ground (arith, behind, miss)) (omega (arith, le, lt, h))
  ]
]
  where
    idx : ℕ
    idx = lo + (top - 1 - lo) / 2

    go : ltb lo top ≡ true
    go = ground (arith, le, lt)

-- The binary search finds every node that the scan has put into the cache, with the parent noted
-- there, since the offsets of the nodes rise.
pub get_parent-at :
    (fdt : Fdt) (stack : ℕ → ℕ) (k : ℕ)
    → Rises 0 fdt.nodes
    → k < length (scan fdt stack)
    → get_parent (scan fdt stack) (elem_at (scan fdt stack) k).node
      ≡ ok (elem_at (scan fdt stack) k).parent
unfolding get_parent scan
get_parent-at fdt stack k r h =
    search_parent-at (suc (length (scan fdt stack))) (scan fdt stack) k 0 (length (scan fdt stack))
      (Ascends-scan_from 0 fdt.nodes stack 0 r) (omega arith) (omega arith) h (omega arith)

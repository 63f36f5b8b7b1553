-- ===== src/DeviceTree/ParentCache.antt =====
-- class Parent_cache of server/src/dt.h: the stack of the scan and the binary search.
use mathlib.Core.Path.{subst}
use bootstrap.Prelude.{
  ℕ, zero, suc, ◌+◌, ◌-◌, ◌/◌, ◌≤◌, ◌<◌, ◌≡◌, refl, sym, ap, ◌∙◌, inl, inr, true, false, Option,
  none, some, List, [], ◌∷◌, ◌++◌, ok, arith, ltb, ◌==◌, if◌then◌else◌, Bool-cases, lt→ltb, ==→eq,
  length,
}
use bootstrap.DeviceTree.{
  Fdt, CacheElem, push, stack_parent, scan_from, scan, elem_at, search_parent, get_parent,
  parent_node,
}
use bootstrap.DeviceTree.Preorder.{
  nearest, IsPreorder, nearest-IsPreorder, pushed, or_else, pushed-nearest,
}

-- What an element of the cache says was on the stack when the scan came to its node.
record Scanned (ns : List (ℕ × ℕ)) (stack : ℕ → ℕ) (e : CacheElem) : Type 0 where
  before : List (ℕ × ℕ)
  after : List (ℕ × ℕ)
  node : ℕ × ℕ
  split : ns ≡ before ++ node ∷ after
  small : node.1 < 16
  elem : e ≡ record { node = node.0; parent = stack_parent (pushed before stack) node.1 }

Scanned-cons :
    (n : ℕ × ℕ) (ns : List (ℕ × ℕ)) (stack stack' : ℕ → ℕ) (e : CacheElem)
    → (if ltb n.1 16 then push stack n.1 n.0 else stack) ≡ stack'
    → Scanned ns stack' e
    → Scanned (n ∷ ns) stack e
unfolding pushed
Scanned-cons n ns stack stack' e p s = record {
  before = n ∷ s.before;
  after = s.after;
  node = s.node;
  split = ap (λ l. n ∷ l) s.split;
  small = s.small;
  elem = rw p s.elem;
}

Scanned-added :
    (n : ℕ × ℕ) (ns : List (ℕ × ℕ)) (stack : ℕ → ℕ) (cs : List CacheElem) (k : ℕ)
    → k < length (record { node = n.0; parent = stack_parent stack n.1 } ∷ cs)
    → n.1 < 16
    → ((j : ℕ) → j < length cs → Scanned ns (push stack n.1 n.0) (elem_at cs j))
    → Scanned
        (n ∷ ns)
        stack
        (elem_at (record { node = n.0; parent = stack_parent stack n.1 } ∷ cs) k)
unfolding elem_at pushed
Scanned-added n ns stack cs zero h small later = record {
  before = [];
  after = ns;
  node = n;
  split = refl;
  small = small;
  elem = refl;
}
Scanned-added n ns stack cs (suc k) h small later =
    Scanned-cons n ns stack (push stack n.1 n.0) _ (rw (lt→ltb n.1 16 small) refl)
      (later k (omega (arith, h)))

-- A round of the scan.
pub scan_from_kept :
    (n : ℕ × ℕ) (ns : List (ℕ × ℕ)) (stack : ℕ → ℕ) (num : ℕ)
    → ltb num 1024 ≡ true
    → ltb n.1 16 ≡ true
    → scan_from (n ∷ ns) stack num
      ≡ record { node = n.0; parent = stack_parent stack n.1 }
        ∷ scan_from ns (push stack n.1 n.0) (suc num)
unfolding scan_from
scan_from_kept n ns stack num room small = rw (room, scan_from) (rw small refl)

pub scan_from_deep :
    (n : ℕ × ℕ) (ns : List (ℕ × ℕ)) (stack : ℕ → ℕ) (num : ℕ)
    → ltb num 1024 ≡ true
    → ltb n.1 16 ≡ false
    → scan_from (n ∷ ns) stack num ≡ scan_from ns stack num
unfolding scan_from
scan_from_deep n ns stack num room deep = rw (room, scan_from) (rw deep refl)

pub scan_from_full :
    (n : ℕ × ℕ) (ns : List (ℕ × ℕ)) (stack : ℕ → ℕ) (num : ℕ)
    → ltb num 1024 ≡ false
    → scan_from (n ∷ ns) stack num ≡ []
unfolding scan_from
scan_from_full n ns stack num full = rw (full, scan_from) refl

AllScanned : List (ℕ × ℕ) → (ℕ → ℕ) → List CacheElem → Type 0
AllScanned ns stack cs = (k : ℕ) → k < length cs → Scanned ns stack (elem_at cs k)

scan_from-AllScanned :
    (ns : List (ℕ × ℕ)) (stack : ℕ → ℕ) (num : ℕ) → AllScanned ns stack (scan_from ns stack num)
unfolding scan_from AllScanned
scan_from-AllScanned [] stack num = λ k h. absurd (omega (arith, h))
scan_from-AllScanned (n ∷ ns) stack num = elim (Bool-cases (ltb num 1024)) [
  | inl room ↦ elim (Bool-cases (ltb n.1 16)) [
    | inl small ↦
        subst (AllScanned (n ∷ ns) stack) (sym (scan_from_kept n ns stack num room small)) (λ k h.
          Scanned-added n ns stack (scan_from ns (push stack n.1 n.0) (suc num)) k h
            (ground (arith, small)) (scan_from-AllScanned ns (push stack n.1 n.0) (suc num)))
    | inr deep ↦
        subst (AllScanned (n ∷ ns) stack) (sym (scan_from_deep n ns stack num room deep)) (λ k h.
          Scanned-cons n ns stack stack _ (rw deep refl) (scan_from-AllScanned ns stack num k h))
  ]
  | inr full ↦
      subst (AllScanned (n ∷ ns) stack) (sym (scan_from_full n ns stack num full))
        (λ k h. absurd (omega (arith, h)))
]

-- The binary search.
elem_eta :
    (e : CacheElem) (node : ℕ) (o : Option ℕ)
    → e.node ≡ node
    → e.parent ≡ o
    → e ≡ record { node = node; parent = o }
elem_eta e node o p q = rw (sym p, sym q) refl

-- What it returns is in an element of the cache, or it is nothing; and it returns.
pub record Sound (cache : List CacheElem) (node : ℕ) (o : Option ℕ) : Type 0 where
  pub found :
      (p : ℕ)
      → o ≡ some p
      → (k : ℕ) × (k < length cache) × (elem_at cache k ≡ record { node = node; parent = some p })

search_parent-Sound :
    (fuel : ℕ) (cache : List CacheElem) (node lo top : ℕ)
    → top < fuel + lo
    → lo ≤ top
    → top ≤ length cache
    → (o : Option ℕ) × (search_parent fuel cache node lo top ≡ ok o) × Sound cache node o
unfolding search_parent
search_parent-Sound zero cache node lo top f le h = absurd (omega (arith, f, le))
search_parent-Sound (suc fuel) cache node lo top f le h = elim (Bool-cases (ltb lo top)) [
  | inr stop ↦ (none, rw stop refl, record { found = λ p q. absurd cc })
  | inl go ↦ elim (Bool-cases ((elem_at cache idx).node == node)) [
    | inl hit ↦ (
      (elem_at cache idx).parent,
      rw (go, hit) refl,
      record {
        found = λ p q. (
          idx,
          omega (arith, inside (ground (arith, go)), h),
          elem_eta (elem_at cache idx) node (some p) (==→eq (elem_at cache idx).node node hit) q,
        );
      },
    )
    | inr miss ↦ elim (Bool-cases (ltb node (elem_at cache idx).node)) [
      | inl left ↦
          rw (go, miss, left)
            (search_parent-Sound fuel cache node lo idx
              (omega (arith, f, inside (ground (arith, go)))) (omega arith)
              (omega (arith, h, inside (ground (arith, go)))))
      | inr right ↦
          rw (go, miss, right)
            (search_parent-Sound fuel cache node (idx + 1) top (omega (arith, f))
              (omega (arith, inside (ground (arith, go)))) h)
    ]
  ]
]
  where
    idx : ℕ
    idx = lo + (top - 1 - lo) / 2

    inside : lo < top → idx < top
    inside lt = omega (arith, lt)

get_parent-Sound :
    (cache : List CacheElem) (node : ℕ)
    → (o : Option ℕ) × (get_parent cache node ≡ ok o) × Sound cache node o
unfolding get_parent
get_parent-Sound cache node =
    search_parent-Sound (suc (length cache)) cache node 0 (length cache) (omega arith) (omega arith)
      (omega arith)

-- The parent of an element of the cache is the nearest node one level above.
parent-Scanned :
    (fdt : Fdt) (stack : ℕ → ℕ) (node p : ℕ)
    → IsPreorder fdt
    → 0 < node
    → Scanned fdt.nodes stack (record { node = node; parent = some p })
    → p ≡ fdt.parent_offset node
unfolding stack_parent or_else
parent-Scanned fdt stack node p pre z s = elim (Bool-cases (ltb 0 s.node.1)) [
  | inl deep ↦
      let above : nearest s.before s.node.1 ≡ some (fdt.parent_offset s.node.0) =
        nearest-IsPreorder fdt s.before s.after s.node pre s.split (ground (arith, s.elem, z)) in
      let on_stack : pushed s.before stack (s.node.1 - 1) ≡ fdt.parent_offset s.node.0 =
        pushed-nearest s.before stack s.node.1 (ground (arith, deep)) (omega (arith, s.small))
        ∙ ap (λ o. or_else o (stack (s.node.1 - 1))) above in
      ground (arith, s.elem, s.small, deep, on_stack)
  | inr root ↦ ground (arith, s.elem, root)
]

parent_of : Fdt → ℕ → Option ℕ → ℕ
parent_of fdt node none = fdt.parent_offset node
parent_of fdt node (some p) = p

parent_node_then :
    (fdt : Fdt) (cache : List CacheElem) (node : ℕ) (o : Option ℕ)
    → get_parent cache node ≡ ok o
    → parent_node fdt cache node ≡ ok (parent_of fdt node o)
unfolding parent_node parent_of
parent_node_then fdt cache node none e = rw e refl
parent_node_then fdt cache node (some p) e = rw e refl

parent_of-Sound :
    (fdt : Fdt) (stack : ℕ → ℕ) (node : ℕ) (o : Option ℕ)
    → IsPreorder fdt
    → 0 < node
    → Sound (scan fdt stack) node o
    → parent_of fdt node o ≡ fdt.parent_offset node
unfolding parent_of scan AllScanned
parent_of-Sound fdt stack node none pre z s = refl
parent_of-Sound fdt stack node (some p) pre z s =
    let (k, lt, at) = s.found p refl in
    parent-Scanned fdt stack node p pre z
      (subst (Scanned fdt.nodes stack) at (scan_from-AllScanned fdt.nodes stack 0 k lt))

-- With the cache of a scan, `parent_node` returns what `fdt_parent_offset` would, for every node but
-- the root, whatever was in the memory of the stack, if `fdt_parent_offset` answers as documented for
-- these nodes: with the nearest node before a node that is one level above it.
pub parent_node-eq :
    (fdt : Fdt) (stack : ℕ → ℕ) (node : ℕ)
    → IsPreorder fdt
    → 0 < node
    → parent_node fdt (scan fdt stack) node ≡ ok (fdt.parent_offset node)
parent_node-eq fdt stack node pre z =
    let (o, e, sound) = get_parent-Sound (scan fdt stack) node in
    parent_node_then fdt (scan fdt stack) node o e
    ∙ ap ok (parent_of-Sound fdt stack node o pre z sound)

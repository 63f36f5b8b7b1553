-- ===== src/DeviceTree.antt =====
-- class Dt of server/src/dt.h and dt.cc: addresses in a flattened device tree. What libfdt answers is
-- a parameter.
mod Tests
pub mod Preorder
pub mod ParentCache
pub mod Mapping
pub mod Translate
pub mod BinarySearch
use bootstrap.Prelude.{
  ℕ, zero, suc, ◌+◌, ◌-◌, ◌*◌, ◌/◌, ◌%◌, ◌^◌, Bool, true, false, ◌&&◌, not, Option, none, some,
  List, [], ◌∷◌, Result, ok, err, ◌>>=◌, ◌>>◌, guard, ltb, leb, ◌==◌, if◌then◌else◌, add_word,
  sub_word, length, take, drop, assertion, out_of_fuel, division_by_zero,
}

-- The answers of libfdt: the offsets and depths in the order of `fdt_next_node`, and for the offset of
-- a node `fdt_parent_offset`, the numbers of cells (none where libfdt reports an error), and the
-- properties that are lists of cells, each a number of 32 bits.
pub record Fdt : Type 0 where
  pub nodes : List (ℕ × ℕ)
  pub parent_offset : ℕ → ℕ
  pub address_cells : ℕ → Option ℕ
  pub size_cells : ℕ → Option ℕ
  pub ranges : ℕ → Option (List ℕ)
  pub reg : ℕ → Option (List ℕ)

-- `Parent_cache::Cache_elem`; none stands for -1.
pub record CacheElem : Type 0 where
  pub node : ℕ
  pub parent : Option ℕ

-- `parent_stack[depth] = node`
unfoldable pub push : (ℕ → ℕ) → ℕ → ℕ → ℕ → ℕ
push stack depth node i = if i == depth then node else stack i

-- The parent that `Parent_cache::scan` finds on its stack of 16 nodes.
unfoldable pub stack_parent : (ℕ → ℕ) → ℕ → Option ℕ
stack_parent stack depth = if ltb 0 depth && leb depth 16 then some (stack (depth - 1)) else none

-- The loop of `Parent_cache::scan`, once there are `num` elements: those that it adds.
unfoldable pub scan_from : List (ℕ × ℕ) → (ℕ → ℕ) → ℕ → List CacheElem
unfolding push stack_parent
scan_from [] stack num = []
scan_from (n ∷ ns) stack num = elim (ltb num 1024) [
  | true ↦ elim (ltb n.1 16) [
    | true ↦
        record { node = n.0; parent = stack_parent stack n.1 }
        ∷ scan_from ns (push stack n.1 n.0) (suc num)
    | false ↦ scan_from ns stack num
  ]
  | false ↦ []
]

-- `Parent_cache::scan`; the stack has what was in memory. The root has the depth 1, so that what its
-- element notes as its parent is read from that memory.
unfoldable pub scan : Fdt → (ℕ → ℕ) → List CacheElem
unfolding scan_from
scan fdt stack = scan_from fdt.nodes stack 0

-- `_cache[index]`
unfoldable pub elem_at : List CacheElem → ℕ → CacheElem
elem_at [] i = record { node = 0; parent = none }
elem_at (c ∷ cs) zero = c
elem_at (c ∷ cs) (suc i) = elem_at cs i

-- The loop of `Parent_cache::get_parent`. `top` is `max + 1`, since `max` can be -1.
unfoldable pub search_parent : ℕ → List CacheElem → ℕ → ℕ → ℕ → Result (Option ℕ)
unfolding elem_at
search_parent zero cache node lo top = err out_of_fuel
search_parent (suc fuel) cache node lo top =
    let idx = lo + (top - 1 - lo) / 2 in
    let e = elem_at cache idx in
    let next : ℕ × ℕ = if ltb node e.node then (lo, idx) else (idx + 1, top) in
    let rest = search_parent fuel cache node next.0 next.1 in
    if ltb lo top then (if e.node == node then ok e.parent else rest) else ok none

-- `Parent_cache::get_parent`. A round for each element, and one more, are enough.
unfoldable pub get_parent : List CacheElem → ℕ → Result (Option ℕ)
unfolding search_parent
get_parent cache node = search_parent (suc (length cache)) cache node 0 (length cache)

-- `Node::parent_node`
unfoldable pub parent_node : Fdt → List CacheElem → ℕ → Result ℕ
unfolding get_parent
parent_node fdt cache node = get_parent cache node >>= λ p. elim p [
  | none ↦ ok (fdt.parent_offset node)
  | some parent ↦ ok parent
]

-- The loop of `Dt::read_value`, on the cells that are left; the sum is one of parts without common
-- bits.
unfoldable pub read_from : ℕ → List ℕ → ℕ
read_from val [] = val
read_from val (c ∷ cs) = read_from ((val * 2 ^ 32) % 2 ^ 64 + c) cs

-- `Dt::read_value`, of 64 bits.
unfoldable pub read_value : List ℕ → ℕ → ℕ
unfolding read_from
read_value cells size = read_from 0 (take size cells)

-- `_elem_size` of class Array_prop, and the offset of a cell in an element.
unfoldable pub sum_cells : List ℕ → ℕ
sum_cells [] = 0
sum_cells (n ∷ ns) = n + sum_cells ns

unfoldable pub cell_size : List ℕ → ℕ → ℕ
cell_size [] i = 0
cell_size (n ∷ ns) zero = n
cell_size (n ∷ ns) (suc i) = cell_size ns i

-- `Array_prop::is_valid` of a property that is present: the remainder by zero is undefined.
unfoldable pub array_valid : List ℕ → List ℕ → Result Bool
unfolding sum_cells
array_valid sizes prop =
    guard (ltb 0 (sum_cells sizes)) division_by_zero >> ok (length prop % sum_cells sizes == 0)

-- `Array_prop::elements`
unfoldable pub elements : List ℕ → List ℕ → ℕ
unfolding sum_cells
elements sizes prop = length prop / sum_cells sizes

-- `Array_prop::get`, without and with its assertions.
unfoldable pub array_value : List ℕ → List ℕ → ℕ → ℕ → ℕ
unfolding sum_cells cell_size read_value
array_value sizes prop element cell =
    read_value (drop (element * sum_cells sizes + sum_cells (take cell sizes)) prop)
      (cell_size sizes cell)

unfoldable pub array_get : List ℕ → List ℕ → ℕ → ℕ → Result ℕ
unfolding array_value elements
array_get sizes prop element cell =
    guard (ltb cell (length sizes)) assertion
    >> (guard (ltb element (elements sizes prop)) assertion
        >> ok (array_value sizes prop element cell))

-- class Range
pub record Range : Type 0 where
  pub child : ℕ
  pub parent : ℕ
  pub length : ℕ

-- `Range::match`
unfoldable pub range_matches : Range → ℕ → ℕ → Bool
range_matches r address size =
    leb r.child address && leb (add_word address size) (add_word r.child r.length)

-- `Range::translate`: the new address, if the range matches.
unfoldable pub range_translate : Range → ℕ → ℕ → Option ℕ
unfolding range_matches
range_translate r address size =
    if range_matches r address size
    then some (add_word (sub_word address r.child) r.parent)
    else none

module _ (fdt : Fdt) where
  -- `Node::get_addr_size_cells`
  abbrev small_cells : Option ℕ → Option ℕ → Option (ℕ × ℕ)
  small_cells (some addr) (some size) = if leb addr 2 && leb size 2 then some (addr, size) else none
  small_cells (some addr) none = none
  small_cells none size = none

  unfoldable pub get_addr_size_cells : ℕ → Option (ℕ × ℕ)
  get_addr_size_cells node = small_cells (fdt.address_cells node) (fdt.size_cells node)

  -- The three values of an element of `ranges`.
  unfoldable pub get_range : List ℕ → List ℕ → ℕ → Result Range
  unfolding array_get
  get_range sizes prop i = array_get sizes prop i 0 >>= λ child.
      array_get sizes prop i 1 >>= λ parent. array_get sizes prop i 2 >>= λ len.
      ok (record { child = child; parent = parent; length = len })

  -- The end of a round: a range has translated the address, or the loop goes on.
  abbrev pub translated : Option ℕ → (ℕ → Result (Option ℕ)) → Result (Option ℕ) → Result (Option ℕ)
  translated none go rest = rest
  translated (some addr) go rest = go addr

  -- The loop of `Node::translate_reg`, of which `n` rounds are left. `go` is the call for the parent.
  unfoldable pub translate_loop :
      List ℕ → List ℕ → ℕ → (ℕ → Result (Option ℕ)) → ℕ → ℕ → ℕ → Result (Option ℕ)
  unfolding get_range range_translate
  translate_loop sizes prop size go addr zero i = ok none
  translate_loop sizes prop size go addr (suc n) i =
      let rest = translate_loop sizes prop size go addr n (suc i) in
      get_range sizes prop i >>= λ r. translated (range_translate r addr size) go rest

  -- `Node::translate_reg` behind its two calls of `get_addr_size_cells`, and what goes before. `bus`
  -- is the node that the code calls `parent`, and `up` its parent.
  unfoldable pub translate_ranges :
      List ℕ → Option (List ℕ) → (ℕ → Result (Option ℕ)) → ℕ → ℕ → Result (Option ℕ)
  unfolding array_valid elements translate_loop
  translate_ranges sizes none go addr size = ok none
  translate_ranges sizes (some prop) go addr size = array_valid sizes prop >>= λ valid.
      if not valid
      then ok none
      else if elements sizes prop == 0
      then ok (some addr)
      else translate_loop sizes prop size go addr (elements sizes prop) 0

  unfoldable pub translate_cells :
      Option (ℕ × ℕ) → Option (ℕ × ℕ) → ℕ → (ℕ → Result (Option ℕ)) → ℕ → ℕ → Result (Option ℕ)
  unfolding translate_ranges
  translate_cells none above bus go addr size = ok none
  translate_cells (some cells) none bus go addr size = ok none
  translate_cells (some cells) (some above) bus go addr size =
      translate_ranges (cells.0 ∷ above.0 ∷ cells.1 ∷ []) (fdt.ranges bus) go addr size

  module _ (cache : List CacheElem) where
    -- `Node::translate_reg`. The fuel counts the nodes on the way to the root. The parent is looked up
    -- before the numbers of cells, which changes nothing.
    unfoldable pub translate_from : ℕ → ℕ → ℕ → ℕ → Result (Option ℕ)
    unfolding get_addr_size_cells translate_cells parent_node
    translate_from zero bus addr size = err out_of_fuel
    translate_from (suc fuel) bus addr size =
        if bus == 0
        then ok (some addr)
        else parent_node fdt cache bus >>= λ up.
            translate_cells (get_addr_size_cells bus) (get_addr_size_cells up) bus
              (λ addr'. translate_from fuel up addr' size) addr size

    -- A parent lies in front of its node, so the offset bounds the way to the root.
    unfoldable pub translate_reg : ℕ → ℕ → ℕ → Result (Option ℕ)
    unfolding translate_from
    translate_reg bus addr size = translate_from (suc bus) bus addr size

    -- `Node::get_reg_array`, of a parent that is valid: the numbers of cells and the property.
    unfoldable pub get_reg_array : ℕ → ℕ → Result (Option (List ℕ × List ℕ))
    unfolding get_addr_size_cells array_valid
    get_reg_array bus node = elim (get_addr_size_cells bus) [
      | none ↦ ok none
      | some cells ↦ elim (fdt.reg node) [
        | none ↦ ok none
        | some prop ↦ array_valid (cells.0 ∷ cells.1 ∷ []) prop >>= λ valid.
            ok (if valid then some (cells.0 ∷ cells.1 ∷ [], prop) else none)
      ]
    ]

    -- `Node::get_reg_val`: the address and the size.
    unfoldable pub get_reg_val : ℕ → List ℕ → List ℕ → ℕ → Result (Option (ℕ × ℕ))
    unfolding array_get elements translate_reg
    get_reg_val bus sizes prop index =
        if leb (elements sizes prop) index
        then ok none
        else array_get sizes prop index 0 >>= λ addr. array_get sizes prop index 1 >>= λ size.
            translate_reg bus addr size >>= λ o.
            ok (elim o [ none ↦ none | some addr' ↦ some (addr', size) ])

    -- The values for which `Node::for_each_reg` calls its argument, which does not break the loop; `n`
    -- rounds are left.
    unfoldable pub regs_from : ℕ → List ℕ → List ℕ → ℕ → ℕ → Result (List (ℕ × ℕ))
    unfolding get_reg_val
    regs_from bus sizes prop zero i = ok []
    regs_from bus sizes prop (suc n) i = get_reg_val bus sizes prop i >>= λ o.
        regs_from bus sizes prop n (suc i) >>= λ rest.
        ok (elim o [ none ↦ rest | some reg ↦ reg ∷ rest ])

    unfoldable pub regs_of : ℕ → Option (List ℕ × List ℕ) → Result (List (ℕ × ℕ))
    unfolding regs_from elements
    regs_of bus none = ok []
    regs_of bus (some array) = regs_from bus array.0 array.1 (elements array.0 array.1) 0

    unfoldable pub for_each_reg : ℕ → Result (List (ℕ × ℕ))
    unfolding parent_node get_reg_array regs_of
    for_each_reg node =
        parent_node fdt cache node >>= λ bus. get_reg_array bus node >>= λ array. regs_of bus array

    -- `Node::get_reg`
    unfoldable pub get_reg : ℕ → ℕ → Result (Option (ℕ × ℕ))
    unfolding parent_node get_reg_array get_reg_val
    get_reg node index = parent_node fdt cache node >>= λ bus. get_reg_array bus node >>= λ array.
        elim array [ none ↦ ok none | some (sizes, prop) ↦ get_reg_val bus sizes prop index ]

-- ===== src/DeviceTree/Tests.antt =====
-- A device on a bus below the root, and the theorems about the device tree.
use bootstrap.Prelude.{
  ℕ, zero, suc, ◌<◌, ◌≡◌, refl, Option, none, some, List, [], ◌∷◌, ok, arith, ◌==◌, if◌then◌else◌,
}
use bootstrap.DeviceTree.{
  Fdt, scan, scan_from, push, stack_parent, elem_at, get_parent, search_parent, parent_node,
  translate_reg, translate_from, translate_cells, translate_ranges, translate_loop, get_range,
  array_get, array_value, array_valid, sum_cells, cell_size, elements, read_value, read_from,
  range_translate, range_matches, get_addr_size_cells, for_each_reg, regs_of, regs_from,
  get_reg_array, get_reg_val,
}
use bootstrap.DeviceTree.Preorder.{Preorder, IsPreorder}
use bootstrap.DeviceTree.ParentCache.{parent_node-eq}
use bootstrap.DeviceTree.BinarySearch.{Rises, get_parent-at}
use bootstrap.DeviceTree.Mapping.{IsTree, IsWords, Maps, range_at}
use bootstrap.DeviceTree.Translate.{translate_reg-Maps}

-- The root, the bus at the offset 8, and its device at 16 with registers at 0x100.
abbrev board : Fdt
board = record {
  nodes = (0, 1) ∷ (8, 2) ∷ (16, 3) ∷ [];
  parent_offset = λ node. if node == 16 then 8 else 0;
  address_cells = λ node. some 1;
  size_cells = λ node. some 1;
  ranges = λ node. if node == 8 then some (0 ∷ 0x4000_0000 ∷ 0x1000 ∷ []) else none;
  reg = λ node. if node == 16 then some (0x100 ∷ 0x20 ∷ []) else none;
}

abbrev empty_stack : ℕ → ℕ
empty_stack i = 0

parent_node_runs : parent_node board (scan board empty_stack) 16 ≡ ok 8
unfolding parent_node get_parent search_parent elem_at scan scan_from push stack_parent
parent_node_runs = refl

for_each_reg_runs : for_each_reg board (scan board empty_stack) 16 ≡ ok ((0x4000_0100, 0x20) ∷ [])
unfolding for_each_reg regs_of regs_from get_reg_array get_reg_val translate_reg translate_from
    translate_cells translate_ranges translate_loop get_range array_get array_value array_valid
    sum_cells cell_size elements read_value read_from range_translate range_matches
    get_addr_size_cells parent_node get_parent search_parent elem_at scan scan_from push
    stack_parent
for_each_reg_runs = refl

board-IsPreorder : IsPreorder board
unfolding IsPreorder Preorder
board-IsPreorder = (λ h. absurd (omega (arith, h)), (λ h. refl, (λ h. refl, tt)))

-- The elements of `ranges` of the bus: there is one.
first-IsWords :
    (i : ℕ)
    → i < elements (1 ∷ 1 ∷ 1 ∷ []) (0 ∷ 0x4000_0000 ∷ 0x1000 ∷ [])
    → IsWords (range_at (1 ∷ 1 ∷ 1 ∷ []) (0 ∷ 0x4000_0000 ∷ 0x1000 ∷ []) i)
unfolding elements sum_cells range_at array_value cell_size read_value read_from
first-IsWords zero lt = (omega arith, omega arith)
first-IsWords (suc i) lt = absurd (omega (arith, lt))

board-IsWords :
    (cells above : ℕ × ℕ) (prop : List ℕ) (i : ℕ)
    → cells ≡ (1, 1)
    → above ≡ (1, 1)
    → prop ≡ 0 ∷ 0x4000_0000 ∷ 0x1000 ∷ []
    → i < elements (cells.0 ∷ above.0 ∷ cells.1 ∷ []) prop
    → IsWords (range_at (cells.0 ∷ above.0 ∷ cells.1 ∷ []) prop i)
board-IsWords cells above prop i a b c = rw (a, b, c) (first-IsWords i)

board_ranges :
    (bus : ℕ) (prop : List ℕ) → board.ranges bus ≡ some prop → prop ≡ 0 ∷ 0x4000_0000 ∷ 0x1000 ∷ []
board_ranges bus prop e = ground (arith, e)

board-IsTree : IsTree board
unfolding get_addr_size_cells elements sum_cells range_at array_value cell_size read_value read_from
board-IsTree = record {
  lower = λ bus h. ground (arith, h);
  cells = λ bus cells above p q. ground (arith, p, q);
  words = λ bus cells above prop i p q r.
      board-IsWords cells above prop i (ground (arith, p)) (ground (arith, q))
        (board_ranges bus prop r);
  flat = λ bus e. ground (arith, e);
}

parent_node-eq_example : parent_node board (scan board empty_stack) 16 ≡ ok 8
parent_node-eq_example = parent_node-eq board empty_stack 16 board-IsPreorder (omega arith)

get_parent-at_example :
    get_parent (scan board empty_stack) (elem_at (scan board empty_stack) 2).node
    ≡ ok (elem_at (scan board empty_stack) 2).parent
unfolding Rises scan scan_from push stack_parent
get_parent-at_example =
    get_parent-at board empty_stack 2 (omega arith, (omega arith, (omega arith, tt))) (omega arith)

translate_reg-Maps_example :
    (o : Option ℕ) × (translate_reg board (scan board empty_stack) 8 0x100 0x20 ≡ ok o)
    × ((x : ℕ) → o ≡ some x → Maps board 0x20 8 0x100 x)
translate_reg-Maps_example =
    translate_reg-Maps board empty_stack board-IsPreorder board-IsTree 0x20 8 0x100 (omega arith)

-- ===== src/KernelInfo.antt =====
-- init_kip.cc in server/src: the memory descriptors of the kernel info page.
pub mod Descriptors
mod Tests
use bootstrap.Prelude.{
  ℕ, ◌^◌, Bool, false, Option, none, some, List, [], ◌∷◌, ◌++◌, add_word, sub_word,
}
use bootstrap.Align.{Align}
use bootstrap.Region.{
  Region, RegionType, no_mem, kernel, sigma0, boot, root, arch, ram_dont_use, info, kmem,
}

-- The types of `Mem_desc` that the code uses.
pub data MemType : Type 0 where
  conventional reserved dedicated bootloader arch_mem info_mem kmem_mem : MemType

-- What `Mem_desc::set` is called with: `(begin, end, type, sub_type, virt, eager)`.
pub record MemDesc : Type 0 where
  pub begin : ℕ
  pub end : ℕ
  pub type : MemType
  pub sub_type : ℕ
  pub eager : Bool

-- The switch of `init_kip_md`: the type and the subtype of the descriptor, or none to go on.
unfoldable pub describe : RegionType → ℕ → Option (MemType × ℕ)
describe no_mem sub = none
describe ram_dont_use sub = none
describe boot sub = none
describe kmem sub = some (kmem_mem, 0)
describe kernel sub = some (reserved, 0)
describe sigma0 sub = some (dedicated, 0)
describe root sub = some (bootloader, sub)
describe arch sub = some (arch_mem, sub)
describe info sub = some (info_mem, sub)

module _ (a : Align) where
  -- The descriptor of a RAM region: its whole blocks of a KiB.
  unfoldable pub ram_desc : Region → MemDesc
  ram_desc r = record {
    begin = a.round_size r.begin 10;
    end = sub_word (a.trunc_size (add_word r.end 1) 10) 1;
    type = conventional;
    sub_type = 0;
    eager = false;
  }

  -- The first loop of `init_kip_md`.
  unfoldable pub ram_descs : List Region → List MemDesc
  unfolding ram_desc
  ram_descs [] = []
  ram_descs (r ∷ rs) = ram_desc r ∷ ram_descs rs

-- The descriptor of a region, put in front of those of the following ones.
abbrev pub with_desc : Region → Option (MemType × ℕ) → List MemDesc → List MemDesc
with_desc r none rest = rest
with_desc r (some (t, sub)) rest =
    record { begin = r.begin; end = r.end; type = t; sub_type = sub; eager = r.eager } ∷ rest

-- The second loop.
unfoldable pub region_descs : List Region → List MemDesc
unfolding describe
region_descs [] = []
region_descs (r ∷ rs) = with_desc r (describe r.type r.sub_type) (region_descs rs)

-- `init_kip_md`: the descriptors that it writes, in their order.
unfoldable pub init_kip_md : Align → List Region → List Region → List MemDesc
unfolding ram_descs region_descs
init_kip_md a ram regions = ram_descs a ram ++ region_descs regions

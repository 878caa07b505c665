-- ===== src/Prisma/Queries.antt =====
-- What the rows of an ordered query have in common.
use mathlib.Core.List.Perm
use k_pos_be.Common.{String, Bool, true, ◌≡◌, List, Mem}
use k_pos_be.Paging.Members.{select-fits, select-Mem, mem-select}
use k_pos_be.Prisma.{Prisma}

module _ (prisma : Prisma) {R : Type 0} (column : String) (p : R → Bool) (t : List R) where
  pub ordered-fits : (r : R) → Mem r (prisma.order_by column (prisma.find_many p t)) → p r ≡ true
  ordered-fits r m = select-fits p t r (
      (Perm.mem_iff (prisma.find_many-perm p t)).0
        ((Perm.mem_iff (prisma.order_by-perm column _)).0 m))

  pub ordered-Mem : (r : R) → Mem r (prisma.order_by column (prisma.find_many p t)) → Mem r t
  ordered-Mem r m = select-Mem p t r (
      (Perm.mem_iff (prisma.find_many-perm p t)).0
        ((Perm.mem_iff (prisma.order_by-perm column _)).0 m))

  pub fits-ordered :
      (r : R) → Mem r t → p r ≡ true → Mem r (prisma.order_by column (prisma.find_many p t))
  fits-ordered r m h =
      (Perm.mem_iff (prisma.order_by-perm column _)).1
        ((Perm.mem_iff (prisma.find_many-perm p t)).1 (mem-select p t r m h))

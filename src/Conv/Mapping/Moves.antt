-- ===== src/Conv/Mapping/Moves.antt =====
-- Moving a write pointer does not touch the mapping.
use nvmevirt_learned_ftl.Prelude.{Bool}
use nvmevirt_learned_ftl.Ssd.Ppa.{Ppa}
use nvmevirt_learned_ftl.Conv.State.{ConvFtl, WritePointer, IoType, user_io, gc_io, set_wp}
use nvmevirt_learned_ftl.Conv.Mapping.{IsConsistent}

pub set_wp-IsConsistent :
    {Q : Type 0} (gone : Ppa → Bool) (f : ConvFtl Q) (io : IoType) (w : WritePointer)
    → IsConsistent gone f
    → IsConsistent gone (set_wp f io w)
unfolding set_wp
set_wp-IsConsistent gone f user_io w c = record {
  maps = λ lpn hl m.
      (let o = c.maps lpn hl m in record { addr = o.addr; is_valid = o.is_valid; back = o.back });
  owned = λ p a v g. (let o = c.owned p a v g in record { in_range = o.in_range; forth = o.forth });
}
set_wp-IsConsistent gone f gc_io w c = record {
  maps = λ lpn hl m.
      (let o = c.maps lpn hl m in record { addr = o.addr; is_valid = o.is_valid; back = o.back });
  owned = λ p a v g. (let o = c.owned p a v g in record { in_range = o.in_range; forth = o.forth });
}

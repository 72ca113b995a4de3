-- ===== src/Tests/Meta.antt =====
-- Runs of the meta pages.
use bolt_analysis.Prelude.{none, ℕ, ◌≡◌, refl, arith}
use bolt_analysis.Prelude.Results.{ok}
use bolt_analysis.Meta.{Meta, MetaPage, current_meta, validate, write, sum64, magic, version}
use bolt_analysis.Meta.Choice.{
  IsChoice, IsWritable, Metas, IsCurrent, IsNext, store, current_meta-IsChoice, validate-write,
  store-IsNext,
}

-- A meta without a checksum.
abbrev plain : ℕ → Meta
plain t = record {
  magic = magic;
  version = version;
  page_size = 4096;
  flags = 0;
  root = 3;
  sequence = 0;
  freelist = 2;
  pgid = 4;
  txid = t;
  checksum = 0;
}

-- The same, torn: another version.
abbrev torn : ℕ → Meta
torn t = record (plain t) { version = 1 }

current_run : current_meta (plain 6) (plain 7) ≡ ok (plain 7)
unfolding current_meta validate
current_run = refl

current_torn : current_meta (plain 6) (torn 7) ≡ ok (plain 6)
unfolding current_meta validate
current_torn = refl

current_meta-IsChoice_example : IsChoice (plain 6) (torn 7) (current_meta (plain 6) (torn 7))
current_meta-IsChoice_example = current_meta-IsChoice (plain 6) (torn 7)

plain-IsWritable : IsWritable (plain 6)
plain-IsWritable = record {
  right_magic = refl;
  right_version = refl;
  root_below = omega arith;
  freelist_below = omega arith;
}

abbrev empty_page : MetaPage
empty_page = record { id = 0; flags = 0; content = plain 0 }

validate-write_example :
    (q : MetaPage) × (write (plain 6) empty_page
      ≡ ok (record (plain 6) { checksum = sum64 (plain 6) }, q))
    × (q.id ≡ 0)
    × (q.content ≡ record (plain 6) { checksum = sum64 (plain 6) })
    × (validate q.content ≡ none)
validate-write_example = validate-write (plain 6) empty_page plain-IsWritable

abbrev two_metas : Metas
two_metas = record { meta0 = plain 6; meta1 = plain 5 }

two_metas-IsCurrent : IsCurrent (plain 6) two_metas
unfolding current_meta validate
two_metas-IsCurrent = record { at_slot = refl; good = refl; current = refl }

store-IsNext_example :
    IsNext (plain 6) (plain 7) (store (record { id = 1; flags = 4; content = plain 7 }) two_metas)
store-IsNext_example =
    store-IsNext (plain 6) two_metas (record { id = 1; flags = 4; content = plain 7 })
      two_metas-IsCurrent refl

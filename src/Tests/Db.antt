-- ===== src/Tests/Db.antt =====
-- Runs of the sizes and the allocation of pages.
use bolt_analysis.Prelude.{false, ℕ, ◌≡◌, refl, arith, ◌≤◌, ◌<◌, ◌+◌, ◌^◌, true, some, inl}
use bolt_analysis.Prelude.Results.{ok, err}
use bolt_analysis.Errors.{mmap_too_large}
use bolt_analysis.Meta.{Meta, validate}
use bolt_analysis.Page.{Page}
use bolt_analysis.Freelist.{new_freelist}
use bolt_analysis.Freelist.Valid.{IsValid, new_freelist-IsValid}
use bolt_analysis.Db.{Db, Os, mmap_size, grow, allocate}
use bolt_analysis.Db.Sizes.{IsMapSize, mmap_size_lem}
use bolt_analysis.Db.Growth.{IsHonest, IsGrowth, grow_lem}
use bolt_analysis.Db.Allocate.{allocate_lem, IsWorking, IsSized, IsFrom}

-- maxMapSize of bolt_amd64.go
abbrev max_size : ℕ
max_size = 0xFFFFFFFFFFFF

mmap_size_small : mmap_size max_size 4096 40000 ≡ ok 65536
unfolding mmap_size
mmap_size_small = refl

mmap_size_large : mmap_size max_size 4096 (2 ^ 30 + 1) ≡ ok (2 ^ 31)
unfolding mmap_size
mmap_size_large = refl

mmap_size_lem_example :
    (40000 ≤ max_size
      → (r : ℕ) × (mmap_size max_size 4096 40000 ≡ ok r) × IsMapSize max_size 4096 40000 r)
    × (max_size < 40000 → mmap_size max_size 4096 40000 ≡ err mmap_too_large)
mmap_size_lem_example = mmap_size_lem max_size 4096 8 40000 refl (omega arith)

abbrev first_meta : Meta
first_meta = record {
  magic = 0xED0CDAED;
  version = 2;
  page_size = 4096;
  flags = 0;
  root = 3;
  sequence = 0;
  freelist = 2;
  pgid = 4;
  txid = 0;
  checksum = 0;
}

abbrev linux : Os
linux = record {
  stat = some 32768;
  unmaps = true;
  maps = true;
  windows = false;
  resize = λ old new. (true, new);
  syncs = true;
  map_meta0 = first_meta;
  map_meta1 = first_meta;
}

-- A map of 32 kB that the next pages do not fit in.
abbrev full : Db
full = record {
  data_size = 32768;
  file_size = 16384;
  disk_size = 16384;
  alloc_size = 16777216;
  page_size = 4096;
  max_map_size = max_size;
  no_grow_sync = false;
  read_only = false;
  pgid = 7;
  freelist = new_freelist;
  meta0 = first_meta;
  meta1 = first_meta;
}

linux-IsHonest : IsHonest linux
linux-IsHonest old new fine = refl

linux-IsWorking : IsWorking linux full
unfolding validate
linux-IsWorking = record {
  info_size = 32768;
  stats = refl;
  two_pages = omega arith;
  mappable = omega arith;
  unmaps = refl;
  maps = refl;
  has_meta = inl refl;
}

full-IsSized : IsSized full
full-IsSized = record { parts = 8; divides = refl; maps_step = omega arith; ints = omega arith }

allocate_lem_example :
    (p : Page) × (db' : Db) × (allocate linux 2 full ≡ (ok (ok p), db'))
    × (p.overflow + 1 ≡ 2)
    × IsValid db'.freelist
    × IsFrom linux full linux-IsWorking full-IsSized 2 p db'
allocate_lem_example =
    allocate_lem linux full linux-IsWorking full-IsSized 2 (omega arith) (omega arith)
      new_freelist-IsValid (omega arith)

grow_lem_example : IsGrowth linux 20000 full (grow linux 20000 full)
grow_lem_example = grow_lem linux linux-IsHonest 20000 full (λ _. omega arith)

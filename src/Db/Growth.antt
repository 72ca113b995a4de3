-- ===== src/Db/Growth.antt =====
-- `grow`: the size of the file, and what an error leaves.
use bolt_analysis.Prelude.{
  subst, Bool, ℕ, ◌≤◌, ◌<◌, ◌≡◌, ◌⊎◌, inl, inr, refl, ap, sym, ◌∙◌, arith, ltb, leb, true, false,
  not, ◌&&◌, if◌then◌else◌, Bool-cases, Option, none, some,
}
use bolt_analysis.Errors.{Error}
use bolt_analysis.Db.{
  sync_grown, truncate, file_sync_error, file_resize_error, grown_size, Db, Os, grow,
}

-- A file that was truncated without an error has the size asked for.
abbrev pub IsHonest : Os → Type 0
IsHonest os = (old new : ℕ) → (os.resize old new).0 ≡ true → (os.resize old new).1 ≡ new

-- `db.grow` changes the file itself.
abbrev resizes : Os → Db → Bool
resizes os db = not db.no_grow_sync && not db.read_only && not os.windows

-- The file can be synced, unless `db.grow` leaves it alone.
abbrev pub IsFlushed : Os → Db → Type 0
IsFlushed os db = (db.no_grow_sync ≡ true) ⊎ ((db.read_only ≡ true) ⊎ (os.syncs ≡ true))

-- What `grow` has done, by how it ended.
abbrev pub IsGrowth : Os → ℕ → Db → Option Error × Db → Type 0
IsGrowth os sz db (none, db') =
    (sz ≤ db'.file_size)
    × (db.file_size ≤ db'.file_size)
    × (((sz ≤ db.file_size) × (db' ≡ db))
        ⊎ ((db.file_size < sz)
            × IsFlushed os db
            × (db' ≡ record db {
              file_size = grown_size sz db;
              disk_size = if resizes os db then grown_size sz db else db.disk_size;
            })))
IsGrowth os sz db (some e, db') =
    (db.file_size < sz)
    × (db.no_grow_sync ≡ false)
    × (db.read_only ≡ false)
    × (db' ≡ record db { disk_size = db'.disk_size })
    × (((e ≡ file_resize_error)
          × (os.windows ≡ false)
          × ((os.resize db.disk_size (grown_size sz db)).0 ≡ false))
        ⊎ ((e ≡ file_sync_error)
            × (os.syncs ≡ false)
            × (db'.disk_size ≡ (if os.windows then db.disk_size else grown_size sz db))))

grown_size-covers :
    (sz : ℕ) (db : Db) → (db.data_size < db.alloc_size → sz ≤ db.data_size) → sz ≤ grown_size sz db
unfolding grown_size
grown_size-covers sz db h = elim (Bool-cases (ltb db.data_size db.alloc_size)) [
  | inl small ↦ rw small (h (ground arith))
  | inr large ↦ rw large (omega arith)
]

module _ (os : Os) (sz : ℕ) (db : Db) where
  grow-sync_grown :
      leb sz db.file_size ≡ false
      → db.no_grow_sync ≡ false
      → db.read_only ≡ false
      → grow os sz db ≡ sync_grown os (grown_size sz db) (truncate os (grown_size sz db) db)
  unfolding grow
  grow-sync_grown large slow writer =
      let end = sync_grown os (grown_size sz db) (truncate os (grown_size sz db) db) in
      let quick : Option Error × Db = (none, record db { file_size = grown_size sz db }) in
      ap
        (λ b.
          if b then (none, db) else if not db.no_grow_sync && not db.read_only then end else quick)
        large
      ∙ ap (λ b. if not b && not db.read_only then end else quick) slow
      ∙ ap (λ b. if not b then end else quick) writer

  -- A file of the size that the truncation has left.
  resized_file : Bool × Db
  resized_file = (
    (os.resize db.disk_size (grown_size sz db)).0,
    record db { disk_size = (os.resize db.disk_size (grown_size sz db)).1 },
  )

  truncate-windows : os.windows ≡ true → truncate os (grown_size sz db) db ≡ (true, db)
  unfolding truncate resized_file
  truncate-windows windows = ap (λ b. if b then (true, db) else resized_file) windows

  truncate-unix :
      os.windows ≡ false
      → truncate os (grown_size sz db) db ≡ (
        (os.resize db.disk_size (grown_size sz db)).0,
        record db { disk_size = (os.resize db.disk_size (grown_size sz db)).1 },
      )
  unfolding truncate resized_file
  truncate-unix unix = ap (λ b. if b then (true, db) else resized_file) unix

  disk-windows :
      os.windows ≡ true → (if os.windows then db.disk_size else grown_size sz db) ≡ db.disk_size
  disk-windows windows = rw windows refl

  disk-unix :
      os.windows ≡ false
      → (if os.windows then db.disk_size else grown_size sz db) ≡ grown_size sz db
  disk-unix unix = rw unix refl

sync_grown-unsafe :
    (os : Os) (n : ℕ) (db : Db)
    → os.syncs ≡ false
    → sync_grown os n (true, db) ≡ (some file_sync_error, db)
unfolding sync_grown
sync_grown-unsafe os n db unsafe =
    ap (λ b. if not b then (some file_sync_error, db) else (none, record db { file_size = n }))
      unsafe

-- A file of a writer that syncs, which is to grow.
module _ (os : Os) (sz : ℕ) (db : Db) (covers : sz ≤ grown_size sz db)
    (large : leb sz db.file_size ≡ false) (slow : db.no_grow_sync ≡ false)
    (writer : db.read_only ≡ false) where
  windows-IsGrowth : os.windows ≡ true → IsGrowth os sz db (grow os sz db)
  unfolding grow truncate sync_grown
  windows-IsGrowth windows =
      let more : db.file_size < sz = ground arith in
      let run =
        grow-sync_grown os sz db large slow writer
        ∙ ap (sync_grown os (grown_size sz db)) (truncate-windows os sz db windows) in
      elim (Bool-cases os.syncs) [
        | inl safe ↦
            simp (large, slow, writer, windows, safe)
              (covers, omega arith, inr (more, inr (inr refl), refl))
        | inr unsafe ↦
            subst (IsGrowth os sz db)
              (sym (run ∙ sync_grown-unsafe os (grown_size sz db) db unsafe))
              (more, slow, writer, refl, inr (refl, unsafe, sym (disk-windows os sz db windows)))
      ]

  unix-IsGrowth : IsHonest os → os.windows ≡ false → IsGrowth os sz db (grow os sz db)
  unfolding grow truncate sync_grown
  unix-IsGrowth honest unix =
      let more : db.file_size < sz = ground arith in
      let file : Db = record db { disk_size = (os.resize db.disk_size (grown_size sz db)).1 } in
      let run =
        grow-sync_grown os sz db large slow writer
        ∙ ap (sync_grown os (grown_size sz db)) (truncate-unix os sz db unix) in
      let answered = λ (b : Bool) (e : (os.resize db.disk_size (grown_size sz db)).0 ≡ b).
        ap (λ b. sync_grown os (grown_size sz db) (b, file)) e in
      elim (Bool-cases (os.resize db.disk_size (grown_size sz db)).0) [
        | inr fails ↦
            subst (IsGrowth os sz db) (sym (run ∙ answered false fails))
              (more, slow, writer, refl, inl (refl, unix, fails))
        | inl resized ↦
            let size = honest db.disk_size (grown_size sz db) resized in
            elim (Bool-cases os.syncs) [
              | inl safe ↦
                  simp (large, slow, writer, unix, resized, size, safe)
                    (covers, omega arith, inr (more, inr (inr refl), refl))
              | inr unsafe ↦
                  subst (IsGrowth os sz db)
                    (sym (
                      run
                      ∙ answered true resized
                      ∙ sync_grown-unsafe os (grown_size sz db) file unsafe))
                    (
                      more,
                      slow,
                      writer,
                      refl,
                      inr (refl, unsafe, size ∙ sym (disk-unix os sz db unix)),
                    )
            ]
      ]

-- On a file that has the size asked for after a truncation without an error, and if the size asked for
-- is not larger than the map as long as that is smaller than `AllocSize`: if `grow` returns no error,
-- `filesz` is at least the size asked for, and not smaller than before. Then nothing has changed, if
-- `filesz` was large enough; otherwise `filesz` is the size in steps. With `NoGrowSync` or in a
-- read-only database the file itself is left as it was; without, it can be synced, and it has that size,
-- but on Windows its old one. An error comes only from a truncation or a sync that failed, without
-- `NoGrowSync` and in a database that is not read-only, and leaves all fields of the database as they
-- were; where only the sync has failed, the file itself has the new size, but on Windows its old one.
pub grow_lem :
    (os : Os)
    → IsHonest os
    → (sz : ℕ) (db : Db) → (db.data_size < db.alloc_size → sz ≤ db.data_size)
    → IsGrowth os sz db (grow os sz db)
unfolding grow
grow_lem os honest sz db h =
    let covers = grown_size-covers sz db h in
    elim (Bool-cases (leb sz db.file_size)) [
      | inl fits ↦ rw fits (ground arith, omega arith, inl (ground arith, refl))
      | inr large ↦
          let more : db.file_size < sz = ground arith in
          elim (Bool-cases db.no_grow_sync) [
            | inl quick ↦ simp (large, quick) (covers, omega arith, inr (more, inl refl, refl))
            | inr slow ↦ elim (Bool-cases db.read_only) [
              | inl reader ↦
                  simp (large, slow, reader) (covers, omega arith, inr (more, inr (inl refl), refl))
              | inr writer ↦ elim (Bool-cases os.windows) [
                | inl windows ↦ windows-IsGrowth os sz db covers large slow writer windows
                | inr unix ↦ unix-IsGrowth os sz db covers large slow writer honest unix
              ]
            ]
          ]
    ]

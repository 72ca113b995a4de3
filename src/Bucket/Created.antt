-- ===== src/Bucket/Created.antt =====
-- What `CreateBucket` leaves: a new bucket in the bucket, and all else as before.
use bolt_analysis.Prelude.{ℕ, ◌≡◌, Option, none, some, [], if◌then◌else◌}
use bolt_analysis.Prelude.Results.{Result, ok, err}
use bolt_analysis.Panics.{Panic}
use bolt_analysis.Errors.{Error, bucket_exists, incompatible_value}
use bolt_analysis.Bytes.{Bytes, equal}
use bolt_analysis.Node.{Inode, Node}
use bolt_analysis.Node.Disk as Disk
use bolt_analysis.Page.Elements.{BytesPage}
use bolt_analysis.Bucket.{Bucket}
use bolt_analysis.Bucket.Pairs.{get, is_bucket}
use bolt_analysis.Bucket.Changed.{IsSound}
use bolt_analysis.Bucket.Value.{Opened}
use bolt_analysis.Bucket.Create.{Nested, find_bucket}

-- The page of a new bucket: an empty leaf.
abbrev pub new_page : BytesPage
new_page = record { id = 0; flags = 2; count = 0; overflow = 0; bytes = [] }

abbrev pub new_bucket : Opened
new_bucket = record { root = 0; sequence = 0; page = some new_page }

-- A bucket that was created.
pub record IsCreated (b : Nested) (height h : ℕ) (key : Bytes)
    (found : Result Panic (Nested × Result Error (Option Opened))) : Type 0 where
  pub after : Nested
  pub is_found : found ≡ ok (after, ok (some new_bucket))
  pub sound : IsSound after.bucket h
  pub again : find_bucket after height key ≡ ok (after, some new_bucket)
  pub gets :
      (j : Bytes)
      → get after.bucket height j ≡ (if equal key j then ok none else get b.bucket height j)

-- What `CreateBucket` answers, by the element that has the key.
abbrev pub IsAnswer :
    Nested
    → ℕ
    → ℕ
    → Bytes
    → Option Inode
    → Result Panic (Nested × Result Error (Option Opened))
    → Type 0
IsAnswer b height h key none found = IsCreated b height h key found
IsAnswer b height h key (some e) found =
    found ≡ ok (b, err (if is_bucket (some e) then bucket_exists else incompatible_value))

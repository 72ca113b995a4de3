-- ===== src/Bucket/Create.antt =====
-- bucket.go: `Bucket`, `CreateBucket` and `CreateBucketIfNotExists`, a bucket in a bucket.
use bolt_analysis.Prelude.{
  ℕ, true, false, not, Option, none, some, [], length, ◌==◌, ◌&&◌, if◌then◌else◌,
}
use bolt_analysis.Prelude.Results.{Result, ok, err, ◌>>=◌}
use bolt_analysis.Panics.{Panic, index_out_of_range}
use bolt_analysis.Errors.{
  Error, tx_closed, tx_not_writable, bucket_name_required, bucket_exists, incompatible_value,
}
use bolt_analysis.Bytes.{Bytes, equal}
use bolt_analysis.Node.{Inode, Node}
use bolt_analysis.Node as N
use bolt_analysis.Cursor.{Stack, bucket_leaf_flag}
use bolt_analysis.Bucket.{Bucket}
use bolt_analysis.Bucket.Pairs.{sought, change_at, is_bucket, is_key}
use bolt_analysis.Bucket.Value.{Opened, open_bucket, write}

-- A bucket with its cache of the buckets in it, if there is one.
pub record Nested : Type 0 where
  pub bucket : Bucket
  pub buckets : Option (Bytes → Option Opened)

unfoldable pub cached : Option (Bytes → Option Opened) → Bytes → Option Opened
cached none name = none
cached (some buckets) name = buckets name

unfoldable pub with_cached :
    Bytes → Opened → Option (Bytes → Option Opened) → Option (Bytes → Option Opened)
with_cached name child none = none
with_cached name child (some buckets) = some (λ j. if equal name j then some child else buckets j)

unfoldable pub opened : Option Inode → Result Panic Opened
unfolding open_bucket
opened none = err index_out_of_range
opened (some e) = open_bucket e.value

-- `b.Bucket(name)` where the cache does not have it.
unfoldable pub look_up : Nested → ℕ → Bytes → Result Panic (Nested × Option Opened)
unfolding is_key is_bucket opened with_cached
look_up b height name = do
  (refs, item) ← sought b.bucket height name
  if is_key name item && is_bucket item
      then (opened item >>= λ child.
          ok (record b { buckets = with_cached name child b.buckets }, some child))
      else ok (b, none)

unfoldable pub or_look_up :
    Option Opened → Nested → ℕ → Bytes → Result Panic (Nested × Option Opened)
unfolding look_up
or_look_up (some child) b height name = ok (b, some child)
or_look_up none b height name = look_up b height name

-- `b.Bucket(name)`
unfoldable pub find_bucket : Nested → ℕ → Bytes → Result Panic (Nested × Option Opened)
unfolding cached or_look_up
find_bucket b height name = or_look_up (cached b.buckets name) b height name

abbrev pub empty_leaf : Node
empty_leaf = record {
  is_leaf = true;
  unbalanced = false;
  spilled = false;
  key = [];
  pgid = 0;
  inodes = [];
}

-- The value of a new bucket is put at the cursor, and opened.
unfoldable pub insert_bucket :
    Nested → ℕ → Bytes → Stack → Bytes → Result Panic (Nested × Result Error (Option Opened))
unfolding find_bucket change_at
insert_bucket b height key refs value = do
  (b', e) ← change_at (N.put b.bucket.high key key value 0 bucket_leaf_flag) refs b.bucket
  (b'', child) ← find_bucket (record b { bucket = record b' { page = none } }) height key
  ok (b'', ok child)

unfoldable pub create_at :
    Nested → ℕ → Bytes → Stack → Result Panic (Nested × Result Error (Option Opened))
unfolding write insert_bucket
create_at b height key refs = write 0 0 empty_leaf >>= insert_bucket b height key refs

-- `b.CreateBucket(key)`
unfoldable pub create_bucket :
    Nested → ℕ → Bytes → Result Panic (Nested × Result Error (Option Opened))
unfolding create_at is_key is_bucket
create_bucket b height key =
    if not b.bucket.tx_open
    then ok (b, err tx_closed)
    else if not b.bucket.writable
    then ok (b, err tx_not_writable)
    else if length key == 0
    then ok (b, err bucket_name_required)
    else (sought b.bucket height key >>= λ (refs, item).
        if is_key key item
        then ok (b, err (if is_bucket item then bucket_exists else incompatible_value))
        else create_at b height key refs)

-- The bucket that exists, if `CreateBucket` says so.
unfoldable pub or_existing :
    ℕ
    → Bytes
    → Nested × Result Error (Option Opened)
    → Result Panic (Nested × Result Error (Option Opened))
unfolding find_bucket
or_existing height key (b, err bucket_exists) = do
  (b', child) ← find_bucket b height key
  ok (b', ok child)
or_existing height key (b, r) = ok (b, r)

-- `b.CreateBucketIfNotExists(key)`
unfoldable pub create_bucket_if_not_exists :
    Nested → ℕ → Bytes → Result Panic (Nested × Result Error (Option Opened))
unfolding create_bucket or_existing
create_bucket_if_not_exists b height key = create_bucket b height key >>= or_existing height key

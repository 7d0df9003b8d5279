-- ===== src/Storage/Buckets.antt =====
-- go.etcd.io/bbolt as a parameter: what is in a bucket, and what the code relies on. A change of a
-- bucket inside another is written out by `store`, since a bucket of a transaction is a reference.
use yata_collaborative_edito.Base.{
  Option, none, some, ◌≡◌, text_eq, text_Eq, if◌then◌else◌, Map, lookup, In,
}
use yata_collaborative_edito.Protocol.Messages.{Bytes}

pub record Bolt : Type 1 where
  -- the content of a bucket; that of the database is the one of the buckets at the top
  pub Bucket : Type 0
  pub empty : Bucket
  -- Get, where nil is `none`
  pub get : Bucket → Bytes → Option Bytes
  -- Bucket, where nil is `none`
  pub bucket : Bucket → Bytes → Option Bucket
  -- Put; `none` is an error
  pub put : Bucket → Bytes → Bytes → Option Bucket
  -- CreateBucketIfNotExists: the parent and the bucket; `none` is an error
  pub create : Bucket → Bytes → Option (Bucket × Bucket)
  -- the parent of a bucket that has been written to
  pub store : Bucket → Bytes → Bucket → Bucket
  -- the keys and values that ForEach visits
  pub entries : Bucket → Map Bytes Bytes

abbrev pub or_else : {A : Type 0} → Option A → A → A
or_else none a = a
or_else (some b) a = b

module _ (bolt : Bolt) where
  open bolt use {Bucket, empty, get, bucket, put, create, store, entries}

  -- What bbolt documents: a new bucket is empty; a write that returns no error is found by later
  -- reads and changes nothing else; ForEach visits each key with its value.
  pub record BoltLaws : Type 1 where
    pub get-empty : (k : Bytes) → get empty k ≡ none
    pub bucket-empty : (k : Bytes) → bucket empty k ≡ none
    pub get-put :
        (b c : Bucket) (k j v : Bytes)
        → put b k v ≡ some c
        → get c j ≡ (if text_eq k j then some v else get b j)
    pub bucket-put : (b c : Bucket) (k j v : Bytes) → put b k v ≡ some c → bucket c j ≡ bucket b j
    pub create_found :
        (b c d : Bucket) (k : Bytes) → create b k ≡ some (c, d) → d ≡ or_else (bucket b k) empty
    pub bucket-create :
        (b c d : Bucket) (k j : Bytes)
        → create b k ≡ some (c, d)
        → bucket c j ≡ (if text_eq k j then some d else bucket b j)
    pub get-create : (b c d : Bucket) (k j : Bytes) → create b k ≡ some (c, d) → get c j ≡ get b j
    pub bucket-store :
        (b c : Bucket) (k j : Bytes)
        → bucket (store b k c) j ≡ (if text_eq k j then some c else bucket b j)
    pub get-store : (b c : Bucket) (k j : Bytes) → get (store b k c) j ≡ get b j
    pub entries-In : (b : Bucket) (k v : Bytes) → In (k, v) (entries b) → get b k ≡ some v
    pub lookup-entries : (b : Bucket) (k : Bytes) → lookup k (entries b) ≡ get b k

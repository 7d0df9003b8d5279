-- ===== src/Examples/Buckets.antt =====
-- A concrete bbolt, which has the laws that the theorems on the storage ask of it: a bucket is its
-- values and its buckets, no write fails.
use yata_collaborative_edito.Base.{
  false, Option, none, some, [], ◌∷◌, ◌≡◌, refl, inl, inr, arith, if◌then◌else◌, text_eq,
  text_eq_iff, text_Eq, Map, lookup, insert, delete, lookup-insert, lookup-delete, In, ap, ◌⊎◌,
  Bool-cases, Option-cases,
}
use yata_collaborative_edito.Protocol.Messages.{Bytes}
use yata_collaborative_edito.Storage.Buckets.{Bolt, BoltLaws, or_else}

mutual
  pub data Tree : Type 0 where
    node : Map Bytes Bytes → Forest → Tree

  pub data Forest : Type 0 where
    bare : Forest
    grown : Bytes → Tree → Forest → Forest

unfoldable pub find : Bytes → Forest → Option Tree
find k bare = none
find k (grown j t f) = if text_eq j k then some t else find k f

unfoldable pub graft : Bytes → Tree → Forest → Forest
graft k t bare = grown k t bare
graft k t (grown j u f) =
    let rest = graft k t f in if text_eq j k then grown k t f else grown j u rest

find-graft :
    (k j : Bytes) (t : Tree) (f : Forest)
    → find j (graft k t f) ≡ (if text_eq k j then some t else find j f)
unfolding find graft
find-graft k j t bare = refl
find-graft k j t (grown i u f) =
    ground (arith, text_eq_iff k j, text_eq_iff i k, text_eq_iff i j, find-graft k j t f)

abbrev leaf : Tree
leaf = node [] bare

abbrev graft_in : Tree → Bytes → Tree → Tree
graft_in (node vs f) k t = node vs (graft k t f)

abbrev find_in : Tree → Bytes → Option Tree
find_in (node vs f) k = find k f

abbrev value : Tree → Bytes → Option Bytes
value (node vs f) k = lookup k vs

abbrev written : Tree → Bytes → Bytes → Option Tree
written (node vs f) k v = some (node (insert k v vs) f)

abbrev grow : Tree → Bytes → Option (Tree × Tree)
grow t k = elim (find_in t k) [ some u ↦ some (t, u) | none ↦ some (graft_in t k leaf, leaf) ]

delete-In :
    {V : Type 0} (j k : Bytes) (v : V) (m : Map Bytes V)
    → In (k, v) (delete j m)
    → In (k, v) m × (text_eq j k ≡ false)
unfolding delete
delete-In {V} j k v [] i = absurd i
delete-In {V} j k v ((n, w) ∷ m) i = elim (Bool-cases (text_eq n j)) [
  | inl same ↦
      let (inside, differs) = delete-In j k v m (ground (arith, same, i)) in (inr inside, differs)
  | inr other ↦
      let head : (◌≡◌ {A = Bytes × V} (n, w) (k, v)) ⊎ In (k, v) (delete j m) =
        ground (arith, other, i) in
      elim head [
        | inl e ↦ (
          inl e,
          ground (arith, other, ap (λ (x : Bytes × V). x.0) e, text_eq_iff n j, text_eq_iff j k),
        )
        | inr later ↦ let (inside, differs) = delete-In j k v m later in (inr inside, differs)
      ]
]

-- Each key with its value, once
unfoldable pub once : {V : Type 0} → Map Bytes V → Map Bytes V
once [] = []
once ((k, v) ∷ m) = let rest = once m in (k, v) ∷ delete k rest

abbrev values : Tree → Map Bytes Bytes
values (node vs f) = once vs

pub once-In :
    {V : Type 0} (k : Bytes) (v : V) (m : Map Bytes V) → In (k, v) (once m) → lookup k m ≡ some v
unfolding once lookup
once-In {V} k v [] i = absurd i
once-In {V} k v ((j, w) ∷ m) i = elim i [
  | inl e ↦
      ground (arith, ap (λ (x : Bytes × V). x.0) e, ap (λ (x : Bytes × V). x.1) e, text_eq_iff j k)
  | inr later ↦
      let (inside, differs) = delete-In j k v (once m) later in
      ground (arith, differs, once-In k v m inside)
]

pub lookup-once : {V : Type 0} (k : Bytes) (m : Map Bytes V) → lookup k (once m) ≡ lookup k m
unfolding once lookup
lookup-once k [] = refl
lookup-once k ((j, w) ∷ m) = ground (arith, lookup-delete j k (once m), lookup-once k m)

abbrev pub forest : Bolt
forest = record {
  Bucket = Tree;
  empty = leaf;
  get = value;
  bucket = find_in;
  put = written;
  create = grow;
  store = graft_in;
  entries = values;
}

get-put :
    (b c : Tree) (k j v : Bytes)
    → written b k v ≡ some c
    → value c j ≡ (if text_eq k j then some v else value b j)
get-put (node vs f) c k j v e = ground (arith, lookup-insert k j v vs)

bucket-put : (b c : Tree) (k j v : Bytes) → written b k v ≡ some c → find_in c j ≡ find_in b j
bucket-put (node vs f) c k j v e = ground arith

create_found : (b c d : Tree) (k : Bytes) → grow b k ≡ some (c, d) → d ≡ or_else (find_in b k) leaf
create_found (node vs f) c d k e = ground arith

bucket-create :
    (b c d : Tree) (k j : Bytes)
    → grow b k ≡ some (c, d)
    → find_in c j ≡ (if text_eq k j then some d else find_in b j)
bucket-create (node vs f) c d k j e = elim (Option-cases (find k f)) [
  | inl n ↦ ground (arith, n, e, find-graft k j leaf f)
  | inr (u, s) ↦ ground (arith, s, e, text_eq_iff k j)
]

get-create : (b c d : Tree) (k j : Bytes) → grow b k ≡ some (c, d) → value c j ≡ value b j
get-create (node vs f) c d k j e = ground arith

bucket-store :
    (b c : Tree) (k j : Bytes)
    → find_in (graft_in b k c) j ≡ (if text_eq k j then some c else find_in b j)
bucket-store (node vs f) c k j = find-graft k j c f

get-store : (b c : Tree) (k j : Bytes) → value (graft_in b k c) j ≡ value b j
get-store (node vs f) c k j = refl

lookup-entries : (b : Tree) (k : Bytes) → lookup k (values b) ≡ value b k
lookup-entries (node vs f) k = lookup-once k vs

entries-In : (b : Tree) (k v : Bytes) → In (k, v) (values b) → value b k ≡ some v
entries-In (node vs f) k v i = once-In k v vs i

pub forest-laws : BoltLaws forest
unfolding lookup find
forest-laws = record {
  get-empty = λ k. refl;
  bucket-empty = λ k. refl;
  get-put = get-put;
  bucket-put = bucket-put;
  create_found = create_found;
  bucket-create = bucket-create;
  get-create = get-create;
  bucket-store = bucket-store;
  get-store = get-store;
  entries-In = entries-In;
  lookup-entries = lookup-entries;
}

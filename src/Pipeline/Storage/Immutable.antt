-- ===== src/Pipeline/Storage/Immutable.antt =====
-- What is relied on of the object store, and the writes of ingestion/batch/pipeline/storage.py.
use gb_industrial_energy_dat.Prelude.{
  String, ◌≡◌, ◌≢◌, refl, inl, inr, Option-cases, Result-cases, true, Option, some, [], ◌∷◌, length,
  ok, err, arith,
}
use gb_industrial_energy_dat.Pipeline.Storage.{
  Bytes, StorageError, same_bytes, Disposition, PutOutcome, stored, precondition_failed, failed,
  raised, Head, ObjectInfo, created, reused, S3Client, verify_replay, describe, after_put,
  put_immutable,
}

pub same_bytes-eq : (xs ys : Bytes) → same_bytes xs ys ≡ true → xs ≡ ys
unfolding same_bytes
same_bytes-eq [] [] h = refl
same_bytes-eq [] (y ∷ ys) h = cc
same_bytes-eq (x ∷ xs) [] h = cc
same_bytes-eq (x ∷ xs) (y ∷ ys) h = ground (arith, same_bytes-eq xs ys)

-- What the code relies on of the object store, `objects` being what is stored: reads change nothing
-- and are consistent, a conditional write never replaces an object, also where it fails, and one
-- that succeeds has stored its content.
pub record Laws {S : Type 0} (objects : S → String → String → Option Bytes) (client : S3Client S)
    : Type 0 where
  pub head_reads : (b k : String) (s : S) → (client.head_object b k s).1 ≡ s
  pub get_reads : (b k : String) (s : S) → (client.get_object b k s).1 ≡ s
  pub get_truthful :
      (b k : String) (s : S) (c : Bytes)
      → (client.get_object b k s).0 ≡ some c
      → objects s b k ≡ some c
  pub put_keeps :
      (b k : String) (c : Bytes) (t : String) (s : S) (b' k' : String) (v : Bytes)
      → objects s b' k' ≡ some v
      → objects (client.put_object b k c t s).1 b' k' ≡ some v
  pub put_stores :
      (b k : String) (c : Bytes) (t : String) (s : S)
      → (client.put_object b k c t s).0 ≡ stored
      → objects (client.put_object b k c t s).1 b k ≡ some c

module _ {S : Type 0} (objects : S → String → String → Option Bytes) (client : S3Client S)
    (laws : Laws objects client) (sha256 : Bytes → String) (b k : String) (c : Bytes)
    (t : String) where
  -- After the put everything only reads.
  after_put-reads : (o : PutOutcome) (s : S) → (after_put client sha256 b k c t o s).1 ≡ s
  unfolding after_put verify_replay describe
  after_put-reads stored s = ground (arith, laws.head_reads b k s)
  after_put-reads failed s = refl
  after_put-reads raised s = refl
  after_put-reads precondition_failed s = ground (
    arith,
    laws.head_reads b k s,
    laws.get_reads b k s,
    laws.get_reads b k (client.head_object b k s).1,
  )

  replay_same :
      (s : S) (h : Head) → (verify_replay client sha256 b k c t s).0 ≡ ok h → objects s b k ≡ some c
  unfolding verify_replay
  replay_same s h e =
      let s' = (client.head_object b k s).1 in
      elim (Option-cases (client.get_object b k s').0) [
        | inl absent ↦ ground (arith, absent)
        | inr (d, found) ↦
            let there : objects s' b k ≡ some d = laws.get_truthful b k s' d found in
            ground (arith, laws.head_reads b k s, there, same_bytes-eq d c)
      ]

  after_put-stored :
      (o : PutOutcome) (s : S) (i : ObjectInfo)
      → (o ≡ stored → objects s b k ≡ some c)
      → (after_put client sha256 b k c t o s).0 ≡ ok i
      → objects s b k ≡ some c
  unfolding after_put
  after_put-stored stored s i w e = w refl
  after_put-stored failed s i w e = cc
  after_put-stored raised s i w e = cc
  after_put-stored precondition_failed s i w e =
      elim (Result-cases (verify_replay client sha256 b k c t s).0) [
        | inl (h, there) ↦ replay_same s h there
        | inr (x, bad) ↦ ground (arith, bad)
      ]

  -- whatever comes of a put, an object that is stored stays as it is
  put_immutable_keeps :
      (s : S) (b' k' : String) (v : Bytes)
      → objects s b' k' ≡ some v
      → objects (put_immutable client sha256 b k c t s).1 b' k' ≡ some v
  unfolding put_immutable
  put_immutable_keeps s b' k' v h =
      let (o, s') = client.put_object b k c t s in
      ground (
        arith,
        after_put-reads (client.put_object b k c t s).0 (client.put_object b k c t s).1,
        laws.put_keeps b k c t s b' k' v h,
      )

  describe-info :
      (d : Disposition) (h : Head) (s : S) (i : ObjectInfo)
      → (describe client sha256 b k c t d h s).0 ≡ ok i
      → (i.sha256 ≡ sha256 c) × (i.content_length ≡ length c)
  unfolding describe
  describe-info d h s i e = (ground arith, ground arith)

  after_put-info :
      (o : PutOutcome) (s : S) (i : ObjectInfo)
      → (after_put client sha256 b k c t o s).0 ≡ ok i
      → (i.sha256 ≡ sha256 c) × (i.content_length ≡ length c)
  unfolding after_put
  after_put-info failed s i e = cc
  after_put-info raised s i e = cc
  after_put-info stored s i e = elim (Option-cases (client.head_object b k s).0) [
    | inl absent ↦ (ground (arith, absent), ground (arith, absent))
    | inr (h, found) ↦
        describe-info created h (client.head_object b k s).1 i (ground (arith, found))
  ]
  after_put-info precondition_failed s i e =
      let r = verify_replay client sha256 b k c t s in
      elim (Result-cases r.0) [
        | inl (h, there) ↦ describe-info reused h r.1 i (ground (arith, there))
        | inr (x, bad) ↦ (ground (arith, bad), ground (arith, bad))
      ]

  -- A put that returns has left exactly the content at its key, whether it wrote it or found it,
  -- and reports the digest and the length of that content.
  pub put_immutable_stores :
      (s : S) (i : ObjectInfo)
      → (put_immutable client sha256 b k c t s).0 ≡ ok i
      → (objects (put_immutable client sha256 b k c t s).1 b k ≡ some c)
        × (i.sha256 ≡ sha256 c)
        × (i.content_length ≡ length c)
  unfolding put_immutable
  put_immutable_stores s i e =
      let (o, s') = client.put_object b k c t s in
      (
        rw (after_put-reads o s') (after_put-stored o s' i (laws.put_stores b k c t s) e),
        (after_put-info o s' i e).0,
        (after_put-info o s' i e).1,
      )

  -- At a key that has another content, a put raises, and the object stays as it is.
  pub put_immutable_refuses :
      (s : S) (v : Bytes)
      → objects s b k ≡ some v
      → v ≢ c
      → (e : StorageError) × ((put_immutable client sha256 b k c t s).0 ≡ err e)
        × (objects (put_immutable client sha256 b k c t s).1 b k ≡ some v)
  put_immutable_refuses s v there other =
      let put = put_immutable client sha256 b k c t s in
      let kept = put_immutable_keeps s b k v there in
      elim (Result-cases put.0) [
        | inr (e, bad) ↦ (e, bad, kept)
        | inl (i, returned) ↦
            let written = (put_immutable_stores s i returned).0 in
            let same : v ≡ c = ground (arith, kept, written) in absurd (other same)
      ]
